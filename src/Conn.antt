-- ===== src/Conn.antt =====
-- connection.go and sendRequest of comm.go: the state of a connection, and its requests one at a
-- time. (The goroutines and the lock of activeRequests are the subject of Requests.)
use go_adstc.Prelude.{ℕ, suc, ◌+◌, ◌%◌, ◌^◌, Bool, Option, none, some}
use go_adstc.Prelude.{List, [], ◌∷◌, ◌++◌, if◌then◌else◌}
use go_adstc.Go.Result.{Error, aborted, Result, ok, err, panic}
use go_adstc.Ams.{AmsAddress, encode}
use go_adstc.Symbol.{Text, UploadType, Symbol}

-- What the connection meets outside: the transmit worker, the PLC and the clock. Each answer may
-- depend on everything that was sent before.
pub record Env : Type 0 where
  -- the next packet is taken from sendChannel before the context is done
  pub accepts : List (List ℕ) → Bool
  -- the payload that comes back for the last packet, or the context is done first
  pub reply : List (List ℕ) → Option (List ℕ)
  -- what the nth call of time.Now returns, in nanoseconds
  pub clock : ℕ → ℕ

pub record Conn : Type 0 where
  pub target : AmsAddress
  pub source : AmsAddress
  -- conn.symbols, activeNotifications and datatypes; the symbols stand in `store`
  pub store : List Symbol
  pub symbols : List (Text × ℕ)
  pub active_notifications : List (ℕ × ℕ)
  pub datatypes : List (Text × UploadType)
  -- the last invoke id, and the ids in activeRequests
  pub current_request : ℕ
  pub active_requests : List ℕ
  -- the packets that went out, the last one last
  pub sent : List (List ℕ)
  -- how often time.Now was called
  pub clock_reads : ℕ
  -- where the router of the controller is reached, whether conn.connection is there, and whether
  -- conn.ctx is done
  pub ip : Text
  pub port : ℕ
  pub connected : Bool
  pub shut_down : Bool

-- A method of Connection: what it changes stays changed when it fails.
abbrev pub M : Type 0 → Type 0
M A = Conn → Result A × Conn

abbrev pub continue : {A B : Type 0} → Result A × Conn → (A → M B) → Result B × Conn
continue (ok a, c) f = f a c
continue (err e, c) f = (err e, c)
continue (panic, c) f = (panic, c)

infixl 10 ◌>>=◌ ◌>>◌
abbrev pub ◌>>=◌ : {A B : Type 0} → M A → (A → M B) → M B
◌>>=◌ m f c = continue (m c) f

abbrev pub ◌>>◌ : {A B : Type 0} → M A → M B → M B
m >> n = m >>= λ _. n

abbrev pub pure : {A : Type 0} → A → M A
pure a c = (ok a, c)

abbrev pub fail : {A : Type 0} → Error → M A
fail e c = (err e, c)

abbrev pub lift : {A : Type 0} → Result A → M A
lift r c = (r, c)

abbrev pub gets : {A : Type 0} → (Conn → A) → M A
gets f c = (ok (f c), c)

abbrev pub modify : (Conn → Conn) → M (Unit {0})
modify f c = (ok tt, f c)

-- conn.currentRequest.Inc()
abbrev pub next_id : Conn → ℕ
next_id c = (c.current_request + 1) % 2 ^ 32

-- The packet of the next request.
abbrev pub next_packet : ℕ → List ℕ → Conn → List ℕ
next_packet command payload c = encode c.target c.source command payload (next_id c)

-- The request is given its id and its channel.
abbrev pub registered : Conn → Conn
registered c = record c {
  current_request = next_id c;
  active_requests = next_id c ∷ c.active_requests;
}

module _ (env : Env) where
  -- The second select: the reply, or ctx.Err().
  unfoldable pub await : M (List ℕ)
  await c = elim (env.reply c.sent) [ none ↦ (err aborted, c) | some r ↦ (ok r, c) ]

  -- When the context is done before the packet is taken, sendRequest returns nil and no error.
  unfoldable pub send_request : ℕ → List ℕ → M (List ℕ)
  unfolding await
  send_request command payload c =
      if env.accepts c.sent
      then await (record (registered c) { sent = c.sent ++ (next_packet command payload c ∷ []) })
      else (ok [], registered c)

  -- time.Now()
  unfoldable pub now : M ℕ
  now c = (ok (env.clock c.clock_reads), record c { clock_reads = suc c.clock_reads })

-- ===== src/Requests.antt =====
-- sendRequest, handleReceive and transmitWorker of comm.go as goroutines: invoke ids, the map
-- activeRequests with its lock, the channel of each request, and what the worker writes. The numbers
-- start at 1 and are followed up to 2^32 - 1, before they wrap.
pub mod Answers
pub mod Late
pub mod Transmit
pub mod Broken
use go_adstc.Prelude.{ℕ, ◌+◌, ◌^◌, ◌<◌, ◌≡◌, Bool, true, false, Option, none, some, List, [], ◌∷◌}
use go_adstc.Prelude.{◌==◌, ◌||◌, if◌then◌else◌}
use go_adstc.Comm.{Receipt, answer, broadcast, handle_receive}

-- How far the sendRequest with an id has come.
pub data Phase : Type 0 where
  -- no such request yet
  idle : Phase
  -- in the first select: the packet is offered to the transmit worker
  sending : Phase
  -- in the second select: it waits for its channel
  waiting : Phase
  -- it has returned, with a payload or because its context was done
  answered : List ℕ → Phase
  given_up : Phase

pub record Net : Type 0 where
  -- conn.currentRequest
  pub current : ℕ
  pub phase : ℕ → Phase
  -- the handleReceive that holds activeRequestLock and offers a payload to a request
  pub offer : Option (ℕ × List ℕ)
  -- conn.ctx is done
  pub shut_down : Bool
  -- every packet that handleReceive was given
  pub packets : List (List ℕ)
  -- transmitWorker: it runs, and its bufio.Writer has the error of a write
  pub worker : Bool
  pub broken : Bool
  -- the ids whose packets it took, and those whose packets went out, the last one first
  pub taken : List ℕ
  pub written : List ℕ
  -- the id of the packet whose write failed, and how many bytes of it went out
  pub partly : Option (ℕ × ℕ)

-- activeRequests has an entry for each id that was given out: entries are never deleted.
abbrev pub is_active : Phase → Bool
is_active idle = false
is_active _ = true

abbrev pub active : Net → ℕ → Bool
active s id = is_active (s.phase id)

abbrev pub update : (ℕ → Phase) → ℕ → Phase → ℕ → Phase
update f id p j = if j == id then p else f j

abbrev pub start : Net
start = record {
  current = 0;
  phase = λ id. idle;
  offer = none;
  shut_down = false;
  packets = [];
  worker = true;
  broken = false;
  taken = [];
  written = [];
  partly = none;
}

-- What the socket makes of a packet: all of it goes out, or some bytes and then an error.
pub data SocketWrite : Type 0 where
  whole : SocketWrite
  fails : ℕ → SocketWrite

abbrev pub failed : SocketWrite → Bool
failed whole = false
failed (fails sent) = true

abbrev pub part_of : ℕ → SocketWrite → Option (ℕ × ℕ)
part_of id whole = none
part_of id (fails sent) = some (id, sent)

-- The worker takes the packet of a request, and gives it to its bufio.Writer and flushes that. The
-- Writer documents that after an error no more data is accepted, and that every later Write and
-- Flush returns the error; otherwise the socket is given the packet. The worker only logs an error.
abbrev pub transmit : Net → ℕ → SocketWrite → Net
transmit s id write = record s {
  phase = update s.phase id waiting;
  taken = id ∷ s.taken;
  broken = s.broken || failed write;
  written = if s.broken || failed write then s.written else id ∷ s.written;
  partly = if s.broken then s.partly else part_of id write;
}

-- The worker sees that the context is done, and returns.
abbrev pub worker_exits : Net → Net
worker_exits s = record s { worker = false }

pub data Step (s t : Net) : Type 0 where
  -- sendRequest takes the lock, numbers itself and enters its channel
  request :
      s.offer ≡ none
      → s.current + 1 < 2 ^ 32
      → t ≡ record s { current = s.current + 1; phase = update s.phase (s.current + 1) sending }
      → Step s t
  -- the transmit worker takes a packet, or ends
  take :
      (id : ℕ) (write : SocketWrite)
      → s.worker ≡ true
      → s.phase id ≡ sending
      → t ≡ transmit s id write
      → Step s t
  exit : s.worker ≡ true → s.shut_down ≡ true → t ≡ worker_exits s → Step s t
  -- the context of a request is done, in either select
  give_up_sending :
      (id : ℕ)
      → s.phase id ≡ sending
      → t ≡ record s { phase = update s.phase id given_up }
      → Step s t
  give_up_waiting :
      (id : ℕ)
      → s.phase id ≡ waiting
      → t ≡ record s { phase = update s.phase id given_up }
      → Step s t
  -- handleReceive takes the lock and finds the channel of a request: it offers the payload
  receive :
      (bytes payload : List ℕ) (id : ℕ)
      → s.offer ≡ none
      → handle_receive (active s) bytes ≡ answer id payload
      → t ≡ record s { offer = some (id, payload); packets = bytes ∷ s.packets }
      → Step s t
  -- handleReceive takes the lock and finds no channel
  receive_broadcast :
      (bytes : List ℕ) (id : ℕ)
      → s.offer ≡ none
      → handle_receive (active s) bytes ≡ broadcast id
      → t ≡ record s { packets = bytes ∷ s.packets }
      → Step s t
  -- the request receives from its channel, and handleReceive unlocks
  deliver :
      (id : ℕ) (payload : List ℕ)
      → s.offer ≡ some (id, payload)
      → s.phase id ≡ waiting
      → t ≡ record s { offer = none; phase = update s.phase id (answered payload) }
      → Step s t
  -- conn.shutdown(); a handleReceive that offers returns when the context is done
  shut : t ≡ record s { shut_down = true } → Step s t
  withdraw : s.shut_down ≡ true → t ≡ record s { offer = none } → Step s t

pub data Steps (s : Net) : Net → Type 0 where
  here : Steps s s
  next : {t u : Net} → Steps s t → Step t u → Steps s u

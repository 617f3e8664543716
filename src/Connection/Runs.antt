-- ===== src/Connection/Runs.antt =====
-- Runs of a connection: any calls of its methods, and any notifications, one after another.
use go_adstc.Prelude.{ℕ, ◌≡◌, refl, sym, ap, List, [], ◌∷◌, some, Bool, true, false, ◌&&◌, not}
use go_adstc.Go.Result.{Result, ok, err, panic}
use go_adstc.Ams.{NetId}
use go_adstc.Ams.Dotted.{string_to_net_id}
use go_adstc.Symbol.{Text, Symbol}
use go_adstc.Symbol.Store.{symbol_at}
use go_adstc.Conn.{Env, Conn, M, ◌>>◌, pure}
use go_adstc.SymbolTable.Json.{Encoder}
use go_adstc.Value.{Formats}
use go_adstc.Value.Update.Changed.{IsSound}
use go_adstc.Client.{get_symbol, write_to_symbol, read_from_symbol, add_symbol_notification}
use go_adstc.Notification.Handle.{notified}
use go_adstc.Connection.{new_connection, between}
use go_adstc.Connection.{connect, close}
use go_adstc.Connection.Keeps.{Keeps, continue-Keeps}
use go_adstc.Connection.Keeps.{get_symbol-Keeps, write_to_symbol-Keeps}
use go_adstc.Connection.Keeps.{
  add_symbol_notification-Keeps, read_from_symbol-Keeps, notified-Keeps,
}
use go_adstc.Value.Update.Changed.{calm}
use go_adstc.Connection.Invariant.{Invariant, core}
use go_adstc.Connection.Marks.{Grown, Grown-refl, Grown-Invariant}
use go_adstc.Connection.Sound.{AreSound, AreSound-Invariant}
use go_adstc.Connection.Startup.{connect-Keeps, close-Keeps}

-- What can happen to a connection.
pub data Call : Type 0 where
  connects : (Text → Bool) → Bool → Call
  closes : Call
  gets_symbol : Text → Call
  reads : Text → Call
  writes : Text → Text → Call
  watches : Text → ℕ → Call
  notifies : List ℕ → Call

-- The result of a call is of no interest here.
abbrev void : {A : Type 0} → M A → M (Unit {0})
void m = do m; pure tt

module _ (env : Env) (enc : Encoder) (fmts : Formats) where
  unfoldable pub perform : Call → M (Unit {0})
  perform (connects dial is_local) = connect env dial is_local
  perform closes = close env
  perform (gets_symbol name) = void (get_symbol env name)
  perform (reads name) = void (read_from_symbol env enc fmts name)
  perform (writes name value) = write_to_symbol env fmts name value
  perform (watches name channel) = add_symbol_notification env name channel
  perform (notifies bytes) = void (notified env enc fmts bytes)

  -- A run goes on whatever a call returns.
  abbrev pub run : List Call → Conn → Conn
  run [] c = c
  run (call ∷ more) c = run more (perform call c).1

module _ (env : Env) (enc : Encoder) (fmts : Formats) (P : List Symbol → Type 0)
    (inv : Invariant env P) where
  void-Keeps : {A : Type 0} (m : M A) → Keeps P m → Keeps P (void m)
  void-Keeps m k c h = continue-Keeps P (m c) _ (k c h) (λ _ d l. l)

  perform-Keeps : (call : Call) → Keeps P (perform env enc fmts call)
  unfolding perform
  perform-Keeps (connects dial is_local) = connect-Keeps env P inv dial is_local
  perform-Keeps closes = close-Keeps env P inv
  perform-Keeps (gets_symbol name) =
      void-Keeps (get_symbol env name) (get_symbol-Keeps P env inv name)
  perform-Keeps (reads name) =
      void-Keeps (read_from_symbol env enc fmts name)
        (read_from_symbol-Keeps P env inv enc fmts name)
  perform-Keeps (writes name value) = write_to_symbol-Keeps P env inv fmts name value
  perform-Keeps (watches name channel) = add_symbol_notification-Keeps P env inv name channel
  perform-Keeps (notifies bytes) =
      void-Keeps (notified env enc fmts bytes) (notified-Keeps P env inv enc fmts bytes)

  run-Keeps : (calls : List Call) (c : Conn) → P c.store → P (run env enc fmts calls c).store
  run-Keeps [] c h = h
  run-Keeps (call ∷ more) c h =
      run-Keeps more (perform env enc fmts call c).1 (perform-Keeps call c h)

module _ (env : Env) (enc : Encoder) (fmts : Formats) where
  abbrev store_of : Result Conn → List Symbol
  store_of (ok d) = d.store
  store_of _ = []

  nothing_at : {P : Type 0} → (q : ℕ) (x : Symbol) → symbol_at q [] ≡ some x → P
  nothing_at q x at = cc

  new_connection-IsSound :
      (ip : Text) (port : ℕ) (t s : Result NetId) (ams_port local_port : ℕ) (c : Conn)
      → between ip port t s ams_port local_port ≡ ok c
      → IsSound c
  new_connection-IsSound ip port (ok t) (ok s) ams_port local_port c e =
      let none_yet : c.store ≡ [] = sym (ap store_of e) in
      (
        λ r p x at up. nothing_at r x (rw none_yet at at),
        λ q p x at up marked t t_at. nothing_at q x (rw none_yet at at),
      )
  new_connection-IsSound ip port (ok t) (err x) ams_port local_port c e = cc
  new_connection-IsSound ip port (ok t) panic ams_port local_port c e = cc
  new_connection-IsSound ip port (err x) s ams_port local_port c e = cc
  new_connection-IsSound ip port panic s ams_port local_port c e = cc

  -- In every state that a connection from NewConnection reaches by any sequence of Connect, Close,
  -- GetSymbol, ReadFromSymbol, WriteToSymbol, AddSymbolNotification and notifications, whatever the
  -- controller sends and whatever these calls return, each parent stands before its children in the
  -- store, and the parent of every changed symbol is changed.
  pub new_connection-run :
      (ip : Text) (port : ℕ) (net_id : Text) (ams_port : ℕ) (local_id : Text) (local_port : ℕ)
      (calls : List Call) (c : Conn)
      → new_connection ip port net_id ams_port local_id local_port ≡ ok c
      → IsSound (run env enc fmts calls c)
  unfolding new_connection
  new_connection-run ip port net_id ams_port local_id local_port calls c e =
      run-Keeps env enc fmts AreSound (AreSound-Invariant env) calls c (
        new_connection-IsSound ip port (string_to_net_id net_id) (string_to_net_id local_id)
          ams_port local_port c e)

  -- In every run of Connect, Close, GetSymbol, ReadFromSymbol, WriteToSymbol, AddSymbolNotification
  -- and notifications, from any state, whatever the controller sends and whatever these calls
  -- return, each symbol of the store stays at its place, its names, data type, comment, group,
  -- offset, length, parent and minimal interval stay as they are, and a symbol that was marked as
  -- changed is never unmarked.
  pub run-core :
      (calls : List Call) (c : Conn) (q : ℕ) (s : Symbol)
      → symbol_at q c.store ≡ some s
      → (t : Symbol) × (symbol_at q (run env enc fmts calls c).store ≡ some t)
        × (calm (core t) ≡ calm (core s))
        × ((s.changed && not t.changed) ≡ false)
  run-core calls c q s at =
      let (t, t_at, same, mark) =
        run-Keeps env enc fmts (Grown c.store) (Grown-Invariant env c.store) calls c
          (Grown-refl c.store) q s at in
      (t, t_at, same, unmarked s.changed t.changed mark)
    where
      unmarked : (a b : Bool) → (a ≡ true → b ≡ true) → (a && not b) ≡ false
      unmarked false b h = refl
      unmarked true b h = ap not (h refl)

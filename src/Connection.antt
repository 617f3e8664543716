-- ===== src/Connection.antt =====
-- connection.go: NewConnection, Connect and Close, and send of comm.go.
pub mod Sound
pub mod Loads
pub mod Closes
pub mod Keeps
pub mod Packets
pub mod Handles
pub mod Marks
pub mod Invariant
pub mod Uploads
pub mod Startup
pub mod Runs
use go_adstc.Prelude.{ℕ, suc, ◌%◌, ◌^◌, Bool, true, false, ltb, ◌==◌, if◌then◌else◌}
use go_adstc.Prelude.{List, [], ◌∷◌, ◌++◌, Option, none, some}
use go_adstc.Go.Result.{Result, ok, err, panic, aborted, dial_failed}
use go_adstc.Go.Bytes.{to_le, codes}
use go_adstc.Go.Strconv.{format_uint}
use go_adstc.Go.Binary.{Layout, read_over}
use go_adstc.Defs.Group.{group_number, symbol_release_handle}
use go_adstc.Ams.{NetId, AmsAddress, address_of}
use go_adstc.Ams.Dotted.{string_to_net_id}
use go_adstc.Symbol.{Text, Symbol}
use go_adstc.Symbol.Upload.{parse_data_types}
use go_adstc.Conn.{Env, Conn, M, ◌>>=◌, ◌>>◌, pure, fail, lift, gets, modify, next_id}
use go_adstc.Command.{write, delete_device_notification}
use go_adstc.SymbolTable.{Types, References, parse_symbols}
use go_adstc.Value.Update.{deref, ignored}
use go_adstc.Client.{UploadInfo, info_of, get_symbol_upload_info, get_upload_symbol_info_symbols}
use go_adstc.Client.{get_upload_symbol_info_data_types}

-- The maps of a new connection are empty; its port numbers are cut to 16 bits.
abbrev pub unconnected : Text → ℕ → AmsAddress → AmsAddress → Conn
unconnected ip port target source = record {
  target = target;
  source = source;
  store = [];
  symbols = [];
  active_notifications = [];
  datatypes = [];
  current_request = 0;
  active_requests = [];
  sent = [];
  clock_reads = 0;
  ip = ip;
  port = port;
  connected = false;
  shut_down = false;
}

abbrev pub between : Text → ℕ → Result NetId → Result NetId → ℕ → ℕ → Result Conn
between ip port (ok t) (ok s) ams_port local_port = ok (
    unconnected ip port (record { net_id = t; port = ams_port % 2 ^ 16 })
      (record { net_id = s; port = local_port % 2 ^ 16 }))
between ip port (ok t) _ ams_port local_port = panic
between ip port _ _ ams_port local_port = panic

-- stringToNetID returns no error; it may panic.
unfoldable pub new_connection : Text → ℕ → Text → ℕ → Text → ℕ → Result Conn
new_connection ip port net_id ams_port local_id local_port =
    between ip port (string_to_net_id net_id) (string_to_net_id local_id) ams_port local_port

abbrev pub local_net_id : NetId
local_net_id = record { b0 = 127; b1 = 0; b2 = 0; b3 = 1; b4 = 1; b5 = 1 }

-- The question for the address of this client.
abbrev pub address_request : List ℕ
address_request = 0 ∷ 16 ∷ 2 ∷ 0 ∷ 0 ∷ 0 ∷ 0 ∷ 0 ∷ []

abbrev pub address_layout : Layout
address_layout = 1 ∷ 1 ∷ 1 ∷ 1 ∷ 1 ∷ 1 ∷ 2 ∷ []

abbrev pub group_release_handle : ℕ
group_release_handle = group_number symbol_release_handle

-- A call whose error is only logged, and whose result is then `a`.
abbrev pub or_else : {A : Type 0} → A → Result A × Conn → Result A × Conn
or_else a (ok b, c) = (ok b, c)
or_else a (err e, c) = (ok a, c)
or_else a (panic, c) = (panic, c)

abbrev pub zero_address : AmsAddress
zero_address = address_of [] 0

-- The fuel of the parsers does not run out.
abbrev pub or_none : {A : Type 0} → List A → Option (List A) → List A
or_none old none = old
or_none old (some new) = new

module _ (env : Env) where
  -- The second select of send.
  unfoldable pub await_system : M (List ℕ)
  await_system c = elim (env.reply c.sent) [ none ↦ (err aborted, c) | some r ↦ (ok r, c) ]

  -- send: the invoke id is counted and not used, and no request is entered.
  unfoldable pub send : List ℕ → M (List ℕ)
  unfolding await_system
  send bytes c =
      if env.accepts c.sent
      then await_system (record c { current_request = next_id c; sent = c.sent ++ (bytes ∷ []) })
      else (ok [], record c { current_request = next_id c })

  -- The local address of the router, zero when the answer is too short.
  unfoldable pub ask_address : M (Unit {0})
  ask_address = do
    resp ← (λ c. or_else [] (send address_request c))
    let (address, rest) = read_over address_layout (λ vs. address_of vs 0) zero_address resp
    modify (λ c. record c { source = address })

  -- What Connect does once the workers run.
  unfoldable pub load : M (Unit {0})
  load = do
    info ← (λ c. or_else (info_of []) (get_symbol_upload_info env c))
    type_bytes ← (λ c. or_else [] (get_upload_symbol_info_data_types env info.data_type_length c))
    modify (λ c. record c { datatypes = or_none [] (parse_data_types type_bytes) })
    symbol_bytes ← (λ c. or_else [] (get_upload_symbol_info_symbols env info.symbol_length c))
    types ← gets (λ c. c.datatypes)
    symbols ← parse_symbols env types symbol_bytes
    modify (λ c. record c { symbols = or_none [] symbols })

  abbrev pub to_local : Conn → Conn
  to_local c = record c {
    target = record c.target { net_id = local_net_id };
    ip = codes "127.0.0.1";
  }

  -- fmt.Sprintf("%s:%d", conn.ip, conn.port)
  abbrev pub dial_address : Conn → Text
  dial_address c = c.ip ++ (b':' ∷ format_uint c.port)

  unfoldable pub start_up : Bool → Bool → M (Unit {0})
  start_up false is_local = fail dial_failed
  start_up true false = load
  start_up true true = do ask_address; load

  -- Connect, where `dial` says whether net.Dial succeeds at an address.
  unfoldable pub connect : (Text → Bool) → Bool → M (Unit {0})
  connect dial is_local = do
    modify (λ c. if is_local then to_local c else c)
    address ← gets dial_address
    modify (λ c. record c { connected = dial address })
    start_up (dial address) is_local

  -- The first loop of Close, over the handles of the map.
  unfoldable pub delete_all : List (ℕ × ℕ) → M (Unit {0})
  delete_all [] = pure tt
  delete_all ((handle, r) ∷ more) = do
    (λ c. ignored (delete_device_notification env handle c))
    delete_all more

  unfoldable pub release : Symbol → M (Unit {0})
  release s =
      if s.handle == 0
      then pure tt
      else (λ c. ignored (write env group_release_handle 0 (to_le 4 s.handle) c))

  -- The second loop, over the symbols.
  unfoldable pub release_all : References → M (Unit {0})
  release_all [] = pure tt
  release_all ((name, r) ∷ more) = do s ← deref r; release s; release_all more

  -- conn.connection.Close(): without a connection that is a nil dereference.
  abbrev pub close_socket : Bool → M (Unit {0})
  close_socket true c = (ok tt, c)
  close_socket false c = (panic, c)

  -- The end of Close. The shutdown is seen in conn.ctx; the wait for the workers changes nothing.
  unfoldable pub hang_up : M (Unit {0})
  hang_up c = close_socket c.connected (record c { shut_down = true })

  -- Close
  unfoldable pub close : M (Unit {0})
  close = do
    handles ← gets (λ c. c.active_notifications)
    delete_all handles
    symbols ← gets (λ c. c.symbols)
    release_all symbols
    hang_up

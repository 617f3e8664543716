-- ===== src/Tests/Connections.antt =====
-- A connection from its first upload to its close, against scripted controllers.
use go_adstc.Prelude.{ℕ, ◌≡◌, refl, arith, List, [], ◌∷◌, ◌++◌, some}
use go_adstc.Prelude.{true, false, All, if◌then◌else◌, ◌==◌, length}
use go_adstc.Go.Result.{ok}
use go_adstc.Go.Bytes.{codes, of_le}
use go_adstc.Defs.Device.{port_number, r0_plc_tc3}
use go_adstc.Go.Binary.{pack}
use go_adstc.Go.Strconv.{text_eq, format_int}
use go_adstc.Symbol.{lookup}
use go_adstc.Symbol.Upload.RoundTrip.{types_bytes}
use go_adstc.Conn.{Env, Conn}
use go_adstc.Command.{response_layout}
use go_adstc.Value.{parse_leaf, kind_of, parse_known, parse_kind}
use go_adstc.Value.Update.Publish.{taken}
use go_adstc.Notification.Handle.{handle_notification}
use go_adstc.Notification.Stale.{offer_of, handle_notification-taken}
use go_adstc.SymbolTable.Written.{symbols_bytes}
use go_adstc.SymbolTable.Total.{IsFound}
use go_adstc.Client.{info_layout, read_from_symbol}
use go_adstc.Symbol.Store.{with_handle}
use go_adstc.Client.Watch.{info_values}
use go_adstc.Client.{write_to_symbol}
use go_adstc.Client.Memory.{told, write_to_symbol-read_from_symbol}
use go_adstc.Value.{int}
use go_adstc.Value.RoundTrip.{canonical}
use go_adstc.Client.Reads.{read_from_symbol-taken}
use go_adstc.Connection.{connect, close, close_socket, new_connection, unconnected}
use go_adstc.Connection.Runs.{
  Call, connects, closes, reads, writes, watches, notifies, run, new_connection-run,
}
use go_adstc.Value.Update.Changed.{IsSound, calm}
use go_adstc.Value.Update.{with_changed}
use go_adstc.Connection.Invariant.{core}
use go_adstc.Symbol.{Symbol}
use go_adstc.Symbol.Store.{symbol_at}
use go_adstc.Prelude.{◌&&◌, not}
use go_adstc.Connection.Runs.{run-core}
use go_adstc.Ams.Dotted.{string_to_net_id}
use go_adstc.Go.Strconv.{parse_uint}
use go_adstc.Connection.Loads.{connect_loads}
use go_adstc.Connection.Closes.{deletions, releases, close_gives_back}
use go_adstc.Connection.Packets.{packets}
use go_adstc.Tests.Symbols.{point, point-IsEntry, member-IsEntry}
use go_adstc.Tests.Clients.{client, main_x, has_main_x, no_floats, sizes, accepted_text}
use go_adstc.Tests.Tables.{types, uploaded, rank, ranked, written, shallow, plain, client-IsSound}

-- The client whose symbol is known under the notification handle 33.
abbrev watching : Conn
watching = record (client 17) { active_notifications = (33, 0) ∷ [] }

-- The clock stands still at a second.
abbrev one_second : Env
one_second = record {
  accepts = λ _. true;
  reply = λ _. some (pack response_layout (0 ∷ 2 ∷ []) ++ (7 ∷ 0 ∷ []));
  clock = λ _. 1000000000;
}

seven : parse_leaf no_floats (codes "INT") 2 (7 ∷ 0 ∷ []) 0 ≡ ok (some (codes "7"))
unfolding parse_leaf parse_known parse_kind kind_of lookup text_eq format_int of_le
seven = refl

handle_notification-taken_example :
    (handle_notification one_second plain no_floats
      (record { handle = 33; timestamp = 133000000000000000; content = 7 ∷ 0 ∷ [] })
      watching).0
    ≡ ok (
        offer_of
          (with_handle 17 main_x)
          (taken (with_handle 17 main_x) (codes "7") 1000000000)
          133000000000000000
        ∷ [])
handle_notification-taken_example =
    handle_notification-taken one_second plain no_floats
      (record { handle = 33; timestamp = 133000000000000000; content = 7 ∷ 0 ∷ [] }) 0 (codes "7")
      (with_handle 17 main_x) watching refl refl refl client-IsSound seven

read_from_symbol-taken_example :
    (read_from_symbol one_second plain no_floats (codes "Main.x") (client 17)).0
    ≡ ok (taken (with_handle 17 main_x) (codes "7") 1000000000)
read_from_symbol-taken_example =
    read_from_symbol-taken one_second plain no_floats (codes "Main.x") 0 (with_handle 17 main_x)
      (client 17) (has_main_x 17) refl (omega arith) 2 (7 ∷ 0 ∷ []) (codes "7") refl refl
      client-IsSound (omega arith) refl refl seven

-- What the controller answers to the first, the second and the third request.
abbrev script : ℕ → List ℕ
script n =
    if n == 1
    then pack info_layout (info_values sizes)
    else if n == 2
    then types_bytes (point ∷ [])
    else symbols_bytes uploaded

abbrev scripted : Env
scripted = record {
  accepts = λ _. true;
  reply = λ sent. some (pack response_layout (0 ∷ 0 ∷ []) ++ script (length sent));
  clock = λ n. n;
}

abbrev empty_client : Conn
empty_client = record (client 17) { store = []; symbols = [] }

connect_loads_example :
    (d : Conn) × (connect scripted (λ _. true) false empty_client ≡ (ok tt, d))
    × (d.datatypes ≡ types)
    × All (IsFound scripted rank types ranked d.symbols) uploaded
connect_loads_example =
    connect_loads scripted (λ _. refl) empty_client sizes (point ∷ []) uploaded rank (λ _. true)
      refl refl refl refl
      (omega arith, (omega arith, (omega arith, (omega arith, (omega arith, (omega arith, tt))))))
      ((point-IsEntry, (refl, tt), (refl, (member-IsEntry, tt, tt), tt)), tt) ranked written shallow

abbrev agreeing : Env
agreeing = record {
  accepts = λ _. true;
  reply = λ _. some (pack (4 ∷ []) (0 ∷ []) ++ []);
  clock = λ n. n;
}

close_gives_back_example :
    (d : Conn) × (close agreeing watching ≡ close_socket agreeing watching.connected d)
    × (d.shut_down ≡ true)
    × (d.active_notifications ≡ [])
    × (d.sent
        ≡ watching.sent
          ++ packets watching.target watching.source watching.current_request
              (deletions watching.active_notifications ++ releases watching.store watching.symbols))
close_gives_back_example =
    close_gives_back agreeing (λ _. refl) (λ _. refl) watching (((with_handle 17 main_x), refl), tt)

-- The controller of the symbol with handle 17: it takes over two bytes, and then gives them back.
abbrev memory : Env
memory = record {
  accepts = λ _. true;
  reply = λ sent. some (
      if length sent == 1
      then pack (4 ∷ []) (0 ∷ []) ++ []
      else pack response_layout (0 ∷ 2 ∷ []) ++ (2 ∷ 1 ∷ []));
  clock = λ _. 1000000000;
}

int_known : kind_of (codes "INT") ≡ some int
unfolding kind_of lookup text_eq
int_known = refl

write_to_symbol-read_from_symbol_example :
    (write_to_symbol memory no_floats (codes "Main.x") (codes "258") (client 17) ≡ (
      ok tt,
      told memory no_floats (codes "Main.x") 0 (with_handle 17 main_x) (client 17) (2 ∷ 1 ∷ []),
    ))
    × ((read_from_symbol memory plain no_floats (codes "Main.x") (
          told memory no_floats
            (codes "Main.x")
            0
            (with_handle 17 main_x)
            (client 17)
            (2 ∷ 1 ∷ []))).0
        ≡ ok (canonical int (codes "258")))
write_to_symbol-read_from_symbol_example =
    write_to_symbol-read_from_symbol memory no_floats (codes "Main.x") 0 (with_handle 17 main_x)
      (client 17) plain int (codes "258") (2 ∷ 1 ∷ []) (has_main_x 17) refl (omega arith)
      (omega arith) refl client-IsSound int_known tt refl accepted_text (refl, refl, refl, refl)
      (omega arith) (omega arith)

abbrev fresh : Conn
fresh =
    unconnected (codes "5.0.0.1") 48898
      (record {
        net_id = record { b0 = 5; b1 = 0; b2 = 0; b3 = 1; b4 = 1; b5 = 1 };
        port = port_number r0_plc_tc3;
      })
      (record { net_id = record { b0 = 10; b1 = 0; b2 = 0; b3 = 7; b4 = 1; b5 = 1 }; port = 10500 })

fresh_new :
    new_connection
      (codes "5.0.0.1")
      48898
      (codes "5.0.0.1.1.1")
      (port_number r0_plc_tc3)
      (codes "10.0.0.7.1.1")
      10500
    ≡ ok fresh
unfolding new_connection string_to_net_id parse_uint
fresh_new = refl

abbrev day : List Call
day =
    connects (λ _. true) false
    ∷ writes (codes "Main.p.x") (codes "5")
    ∷ reads (codes "Main.p.x")
    ∷ watches (codes "Main.p") 3
    ∷ notifies (1 ∷ 2 ∷ 3 ∷ [])
    ∷ closes
    ∷ []

new_connection-run_example : IsSound (run scripted plain no_floats day fresh)
new_connection-run_example =
    new_connection-run scripted plain no_floats (codes "5.0.0.1") 48898 (codes "5.0.0.1.1.1")
      (port_number r0_plc_tc3) (codes "10.0.0.7.1.1") 10500 day fresh fresh_new

-- The symbol of the client, after it has changed.
abbrev changed_x : Symbol
changed_x = with_changed (with_handle 17 main_x)

abbrev changed_client : Conn
changed_client = record (client 17) { store = changed_x ∷ [] }

run-core_example :
    (t : Symbol) × (symbol_at 0 (run scripted plain no_floats day changed_client).store ≡ some t)
    × (calm (core t) ≡ calm (core changed_x))
    × ((true && not t.changed) ≡ false)
run-core_example = run-core scripted plain no_floats day changed_client 0 changed_x refl

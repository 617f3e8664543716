-- ===== src/Tests/Clients.antt =====
-- A client with one symbol, Main.x of type INT, against a scripted controller.
use go_adstc.Prelude.{ℕ, ◌≡◌, refl, arith, true, false, List, [], ◌∷◌, ◌++◌, none, some}
use go_adstc.Go.Result.{ok, err, panic, ads_error, syntax}
use go_adstc.Go.Bytes.{codes, to_le}
use go_adstc.Go.Binary.{pack}
use go_adstc.Ams.{AmsAddress, command_write}
use go_adstc.Go.Strconv.{text_eq, includes, parse_uint, parse_int, check_sign}
use go_adstc.Symbol.Store.{with_handle}
use go_adstc.Symbol.{Symbol, lookup}
use go_adstc.Conn.{Env, Conn, registered}
use go_adstc.Command.{response_layout}
use go_adstc.Command.Replies.{posted, write_payload}
use go_adstc.Value.{Formats, write_to_node, write_type, write_known, write_kind, kind_of}
use go_adstc.Client.{group_value_by_handle, UploadInfo}
use go_adstc.Client.{get_symbol, write_to_symbol}
use go_adstc.Client.Handles.{
  fetched, get_symbol_once, write_to_symbol-sends, write_to_symbol-unsent,
}

abbrev pub main_x : Symbol
main_x = record {
  full_name = codes "Main.x";
  last_update_time = 0;
  min_update_interval = 50000000;
  name = codes "Main.x";
  data_type = codes "INT";
  comment = [];
  handle = 0;
  group = 16448;
  offset = 0;
  length = 2;
  changed = false;
  value = [];
  valid = false;
  notification = none;
  parent = none;
  childs = [];
}

abbrev home : AmsAddress
home = record { net_id = record { b0 = 127; b1 = 0; b2 = 0; b3 = 1; b4 = 1; b5 = 1 }; port = 851 }

-- A connection whose symbol has this handle.
abbrev pub client : ℕ → Conn
client h = record {
  target = home;
  source = home;
  store = with_handle h main_x ∷ [];
  symbols = (codes "Main.x", 0) ∷ [];
  active_notifications = [];
  datatypes = [];
  current_request = 0;
  active_requests = [];
  sent = [];
  clock_reads = 0;
  ip = codes "5.0.0.1";
  port = 48898;
  connected = true;
  shut_down = false;
}

abbrev pub replying : List ℕ → Env
replying resp = record { accepts = λ _. true; reply = λ _. some resp; clock = λ n. n }

abbrev pub silent : Env
silent = record { accepts = λ _. false; reply = λ _. none; clock = λ n. n }

abbrev pub no_floats : Formats
no_floats = record {
  float32 = λ _. [];
  float64 = λ _. [];
  parse_float32 = λ _. err syntax;
  parse_float64 = λ _. err syntax;
  local_time = λ _ _. [];
}

pub has_main_x : (h : ℕ) → lookup (codes "Main.x") (client h).symbols ≡ some 0
unfolding lookup text_eq
has_main_x h = refl

-- 258 as an INT
pub accepted_text : write_to_node no_floats [] false (codes "INT") 2 (codes "258") ≡ ok (2 ∷ 1 ∷ [])
unfolding write_to_node write_type write_known write_kind kind_of lookup to_le includes text_eq
    parse_int check_sign parse_uint
accepted_text = refl

get_symbol_once_example :
    (get_symbol
        (replying (pack response_layout (0 ∷ 4 ∷ []) ++ to_le 4 17))
        (codes "Main.x")
        (client 0)
      ≡ (ok 0, fetched (codes "Main.x") 0 17 (client 0)))
    × (get_symbol
          (replying (pack response_layout (0 ∷ 4 ∷ []) ++ to_le 4 17))
          (codes "Main.x")
          (fetched (codes "Main.x") 0 17 (client 0))
        ≡ (ok 0, fetched (codes "Main.x") 0 17 (client 0)))
get_symbol_once_example =
    get_symbol_once (replying (pack response_layout (0 ∷ 4 ∷ []) ++ to_le 4 17)) (codes "Main.x") 0
      main_x (client 0) 17 4 (has_main_x 0) refl refl (omega arith) (omega arith) (omega arith) refl
      refl

write_to_symbol-sends_example :
    write_to_symbol
      (replying (pack (4 ∷ []) (0x704 ∷ []) ++ []))
      no_floats
      (codes "Main.x")
      (codes "258")
      (client 17)
    ≡ (
      err (ads_error 0x704),
      posted command_write (write_payload group_value_by_handle 17 (2 ∷ 1 ∷ [])) (client 17),
    )
write_to_symbol-sends_example =
    write_to_symbol-sends (replying (pack (4 ∷ []) (0x704 ∷ []) ++ [])) no_floats (codes "Main.x")
      (codes "258") 0 (with_handle 17 main_x) (client 17) (2 ∷ 1 ∷ []) 0x704 [] (has_main_x 17) refl
      (omega arith) accepted_text (omega arith) refl refl

write_to_symbol-unsent_example :
    write_to_symbol silent no_floats (codes "Main.x") (codes "258") (client 0)
    ≡ (panic, registered (client 0))
write_to_symbol-unsent_example =
    write_to_symbol-unsent silent no_floats (codes "Main.x") (codes "258") 0 main_x (client 0)
      (has_main_x 0) refl refl refl

abbrev notified : Env
notified = replying (pack response_layout (0 ∷ 33 ∷ []) ++ [])

abbrev pub sizes : UploadInfo
sizes = record {
  symbol_count = 1;
  symbol_length = 60;
  data_type_count = 2;
  data_type_length = 150;
  extra_count = 0;
  extra_length = 0;
}

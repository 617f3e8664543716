-- ===== src/Tests/Commands.antt =====
-- Runs of the commands against a scripted PLC.
use go_adstc.Go.Bytes.{codes}
use go_adstc.Prelude.{ℕ, ◌≡◌, refl, true, false, List, [], ◌∷◌, ◌++◌, none, some}
use go_adstc.Go.Result.{ok, err, eof, wrong_length}
use go_adstc.Go.Binary.{pack}
use go_adstc.Ams.{AmsAddress}
use go_adstc.Conn.{Env, Conn, registered}
use go_adstc.Command.Codes.{answered_outcomes}
use go_adstc.Defs.ReturnCode.{return_code_number, device_busy}
use go_adstc.Defs.Device.{state_number, run, offset_number, device_data_ads_state}
use go_adstc.Defs.Group.{group_number, device_data}
use go_adstc.Command.{response_layout}
use go_adstc.Go.Result.{ads_error, notification_refused}
use go_adstc.Prelude.{arith}
use go_adstc.Command.{
  response_layout, no_states, remove_handle, read, write, write_read, read_state,
}
use go_adstc.Command.{read_device_info, add_device_notification, delete_device_notification}
use go_adstc.Command.Replies.{unsent_outcomes}

abbrev some_address : AmsAddress
some_address = record {
  net_id = record { b0 = 127; b1 = 0; b2 = 0; b3 = 1; b4 = 1; b5 = 1 };
  port = 851;
}

abbrev fresh : Conn
fresh = record {
  target = some_address;
  source = some_address;
  store = [];
  symbols = [];
  active_notifications = (5, 0) ∷ [];
  datatypes = [];
  current_request = 0;
  active_requests = [];
  sent = [];
  clock_reads = 0;
  ip = codes "5.0.0.1";
  port = 48898;
  connected = true;
  shut_down = false;
}

-- A PLC that gives this payload to every request.
abbrev answering : List ℕ → Env
answering resp = record { accepts = λ _. true; reply = λ _. some resp; clock = λ n. n }

-- The context of every request is done before its packet is taken.
abbrev cut_off : Env
cut_off = record { accepts = λ _. false; reply = λ _. none; clock = λ n. n }

-- A context that is done at once.
unsent_outcomes_example :
    (read cut_off 1 2 3 fresh ≡ (err eof, registered fresh))
    × (write cut_off 1 2 (6 ∷ []) fresh ≡ (ok tt, registered fresh))
    × (write_read cut_off 1 2 3 (6 ∷ []) fresh ≡ (ok [], registered fresh))
    × (read_state cut_off fresh ≡ (ok no_states, registered fresh))
    × (read_device_info cut_off fresh ≡ (err (wrong_length 0), registered fresh))
    × (add_device_notification cut_off 1 2 3 4 5 6 fresh ≡ (err eof, registered fresh))
    × (delete_device_notification cut_off 4 fresh ≡ (
      ok tt,
      record (registered fresh) {
        active_notifications = remove_handle 4 fresh.active_notifications;
      },
    ))
unsent_outcomes_example = unsent_outcomes cut_off fresh 1 2 3 4 4 5 6 (6 ∷ []) refl

-- A controller that is running and busy.
abbrev busy : Env
busy =
    answering (
      pack response_layout (return_code_number device_busy ∷ state_number run ∷ []) ++ (1 ∷ 2 ∷ []))

answered_outcomes_example :
    ((read busy (group_number device_data) (offset_number device_data_ads_state) 2 fresh).0
      ≡ err (ads_error 0x708))
    × ((write busy
          (group_number device_data)
          (offset_number device_data_ads_state)
          (1 ∷ 2 ∷ [])
          fresh).0
        ≡ err (ads_error 0x708))
    × ((write_read busy
          (group_number device_data)
          (offset_number device_data_ads_state)
          2
          (1 ∷ 2 ∷ [])
          fresh).0
        ≡ err (ads_error 0x708))
    × ((add_device_notification busy
          (group_number device_data)
          (offset_number device_data_ads_state)
          2
          4
          0
          0
          fresh).0
        ≡ err notification_refused)
    × ((delete_device_notification busy 33 fresh).0 ≡ err (ads_error 0x708))
    × ((read_state busy fresh).0 ≡ ok (record { ads_state = 5; device_state = 0 }))
answered_outcomes_example =
    answered_outcomes busy fresh (group_number device_data) (offset_number device_data_ads_state) 2
      33 4 0 0 (1 ∷ 2 ∷ []) (return_code_number device_busy) (state_number run) 0 (1 ∷ 2 ∷ []) refl
      (λ _. refl) (omega arith) (omega arith) (omega arith)

-- ===== src/Client/Watch.antt =====
-- Notifications of symbols, and the sizes of the uploads.
use go_adstc.Prelude.{ℕ, ◌^◌, ◌<◌, ◌≡◌, arith, true}
use go_adstc.Prelude.{List, [], ◌∷◌, ◌++◌, replicate, some}
use go_adstc.Go.Result.{ok}
use go_adstc.Go.Binary.{pack, Fits, read_over-pack}
use go_adstc.Ams.{command_add_device_notification, command_read}
use go_adstc.Symbol.Store.{change_at, with_receiver}
use go_adstc.Symbol.{Symbol}
use go_adstc.Conn.{Env, Conn, next_packet}
use go_adstc.Command.{add_notification_layout, response_layout}
use go_adstc.Command.Replies.{posted, read_payload, read-reply}
use go_adstc.Client.{group_value_by_handle, group_upload_info, on_change, info_layout, info_of}
use go_adstc.Client.{UploadInfo, put_handle}
use go_adstc.Client.{get_symbol_upload_info}

-- What AddDeviceNotification sends for a symbol: on change, with both delays 100 ms, in units of
-- 100 ns.
abbrev pub watch_payload : Symbol → List ℕ
watch_payload s =
    pack add_notification_layout
      (group_value_by_handle ∷ s.handle ∷ s.length ∷ on_change ∷ 1000000 ∷ 1000000 ∷ replicate 16 0)

abbrev pub watched : ℕ → ℕ → ℕ → Symbol → Conn → Conn
watched channel r h s c =
    let asked = posted command_add_device_notification (watch_payload s) c in
    record asked {
      store = change_at r (with_receiver channel) asked.store;
      active_notifications = put_handle h r asked.active_notifications;
    }

abbrev pub info_values : UploadInfo → List ℕ
info_values i =
    i.symbol_count ∷ i.symbol_length ∷ i.data_type_count ∷ i.data_type_length ∷ i.extra_count
    ∷ i.extra_length ∷ []

-- GetSymbolUploadInfo returns the six numbers that the controller writes behind a response without
-- error, whatever follows them.
pub get_symbol_upload_info-pack :
    (env : Env) (c : Conn) (info : UploadInfo) (n : ℕ) (rest : List ℕ)
    → Fits info_layout (info_values info)
    → n < 2 ^ 32
    → env.accepts c.sent ≡ true
    → env.reply (c.sent ++ (next_packet command_read (read_payload group_upload_info 0 24) c ∷ []))
      ≡ some (pack response_layout (0 ∷ n ∷ []) ++ (pack info_layout (info_values info) ++ rest))
    → get_symbol_upload_info env c
      ≡ (ok info, posted command_read (read_payload group_upload_info 0 24) c)
unfolding get_symbol_upload_info
get_symbol_upload_info-pack env c info n rest fits nb a reply =
    rw
      (read-reply env group_upload_info 0 24 c 0 n (pack info_layout (info_values info) ++ rest)
        (omega arith) nb a reply)
      (rw (read_over-pack info_layout info_of (info_of []) (info_values info) rest fits))

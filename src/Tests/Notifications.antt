-- ===== src/Tests/Notifications.antt =====
-- A notification with one stamp and two samples.
use go_adstc.Prelude.{ℕ, ◌+◌, ◌*◌, ◌≤◌, ◌<◌, ◌≡◌, arith, List, [], ◌∷◌, ◌++◌, length}
use go_adstc.Go.Result.{ok}
use go_adstc.Go.Int.{pos}
use go_adstc.Notification.{device_notification, notification_time, windows_tick}
use go_adstc.Notification.{sec_to_unix_epoch}
use go_adstc.Notification.Stream.{Stamp, stream_bytes, stamp_events}
use go_adstc.Notification.Stream.{device_notification-stream_bytes, device_notification_bound}
use go_adstc.Notification.Clock.{notification_time_lem}

abbrev stamps : List Stamp
stamps =
    record { timestamp = 133000000000000000; samples = (7, 1 ∷ 2 ∷ []) ∷ (8, 3 ∷ []) ∷ [] } ∷ []

device_notification-stream_bytes_example :
    device_notification (stream_bytes 31 stamps ++ []) ≡ ok (stamp_events stamps)
device_notification-stream_bytes_example =
    device_notification-stream_bytes 31 stamps [] (omega arith) (omega arith) (
      (omega arith, omega arith, ((omega arith, omega arith), ((omega arith, omega arith), tt))),
      tt,
    )

device_notification_bound_example :
    8 * length (stamp_events stamps) ≤ length (stream_bytes 31 stamps ++ [])
device_notification_bound_example =
    device_notification_bound (stream_bytes 31 stamps ++ []) (stamp_events stamps)
      device_notification-stream_bytes_example

-- 1 January 2024.
notification_time_example :
    (s : ℕ) × (n : ℕ) × (notification_time 133485408000000000 ≡ (pos s, pos (n * 100)))
    × (n < windows_tick)
    × ((s + sec_to_unix_epoch) * windows_tick + n ≡ 133485408000000000)
notification_time_example = notification_time_lem 133485408000000000 (omega arith) (omega arith)

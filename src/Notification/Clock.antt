-- ===== src/Notification/Clock.antt =====
-- The time of a notification: 100 ns ticks since 1601 as seconds and nanoseconds since 1970.
use go_adstc.Prelude.{ℕ, ◌+◌, ◌-◌, ◌*◌, ◌/◌, ◌%◌, ◌^◌, ◌≤◌, ◌<◌, ◌≡◌, arith}
use go_adstc.Go.Int.{pos}
use go_adstc.Notification.{windows_tick, sec_to_unix_epoch, notification_time}

-- A time stamp from 1970 on and below 2^63 gives non-negative seconds and nanoseconds, the
-- nanoseconds are a multiple of 100 below one second, and both together are the time stamp exactly.
pub notification_time_lem :
    (t : ℕ)
    → sec_to_unix_epoch * windows_tick ≤ t
    → t < 2 ^ 63
    → (s : ℕ) × (n : ℕ) × (notification_time t ≡ (pos s, pos (n * 100)))
      × (n < windows_tick)
      × ((s + sec_to_unix_epoch) * windows_tick + n ≡ t)
unfolding notification_time
notification_time_lem t lo hi =
    (t / windows_tick - sec_to_unix_epoch, t % windows_tick, ground arith, omega arith, omega arith)

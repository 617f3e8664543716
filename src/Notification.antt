-- ===== src/Notification.antt =====
-- commandDeviceNotification.go: the samples of a notification, and their time stamps.
pub mod Stream
pub mod Clock
pub mod Handle
pub mod Stale
use go_adstc.Prelude.{ℕ, zero, suc, ◌+◌, ◌*◌, ◌^◌, List, [], ◌∷◌, ◌++◌}
use go_adstc.Go.Result.{Result, ok, err, panic}
use go_adstc.Go.Binary.{Layout, field, read_struct, read_over, read_padded}
use go_adstc.Go.Int.{ℤ, signed, quot, rem, minus, times}

pub record NotificationStream : Type 0 where
  pub length : ℕ
  pub stamps : ℕ

pub record StampHeader : Type 0 where
  pub timestamp : ℕ
  pub samples : ℕ

pub record NotificationSample : Type 0 where
  pub handle : ℕ
  pub size : ℕ

abbrev pub stream_layout : Layout
stream_layout = 4 ∷ 4 ∷ []

abbrev pub stamp_layout : Layout
stamp_layout = 8 ∷ 4 ∷ []

abbrev pub sample_layout : Layout
sample_layout = 4 ∷ 4 ∷ []

abbrev pub stream_of : List ℕ → NotificationStream
stream_of vs = record { length = field vs 0; stamps = field vs 1 }

abbrev pub stamp_of : List ℕ → StampHeader
stamp_of vs = record { timestamp = field vs 0; samples = field vs 1 }

abbrev pub sample_of : List ℕ → NotificationSample
sample_of vs = record { handle = field vs 0; size = field vs 1 }

-- A call conn.handleNotification(ctx, handle, timestamp, content).
pub record Event : Type 0 where
  pub handle : ℕ
  pub timestamp : ℕ
  pub content : List ℕ

-- One round of the inner loop, on what binary.Read of the sample gave; `more` is what follows.
unfoldable pub after_sample :
    ℕ → (List ℕ → List Event × List ℕ) → Result NotificationSample × List ℕ → List Event × List ℕ
after_sample timestamp more (ok s, rest) =
    let (content, behind) = read_padded s.size rest in
    let (events, left) = more behind in
    (record { handle = s.handle; timestamp = timestamp; content = content } ∷ events, left)
after_sample timestamp more (err e, rest) = ([], rest)
after_sample timestamp more (panic, rest) = ([], rest)

-- The inner loop, for the samples that are left of a stamp: the calls, and the rest of the buffer.
-- A sample that cannot be read breaks the loop.
unfoldable pub sample_loop : ℕ → ℕ → List ℕ → List Event × List ℕ
sample_loop timestamp zero buf = ([], buf)
sample_loop timestamp (suc left) buf =
    after_sample timestamp (sample_loop timestamp left) (read_struct sample_layout sample_of buf)

-- The outer loop, for the stamps that are left. A header that cannot be read keeps its last value,
-- since the error is dropped.
unfoldable pub stamp_loop : ℕ → StampHeader → List ℕ → List Event
stamp_loop zero header buf = []
stamp_loop (suc left) header buf =
    let (h, rest) = read_over stamp_layout stamp_of header buf in
    let (events, behind) = sample_loop h.timestamp h.samples rest in
    events ++ stamp_loop left h behind

abbrev pub no_stamp : StampHeader
no_stamp = record { timestamp = 0; samples = 0 }

unfoldable pub after_stream : Result NotificationStream × List ℕ → Result (List Event)
after_stream (ok s, rest) = ok (stamp_loop s.stamps no_stamp rest)
after_stream (err e, rest) = err e
after_stream (panic, rest) = panic

-- DeviceNotification: the calls of handleNotification that it makes, in order.
unfoldable pub device_notification : List ℕ → Result (List Event)
device_notification bytes = after_stream (read_struct stream_layout stream_of bytes)

abbrev pub windows_tick : ℕ
windows_tick = 10000000

abbrev pub sec_to_unix_epoch : ℕ
sec_to_unix_epoch = 11644473600

-- The arguments of time.Unix: seconds, and nanoseconds. int64(timestamp) is negative from 2^63 on.
unfoldable pub notification_time : ℕ → ℤ × ℤ
unfolding quot rem minus times
notification_time timestamp =
    let t = signed (2 ^ 63) timestamp in
    (minus (quot t windows_tick) sec_to_unix_epoch, times (rem t windows_tick) 100)

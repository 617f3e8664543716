-- ===== src/Notification/Stream.antt =====
-- `device_notification` on the streams that a controller writes, and on any input.
use go_adstc.Prelude.{ℕ, zero, suc, ◌+◌, ◌*◌, ◌^◌, ◌≤◌, ◌<◌, ◌≡◌, refl, ap, ◌∙◌, arith, All}
use go_adstc.Prelude.{List, [], ◌∷◌, ◌++◌, length, length-append, length-drop, drop, append_assoc}
use go_adstc.Go.Result.{Result, ok, err, panic}
use go_adstc.Go.Binary.{pack, read_struct, read_over, read_padded, read_struct-pack}
use go_adstc.Go.Binary.{
  read_over-pack, read_padded-append, read_struct_takes, read_over_le, read_struct_le,
}
use go_adstc.Notification.{NotificationStream, StampHeader, NotificationSample, Event}
use go_adstc.Notification.{
  stream_layout, stamp_layout, sample_layout, stream_of, stamp_of, sample_of,
}
use go_adstc.Notification.{after_sample, sample_loop, stamp_loop, no_stamp, after_stream}
use go_adstc.Notification.{device_notification}

-- The samples of a stamp as the controller has them.
pub record Stamp : Type 0 where
  pub timestamp : ℕ
  pub samples : List (ℕ × List ℕ)

abbrev pub sample_bytes : List (ℕ × List ℕ) → List ℕ
sample_bytes [] = []
sample_bytes ((h, content) ∷ more) =
    pack sample_layout (h ∷ length content ∷ []) ++ (content ++ sample_bytes more)

abbrev pub stamp_bytes : List Stamp → List ℕ
stamp_bytes [] = []
stamp_bytes (s ∷ more) =
    pack stamp_layout (s.timestamp ∷ length s.samples ∷ [])
    ++ (sample_bytes s.samples ++ stamp_bytes more)

abbrev pub stream_bytes : ℕ → List Stamp → List ℕ
stream_bytes size stamps = pack stream_layout (size ∷ length stamps ∷ []) ++ stamp_bytes stamps

abbrev pub sample_events : ℕ → List (ℕ × List ℕ) → List Event
sample_events t [] = []
sample_events t ((h, content) ∷ more) =
    record { handle = h; timestamp = t; content = content } ∷ sample_events t more

abbrev pub stamp_events : List Stamp → List Event
stamp_events [] = []
stamp_events (s ∷ more) = sample_events s.timestamp s.samples ++ stamp_events more

abbrev pub SampleFits : ℕ × List ℕ → Type 0
SampleFits (h, content) = (h < 2 ^ 32) × (length content < 2 ^ 32)

abbrev pub StampFits : Stamp → Type 0
StampFits s = (s.timestamp < 2 ^ 64) × (length s.samples < 2 ^ 32) × All SampleFits s.samples

after_sample_ok :
    (t : ℕ) (more : List ℕ → List Event × List ℕ) (s : NotificationSample)
    (rest content behind left : List ℕ) (events : List Event)
    → read_padded s.size rest ≡ (content, behind)
    → more behind ≡ (events, left)
    → after_sample t more (ok s, rest)
      ≡ (record { handle = s.handle; timestamp = t; content = content } ∷ events, left)
unfolding after_sample
after_sample_ok t more s rest content behind left events e f = rw e (rw f)

sample_loop-bytes :
    (t : ℕ) (samples : List (ℕ × List ℕ)) (rest : List ℕ)
    → All SampleFits samples
    → sample_loop t (length samples) (sample_bytes samples ++ rest)
      ≡ (sample_events t samples, rest)
unfolding sample_loop
sample_loop-bytes t [] rest h = refl
sample_loop-bytes t ((i, content) ∷ more) rest h =
    let fields : List ℕ = i ∷ length content ∷ [] in
    let behind : List ℕ = sample_bytes more ++ rest in
    let sample : NotificationSample = record { handle = i; size = length content } in
    ap
      (λ (b : List ℕ).
        after_sample t (sample_loop t (length more)) (read_struct sample_layout sample_of b))
      (append_assoc (pack sample_layout fields) (content ++ sample_bytes more) rest
        ∙ ap (λ (b : List ℕ). pack sample_layout fields ++ b)
            (append_assoc content (sample_bytes more) rest))
    ∙ ap (after_sample t (sample_loop t (length more)))
        (read_struct-pack sample_layout sample_of fields (content ++ behind) (h.0.0, (h.0.1, tt)))
    ∙ after_sample_ok t (sample_loop t (length more)) sample (content ++ behind) content behind rest
        (sample_events t more) (read_padded-append content behind)
        (sample_loop-bytes t more rest h.1)

stamp_loop_step :
    (k : ℕ) (old h : StampHeader) (buf rest behind : List ℕ) (events : List Event)
    → read_over stamp_layout stamp_of old buf ≡ (h, rest)
    → sample_loop h.timestamp h.samples rest ≡ (events, behind)
    → stamp_loop (suc k) old buf ≡ events ++ stamp_loop k h behind
unfolding stamp_loop
stamp_loop_step k old h buf rest behind events e f = rw e (rw f)

stamp_loop-bytes :
    (stamps : List Stamp) (old : StampHeader) (tail : List ℕ)
    → All StampFits stamps
    → stamp_loop (length stamps) old (stamp_bytes stamps ++ tail) ≡ stamp_events stamps
stamp_loop-bytes [] old tail h = unfold stamp_loop in refl
stamp_loop-bytes (s ∷ more) old tail h =
    let fields : List ℕ = s.timestamp ∷ length s.samples ∷ [] in
    let behind : List ℕ = stamp_bytes more ++ tail in
    let header : StampHeader = record { timestamp = s.timestamp; samples = length s.samples } in
    ap (stamp_loop (suc (length more)) old) (
      append_assoc (pack stamp_layout fields) (sample_bytes s.samples ++ stamp_bytes more) tail
      ∙ ap (λ (b : List ℕ). pack stamp_layout fields ++ b)
          (append_assoc (sample_bytes s.samples) (stamp_bytes more) tail))
    ∙ stamp_loop_step (length more) old header
        (pack stamp_layout fields ++ (sample_bytes s.samples ++ behind))
        (sample_bytes s.samples ++ behind) behind (sample_events s.timestamp s.samples)
        (read_over-pack stamp_layout stamp_of old fields (sample_bytes s.samples ++ behind)
          (h.0.0, (h.0.1, tt)))
        (sample_loop-bytes s.timestamp s.samples behind h.0.2)
    ∙ ap (λ (es : List Event). sample_events s.timestamp s.samples ++ es)
        (stamp_loop-bytes more header tail h.1)

-- A notification whose numbers fit their fields, with any bytes behind it, is taken apart into one
-- call of handleNotification for each of its samples, in order, with the handle, the time stamp and
-- the content of the sample.
pub device_notification-stream_bytes :
    (size : ℕ) (stamps : List Stamp) (tail : List ℕ)
    → size < 2 ^ 32
    → length stamps < 2 ^ 32
    → All StampFits stamps
    → device_notification (stream_bytes size stamps ++ tail) ≡ ok (stamp_events stamps)
unfolding device_notification
device_notification-stream_bytes size stamps tail hs hn h =
    let fields : List ℕ = size ∷ length stamps ∷ [] in
    ap (λ (b : List ℕ). after_stream (read_struct stream_layout stream_of b))
      (append_assoc (pack stream_layout fields) (stamp_bytes stamps) tail)
    ∙ ap after_stream (
        read_struct-pack stream_layout stream_of fields (stamp_bytes stamps ++ tail) (hs, (hn, tt)))
    ∙ unfold after_stream in ap ok (stamp_loop-bytes stamps no_stamp tail h)

after_sample_bound :
    (t n : ℕ) (more : List ℕ → List Event × List ℕ) (r : Result NotificationSample × List ℕ)
    → ((b : List ℕ) → 8 * length (more b).0 + length (more b).1 ≤ length b)
    → ((s : NotificationSample) → r.0 ≡ ok s → length r.1 + 8 ≡ n)
    → length r.1 ≤ n
    → 8 * length (after_sample t more r).0 + length (after_sample t more r).1 ≤ n
unfolding after_sample read_padded
after_sample_bound t n more (ok s, rest) hm hr hn =
    omega (arith, hm (drop s.size rest), hr s refl, length-drop s.size rest)
after_sample_bound t n more (err e, rest) hm hr hn = omega arith
after_sample_bound t n more (panic, rest) hm hr hn = omega arith

sample_loop_bound :
    (t k : ℕ) (buf : List ℕ)
    → 8 * length (sample_loop t k buf).0 + length (sample_loop t k buf).1 ≤ length buf
unfolding sample_loop
sample_loop_bound t zero buf = omega arith
sample_loop_bound t (suc k) buf =
    after_sample_bound t (length buf) (sample_loop t k) (read_struct sample_layout sample_of buf)
      (sample_loop_bound t k)
      (λ s e.
        read_struct_takes sample_layout sample_of buf (read_struct sample_layout sample_of buf).1 s
          (λ i. (e i, (read_struct sample_layout sample_of buf).1)))
      (read_struct_le sample_layout sample_of buf)

stamp_loop_bound :
    (k : ℕ) (old : StampHeader) (buf : List ℕ) → 8 * length (stamp_loop k old buf) ≤ length buf
unfolding stamp_loop
stamp_loop_bound zero old buf = omega arith
stamp_loop_bound (suc k) old buf =
    let (h, rest) = read_over stamp_layout stamp_of old buf in
    let (events, behind) = sample_loop h.timestamp h.samples rest in
    omega (
      arith,
      length-append events (stamp_loop k h behind),
      read_over_le stamp_layout stamp_of old buf,
      sample_loop_bound h.timestamp h.samples rest,
      stamp_loop_bound k h behind,
    )

-- Whatever counts and sizes a notification claims, it makes at most one call of handleNotification
-- for each eight of its bytes.
pub device_notification_bound :
    (bytes : List ℕ) (events : List Event)
    → device_notification bytes ≡ ok events
    → 8 * length events ≤ length bytes
unfolding device_notification
device_notification_bound bytes events e =
    bound (read_struct stream_layout stream_of bytes) (read_struct_le stream_layout stream_of bytes)
      e
  where
    bound :
        (r : Result NotificationStream × List ℕ)
        → length r.1 ≤ length bytes
        → after_stream r ≡ ok events
        → 8 * length events ≤ length bytes
    bound (ok s, rest) h p =
        let same : stamp_loop s.stamps no_stamp rest ≡ events = unfold after_stream in cc in
        rw (← same) (omega (arith, stamp_loop_bound s.stamps no_stamp rest))
    bound (err x, rest) h p = unfold after_stream in cc
    bound (panic, rest) h p = unfold after_stream in cc

-- ===== src/Comm/Receive.antt =====
-- `handleReceive` on packets, and on what `encode` writes.
use go_adstc.Prelude.{ℕ, ◌+◌, ◌-◌, ◌%◌, ◌^◌, ◌≤◌, ◌<◌, ◌≡◌, ◌≢◌, ap, sym, ◌∙◌, arith}
use go_adstc.Prelude.{List, [], ◌∷◌, ◌++◌, length, take, drop, append-nil}
use go_adstc.Prelude.{
  Bool, true, ltb, ◌==◌, if◌then◌else◌, length-append, le→ltb, Bool-cases, inl, inr,
}
use go_adstc.Prelude.{drop-append_exact}
use go_adstc.Go.Result.{Result, ok}
use go_adstc.Go.Binary.{pack, unpack, Fits, read_struct, read_full, read_struct-pack, length-pack}
use go_adstc.Ams.{AmsAddress, AmsHeader, tcp_layout, header_layout}
use go_adstc.Ams.{header_of, header_values, encode, request_header}
use go_adstc.Ams.{command_device_notification}
use go_adstc.Ams.Frame.{IsAddress, request_header-Fits}
use go_adstc.Comm.{packet, listen}
use go_adstc.Comm.{answer, body_wrong, header_too_short, dispatch, check_body, handle_receive}
use go_adstc.Comm.Stream.{Frame, frame_bytes, listen-stream_of}

-- A packet as the peer writes it.
abbrev pub packet_bytes : AmsHeader → List ℕ → List ℕ
packet_bytes h payload = pack header_layout (header_values h) ++ payload

drop-packet_bytes : (h : AmsHeader) (payload : List ℕ) → drop 32 (packet_bytes h payload) ≡ payload
drop-packet_bytes h payload =
    ap (λ (n : ℕ). drop n (packet_bytes h payload))
      (sym (length-pack header_layout (header_values h)))
    ∙ drop-append_exact (pack header_layout (header_values h)) payload

handle_receive_long :
    (waiting : ℕ → Bool) (bytes : List ℕ)
    → 32 ≤ length bytes
    → handle_receive waiting bytes
      ≡ check_body waiting (read_struct header_layout header_of bytes) (drop 32 bytes)
unfolding handle_receive
handle_receive_long waiting bytes h = ground arith

-- A packet whose header values fit their fields is dispatched by that header if the length in it is
-- that of the body, and dropped as a wrong body if not.
pub handle_receive-packet_bytes :
    (waiting : ℕ → Bool) (h : AmsHeader) (payload : List ℕ)
    → Fits header_layout (header_values h)
    → handle_receive waiting (packet_bytes h payload)
      ≡ (if length payload == h.length then dispatch waiting h payload else body_wrong)
handle_receive-packet_bytes waiting h payload fits =
    handle_receive_long waiting (packet_bytes h payload) long
    ∙ ap
        (λ (r : Result AmsHeader × List ℕ). check_body waiting r (drop 32 (packet_bytes h payload)))
        (read_struct-pack header_layout header_of (header_values h) payload fits)
    ∙ ap (check_body waiting (ok h, payload)) (drop-packet_bytes h payload)
    ∙ checked
  where
    long : 32 ≤ length (packet_bytes h payload)
    long = omega (
      arith,
      length-append (pack header_layout (header_values h)) payload,
      length-pack header_layout (header_values h),
    )

    checked :
        check_body waiting (ok h, payload) payload
        ≡ (if length payload == h.length then dispatch waiting h payload else body_wrong)
    checked = unfold check_body in ground arith

-- The frame of a request, as `listen` of the other side reads it.
request_frame : AmsAddress → AmsAddress → ℕ → List ℕ → ℕ → Frame
request_frame target source command payload id = record {
  unknown1 = 0;
  system = 0;
  body = packet_bytes (request_header target source command payload id) payload;
}

module _ (target source : AmsAddress) (command : ℕ) (payload : List ℕ) (id : ℕ) where
  abbrev request : AmsHeader
  request = request_header target source command payload id

  body_length : length (packet_bytes request payload) ≡ 32 + length payload
  body_length = omega (
    arith,
    length-append (pack header_layout (header_values request)) payload,
    length-pack header_layout (header_values request),
  )

  encode-frame_bytes :
      length payload < 2 ^ 32 - 32
      → encode target source command payload id
        ≡ frame_bytes (request_frame target source command payload id)
  unfolding encode request_frame
  encode-frame_bytes h =
      ap (λ (n : ℕ). pack tcp_layout (0 ∷ 0 ∷ n ∷ []) ++ packet_bytes request payload) same
    where
      same : (32 + length payload) % 2 ^ 32 ≡ length (packet_bytes request payload)
      same = omega (arith, body_length)

  listen-encode :
      length payload < 2 ^ 32 - 32
      → listen (encode target source command payload id)
        ≡ packet (packet_bytes request payload) ∷ []
  unfolding request_frame
  listen-encode h =
      let f : Frame = request_frame target source command payload id in
      let twice : (frame_bytes f ++ []) ++ [] ≡ frame_bytes f =
        append-nil (frame_bytes f ++ []) ∙ append-nil (frame_bytes f) in
      ap listen (encode-frame_bytes h ∙ sym twice)
      ∙ listen-stream_of (f ∷ []) [] ((omega arith, omega arith, omega (arith, body_length)), tt)
          (omega arith)

  -- What encode writes for a command that fits its fields, other than a device notification, with a
  -- payload below 2^32 - 32 bytes, is cut by listen into one packet, and handleReceive hands that
  -- packet's payload to the request with its invoke id, when activeRequests has that id.
  pub receive-encode :
      (waiting : ℕ → Bool)
      → IsAddress target
      → IsAddress source
      → command < 2 ^ 16
      → id < 2 ^ 32
      → length payload < 2 ^ 32 - 32
      → command ≢ command_device_notification
      → waiting id ≡ true
      → (bytes : List ℕ) × (listen (encode target source command payload id) ≡ packet bytes ∷ [])
        × (handle_receive waiting bytes ≡ answer id payload)
  receive-encode waiting ht hs hc hi hp hn hw = (
    packet_bytes request payload,
    listen-encode hp,
    handle_receive-packet_bytes waiting request payload
          (request_header-Fits target source command payload id ht hs hc hi)
        ∙ unfold dispatch in ground arith,
  )

-- The header in front of a packet of 32 bytes or more.
abbrev pub header_in : List ℕ → AmsHeader
header_in bytes = header_of (unpack header_layout (take 32 bytes))

check_body-answer :
    (waiting : ℕ → Bool) (header : AmsHeader) (rest ads_data payload : List ℕ) (id : ℕ)
    → check_body waiting (ok header, rest) ads_data ≡ answer id payload
    → (waiting id ≡ true)
      × (payload ≡ ads_data)
      × (id ≡ header.invoke_id)
      × (length payload ≡ header.length)
      × (header.command ≢ command_device_notification)
unfolding check_body dispatch
check_body-answer waiting header rest ads_data payload id e = ground arith

read_long :
    (bytes : List ℕ)
    → 32 ≤ length bytes
    → read_struct header_layout header_of bytes ≡ (ok (header_in bytes), drop 32 bytes)
unfolding read_struct read_full
read_long bytes h = rw (le→ltb (length bytes) 32 h)

handle_receive_short :
    (waiting : ℕ → Bool) (bytes : List ℕ)
    → length bytes < 32
    → handle_receive waiting bytes ≡ header_too_short
unfolding handle_receive
handle_receive_short waiting bytes h = ground arith

-- handleReceive hands a payload to a request only if activeRequests has an entry for that request,
-- and the packet has a whole header that names the request, is no device notification, and has the
-- length of the payload, which is all that follows the header.
pub handle_receive-answer :
    (waiting : ℕ → Bool) (bytes payload : List ℕ) (id : ℕ)
    → handle_receive waiting bytes ≡ answer id payload
    → (32 ≤ length bytes)
      × (waiting id ≡ true)
      × (payload ≡ drop 32 bytes)
      × (id ≡ (header_in bytes).invoke_id)
      × (length payload ≡ (header_in bytes).length)
      × ((header_in bytes).command ≢ command_device_notification)
handle_receive-answer waiting bytes payload id e = elim (Bool-cases (ltb (length bytes) 32)) [
  | inl short ↦ cc (e, handle_receive_short waiting bytes (ground arith))
  | inr long ↦
      let len : 32 ≤ length bytes = ground arith in
      let (w, d, i, l, c) =
        check_body-answer waiting (header_in bytes) (drop 32 bytes) (drop 32 bytes) payload id (
          sym (
            handle_receive_long waiting bytes len
            ∙ ap (λ (r : Result AmsHeader × List ℕ). check_body waiting r (drop 32 bytes))
                (read_long bytes len))
          ∙ e) in
      (len, w, d, i, l, c)
]

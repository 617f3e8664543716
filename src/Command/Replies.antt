-- ===== src/Command/Replies.antt =====
-- What each command returns for each kind of response, and what is left of the state.
use go_adstc.Prelude.{ℕ, ◌%◌, ◌^◌, ◌<◌, ◌≡◌, ap, ◌∙◌, arith, true, false}
use go_adstc.Prelude.{List, [], ◌∷◌, ◌++◌, length, some, if◌then◌else◌, ◌==◌, ltb}
use go_adstc.Go.Result.{Result, ok, err, eof, ads_error, wrong_length}
use go_adstc.Go.Bytes.{of_le}
use go_adstc.Prelude.{take}
use go_adstc.Go.Binary.{pack, read_struct, read_over, read_full, read_struct-pack}
use go_adstc.Go.Binary.{read_over-pack}
use go_adstc.Ams.{command_read, command_read_write}
use go_adstc.Conn.{Env, Conn, registered, next_packet, await, send_request}
use go_adstc.Command.{packet_layout, write_read_layout, response_layout, response_of, no_response}
use go_adstc.Command.{no_states, read_response, check_response, check_added}
use go_adstc.Command.{write_read_response, code_response, add_notification_response, state_response}
use go_adstc.Command.{info_response, remove_handle, read, write, write_read, read_state}
use go_adstc.Command.{read_device_info, add_device_notification, delete_device_notification}

-- The state after a request whose packet went out.
abbrev pub posted : ℕ → List ℕ → Conn → Conn
posted command payload c = record (registered c) {
  sent = c.sent ++ (next_packet command payload c ∷ []);
}

abbrev pub read_payload : ℕ → ℕ → ℕ → List ℕ
read_payload group offset size = pack packet_layout (group ∷ offset ∷ size ∷ [])

abbrev pub write_payload : ℕ → ℕ → List ℕ → List ℕ
write_payload group offset payload =
    pack packet_layout (group ∷ offset ∷ (length payload % 2 ^ 32) ∷ []) ++ payload

abbrev pub write_read_payload : ℕ → ℕ → ℕ → List ℕ → List ℕ
write_read_payload group offset size payload =
    pack write_read_layout (group ∷ offset ∷ size ∷ (length payload % 2 ^ 32) ∷ []) ++ payload

module _ (env : Env) (command : ℕ) (payload : List ℕ) (c : Conn) where
  pub send_request-reply :
      (resp : List ℕ)
      → env.accepts c.sent ≡ true
      → env.reply (c.sent ++ (next_packet command payload c ∷ [])) ≡ some resp
      → send_request env command payload c ≡ (ok resp, posted command payload c)
  unfolding send_request
  send_request-reply resp h r = rw h (rw (r, await))

pub read_response-pack :
    (code size : ℕ) (rest : List ℕ)
    → code < 2 ^ 32
    → size < 2 ^ 32
    → read_response (pack response_layout (code ∷ size ∷ []) ++ rest)
      ≡ (if code == 0 then ok rest else err (ads_error code))
unfolding read_response
read_response-pack code size rest h k =
    ap check_response
      (read_struct-pack response_layout response_of (code ∷ size ∷ []) rest (h, (k, tt)))
    ∙ unfold check_response in ground arith

pub write_read_response-pack :
    (code size : ℕ) (rest : List ℕ)
    → code < 2 ^ 32
    → size < 2 ^ 32
    → write_read_response (pack response_layout (code ∷ size ∷ []) ++ rest)
      ≡ (if code == 0 then ok rest else err (ads_error code))
unfolding write_read_response
write_read_response-pack code size rest h k =
    rw (read_over-pack response_layout response_of no_response (code ∷ size ∷ []) rest (h, (k, tt)))
      (ground arith)

-- Read, answered by a whole response, returns the bytes behind it when its error code is 0 and that
-- ADS error when not; its packet went out under the next invoke id, and nothing else has changed.
pub read-reply :
    (env : Env) (group offset size : ℕ) (c : Conn) (code n : ℕ) (rest : List ℕ)
    → code < 2 ^ 32
    → n < 2 ^ 32
    → env.accepts c.sent ≡ true
    → env.reply (c.sent ++ (next_packet command_read (read_payload group offset size) c ∷ []))
      ≡ some (pack response_layout (code ∷ n ∷ []) ++ rest)
    → read env group offset size c ≡ (
      if code == 0 then ok rest else err (ads_error code),
      posted command_read (read_payload group offset size) c,
    )
unfolding read
read-reply env group offset size c code n rest h k a r =
    rw (send_request-reply env command_read (read_payload group offset size) c _ a r)
      (rw (read_response-pack code n rest h k))

-- WriteRead, answered by a whole response, returns the bytes behind it when its error code is 0 and
-- that ADS error when not; its packet went out under the next invoke id, and nothing else has
-- changed.
pub write_read-reply :
    (env : Env) (group offset size : ℕ) (payload : List ℕ) (c : Conn) (code n : ℕ) (rest : List ℕ)
    → code < 2 ^ 32
    → n < 2 ^ 32
    → env.accepts c.sent ≡ true
    → env.reply (
        c.sent
        ++ (next_packet command_read_write (write_read_payload group offset size payload) c ∷ []))
      ≡ some (pack response_layout (code ∷ n ∷ []) ++ rest)
    → write_read env group offset size payload c ≡ (
      if code == 0 then ok rest else err (ads_error code),
      posted command_read_write (write_read_payload group offset size payload) c,
    )
unfolding write_read
write_read-reply env group offset size payload c code n rest h k a r =
    rw
      (send_request-reply env command_read_write (write_read_payload group offset size payload) c _
        a r)
      (rw (write_read_response-pack code n rest h k))

-- The code that Write and DeleteDeviceNotification find in a response: 0 in a short one.
abbrev pub code_in : List ℕ → ℕ
code_in resp = if ltb (length resp) 4 then 0 else of_le (take 4 resp)

-- What Write makes of a response: an error only of a code in four bytes or more.
abbrev pub written : List ℕ → Result (Unit {0})
written resp = if code_in resp == 0 then ok tt else err (ads_error (code_in resp))

-- A request that is cut off before its packet is taken changes only the invoke ids, but for the
-- deleted handle: Write and DeleteDeviceNotification report success, WriteRead returns no bytes and
-- ReadState zero states without an error, and Read, AddDeviceNotification and ReadDeviceInfo fail.
pub unsent_outcomes :
    (env : Env) (c : Conn) (a b n h mode delay cycle : ℕ) (payload : List ℕ)
    → env.accepts c.sent ≡ false
    → (read env a b n c ≡ (err eof, registered c))
      × (write env a b payload c ≡ (ok tt, registered c))
      × (write_read env a b n payload c ≡ (ok [], registered c))
      × (read_state env c ≡ (ok no_states, registered c))
      × (read_device_info env c ≡ (err (wrong_length 0), registered c))
      × (add_device_notification env a b n mode delay cycle c ≡ (err eof, registered c))
      × (delete_device_notification env h c ≡ (
        ok tt,
        record (registered c) { active_notifications = remove_handle h c.active_notifications },
      ))
unfolding read write write_read read_state read_device_info add_device_notification
    delete_device_notification read_response check_response code_response write_read_response
    state_response info_response add_notification_response check_added read_over read_struct
    read_full send_request
unsent_outcomes env c a b n h mode delay cycle payload unsent =
    (rw unsent, rw unsent, rw unsent, rw unsent, rw unsent, rw unsent, rw unsent)

-- ===== src/Command/Codes.antt =====
-- What each command makes of the error code of an answer.
use go_adstc.Prelude.{
  ℕ, ◌+◌, ◌*◌, ◌%◌, ◌/◌, ◌^◌, ◌<◌, ◌≡◌, refl, ap, ◌∙◌, arith, true, List, [], ◌∷◌, ◌++◌,
}
use go_adstc.Prelude.{some, if◌then◌else◌, ◌==◌}
use go_adstc.Go.Result.{Result, ok, err, panic, ads_error, notification_refused}
use go_adstc.Go.Bytes.{to_le}
use go_adstc.Go.Binary.{pack, read_over-pack, read_struct-pack}
use go_adstc.Conn.{Env, Conn, continue, modify}
use go_adstc.Command.{response_layout, response_of, state_layout, states_of, no_states, States}
use go_adstc.Command.{add_notification_response, check_added, state_response, code_response}
use go_adstc.Command.{read, write, write_read, read_state, add_device_notification}
use go_adstc.Command.{delete_device_notification}
use go_adstc.Command.Replies.{send_request-reply, read_response-pack, write_read_response-pack}
use go_adstc.Client.Handles.{code_response-pack}

-- An error that names the code, unless it is 0.
abbrev pub code_outcome {ℓ} : {A : Type ℓ} → ℕ → A → Result A
code_outcome code a = if code == 0 then ok a else err (ads_error code)

add_notification_response-pack :
    (code n : ℕ) (rest : List ℕ)
    → code < 2 ^ 32
    → n < 2 ^ 32
    → add_notification_response (pack response_layout (code ∷ n ∷ []) ++ rest)
      ≡ (if code == 0 then ok n else err notification_refused)
unfolding add_notification_response
add_notification_response-pack code n rest h k =
    ap check_added (read_struct-pack response_layout response_of (code ∷ n ∷ []) rest (h, (k, tt)))
    ∙ unfold check_added in ground arith

state_response-pack :
    (code a d : ℕ) (rest : List ℕ)
    → code < 2 ^ 32
    → a < 2 ^ 16
    → d < 2 ^ 16
    → state_response (pack state_layout (code ∷ a ∷ d ∷ []) ++ rest)
      ≡ record { ads_state = a; device_state = d }
unfolding state_response
state_response-pack code a d rest h k l =
    ap (λ (x : States × List ℕ). x.0)
      (read_over-pack state_layout states_of no_states (code ∷ a ∷ d ∷ []) rest (h, (k, (l, tt))))

-- The two states stand where other answers have one number.
states_packed :
    (code a d : ℕ)
    → a < 2 ^ 16
    → pack response_layout (code ∷ (a + 2 ^ 16 * d) ∷ []) ≡ pack state_layout (code ∷ a ∷ d ∷ [])
unfolding pack to_le
states_packed code a d h =
    let n : ℕ = a + 2 ^ 16 * d in
    let b0 : n % 256 ≡ a % 256 = omega arith in
    let b1 : n / 256 % 256 ≡ a / 256 % 256 = omega arith in
    let b2 : n / 256 / 256 % 256 ≡ d % 256 = omega arith in
    let b3 : n / 256 / 256 / 256 % 256 ≡ d / 256 % 256 = omega arith in rw (b0, b1, b2, b3) refl

-- Write and DeleteDeviceNotification look at the code only.
code_response-answer :
    (code n : ℕ) (rest : List ℕ)
    → code < 2 ^ 32
    → code_response (pack response_layout (code ∷ n ∷ []) ++ rest) ≡ code_outcome code tt
unfolding pack to_le
code_response-answer code n rest h = code_response-pack code (pack (4 ∷ []) (n ∷ []) ++ rest) h

then_modify :
    (r : Result (Unit {0})) (d : Conn) (f : Conn → Conn) → (continue (r, d) (λ _. modify f)).0 ≡ r
then_modify (ok a) d f = refl
then_modify (err e) d f = refl
then_modify panic d f = refl

-- When the packet is taken and the answer to whatever is sent is an error code, a number and more
-- bytes, then Read, Write, WriteRead and DeleteDeviceNotification succeed exactly when the code is
-- 0 and fail with the ADS error of that code if not, where Read and WriteRead return the bytes
-- behind the number; AddDeviceNotification returns the number when the code is 0 and fails without
-- the code if not; and ReadState returns the two halves of the number whatever the code is.
pub answered_outcomes :
    (env : Env) (c : Conn) (group offset size handle mode delay cycle : ℕ) (payload : List ℕ)
    (code state device : ℕ) (rest : List ℕ)
    → env.accepts c.sent ≡ true
    → ((sent : List (List ℕ))
        → env.reply sent
          ≡ some (pack response_layout (code ∷ (state + 2 ^ 16 * device) ∷ []) ++ rest))
    → code < 2 ^ 32
    → state < 2 ^ 16
    → device < 2 ^ 16
    → ((read env group offset size c).0 ≡ code_outcome code rest)
      × ((write env group offset payload c).0 ≡ code_outcome code tt)
      × ((write_read env group offset size payload c).0 ≡ code_outcome code rest)
      × ((add_device_notification env group offset size mode delay cycle c).0
          ≡ (if code == 0 then ok (state + 2 ^ 16 * device) else err notification_refused))
      × ((delete_device_notification env handle c).0 ≡ code_outcome code tt)
      × ((read_state env c).0 ≡ ok (record { ads_state = state; device_state = device }))
unfolding read write write_read add_device_notification delete_device_notification read_state
answered_outcomes env c group offset size handle mode delay cycle payload code state device rest
      takes answers h k l =
    let n : ℕ = state + 2 ^ 16 * device in
    let small : n < 2 ^ 32 = omega arith in
    let resp : List ℕ = pack response_layout (code ∷ n ∷ []) ++ rest in
    (
      rw (send_request-reply env _ _ c resp takes (answers _))
          (read_response-pack code n rest h small),
      rw (send_request-reply env _ _ c resp takes (answers _)) (code_response-answer code n rest h),
      rw (send_request-reply env _ _ c resp takes (answers _))
          (write_read_response-pack code n rest h small),
      rw (send_request-reply env _ _ c resp takes (answers _))
          (add_notification_response-pack code n rest h small),
      rw (send_request-reply env _ _ c resp takes (answers _))
          (then_modify _ _ _ ∙ code_response-answer code n rest h),
      rw (send_request-reply env _ _ c resp takes (answers _)) (
          ap ok (
            rw (states_packed code state device k)
              (state_response-pack code state device rest h k l))),
    )

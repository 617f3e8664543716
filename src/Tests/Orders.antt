-- ===== src/Tests/Orders.antt =====
-- Runs of Requests: an answer in time, and one that comes late.
use go_adstc.Prelude.{ℕ, ◌≡◌, refl, arith, Option, none, some, List, [], ◌∷◌}
use go_adstc.Go.Bytes.{to_le, of_le}
use go_adstc.Go.Binary.{pack, unpack, read_struct}
use go_adstc.Ams.{AmsAddress, request_header, command_read}
use go_adstc.Comm.{answer, handle_receive}
use go_adstc.Comm.Receive.{packet_bytes}
use go_adstc.Requests.{Phase, sending, answered, given_up, Net, active, update, start, transmit}
use go_adstc.Requests.{request, take, receive, deliver, Steps, here, next}
use go_adstc.Requests.Answers.{Came, answered-Came}
use go_adstc.Requests.{whole, fails}
use go_adstc.Prelude.{true, ◌++◌}
use go_adstc.Prelude.{true}
use go_adstc.Requests.Answers.{In}
use go_adstc.Requests.Transmit.{Distinct, written-Distinct}
use go_adstc.Requests.Broken.{written_in_order, oldest, is_some}
use go_adstc.Requests.Late.{offering, late_answer_blocks}

abbrev plc_address : AmsAddress
plc_address = record {
  net_id = record { b0 = 127; b1 = 0; b2 = 0; b3 = 1; b4 = 1; b5 = 1 };
  port = 851;
}

-- The answer of the controller to request 1.
abbrev first_answer : List ℕ
first_answer =
    packet_bytes (request_header plc_address plc_address command_read (5 ∷ []) 1) (5 ∷ [])

abbrev requested : Net
requested = record start { current = 1; phase = update start.phase 1 sending }

abbrev sent_out : Net
sent_out = transmit requested 1 whole

abbrev offered : Net
offered = offering sent_out first_answer 1 (5 ∷ [])

abbrev delivered : Net
delivered = record offered { offer = none; phase = update offered.phase 1 (answered (5 ∷ [])) }

abbrev abandoned : Net
abandoned = record sent_out { phase = update sent_out.phase 1 given_up }

answer_in_time : handle_receive (active sent_out) first_answer ≡ answer 1 (5 ∷ [])
unfolding handle_receive read_struct pack unpack to_le of_le
answer_in_time = refl

answer_late : handle_receive (active abandoned) first_answer ≡ answer 1 (5 ∷ [])
unfolding handle_receive read_struct pack unpack to_le of_le
answer_late = refl

to_taken : Steps start sent_out
to_taken = next (next here (request refl (omega arith) refl)) (take 1 whole refl refl refl)

to_delivered : Steps start delivered
to_delivered =
    next (next to_taken (receive first_answer (5 ∷ []) 1 refl answer_in_time refl))
      (deliver 1 (5 ∷ []) refl refl refl)

answered-Came_example : Came delivered 1 (5 ∷ [])
answered-Came_example = answered-Came to_delivered 1 (5 ∷ []) refl

late_answer_blocks_example :
    (abandoned.current ≡ 1)
    × (◌≡◌ {A = Option (ℕ × List ℕ)} (some (1, 5 ∷ [])) (some (1, 5 ∷ [])))
    × (◌≡◌ {A = Phase} given_up given_up)
late_answer_blocks_example =
    late_answer_blocks abandoned (offering abandoned first_answer 1 (5 ∷ [])) first_answer (5 ∷ [])
      1 refl answer_late here refl

written-Distinct_example :
    Distinct delivered.written
    × ((id : ℕ) → In id delivered.written → In id delivered.taken)
    × ((id : ℕ) (payload : List ℕ) → delivered.phase id ≡ answered payload → In id delivered.taken)
written-Distinct_example = written-Distinct to_delivered

-- The write of packet 2 fails after 10 bytes, and then packet 3 is taken.
abbrev asked_again : Net
asked_again = record delivered { current = 2; phase = update delivered.phase 2 sending }

abbrev cut_off : Net
cut_off = transmit asked_again 2 (fails 10)

abbrev asked_in_vain : Net
asked_in_vain = record cut_off { current = 3; phase = update cut_off.phase 3 sending }

to_in_vain : Steps start (transmit asked_in_vain 3 whole)
to_in_vain =
    let to_cut : Steps start cut_off =
      next (next to_delivered (request refl (omega arith) refl))
        (take 2 (fails 10) refl refl refl) in
    next (next to_cut (request refl (omega arith) refl)) (take 3 whole refl refl refl)

written_in_order_example :
    (unsent : List ℕ) × (3 ∷ 2 ∷ 1 ∷ [] ≡ unsent ++ (1 ∷ []))
    × (some 2 ≡ oldest unsent)
    × (true ≡ is_some (oldest unsent))
written_in_order_example = written_in_order to_in_vain

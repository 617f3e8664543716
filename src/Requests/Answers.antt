-- ===== src/Requests/Answers.antt =====
-- What a request is answered with, in every order of events.
use go_adstc.Prelude.{ℕ, ◌+◌, ◌≤◌, ◌<◌, ◌≡◌, ◌⊎◌, inl, inr, refl, sym, ◌∙◌, arith}
use go_adstc.Prelude.{true, false, Option, some, List, [], ◌∷◌, drop, ◌==◌}
use go_adstc.Prelude.{Bool-cases, ltb}
use mathlib.Core.Path.{subst}
use go_adstc.Comm.Receive.{header_in, handle_receive-answer}
use go_adstc.Prelude.{Bool, ◌||◌}
use go_adstc.Requests.{
  Phase, idle, sending, waiting, answered, given_up, Net, active, update, start,
}
use go_adstc.Prelude.{if◌then◌else◌}
use go_adstc.Requests.{
  Step, exit, failed, part_of, request, take, give_up_sending, give_up_waiting, receive,
}
use go_adstc.Requests.{receive_broadcast, deliver, shut, withdraw, Steps, here, next}

abbrev pub In : {A : Type 0} → A → List A → Type 0
In x [] = ⊥
In x (y ∷ ys) = (x ≡ y) ⊎ In x ys

-- A packet came that names the request and carries the payload.
abbrev pub Came : Net → ℕ → List ℕ → Type 0
Came s id payload =
    (bytes : List ℕ) × In bytes s.packets
    × ((header_in bytes).invoke_id ≡ id)
    × (drop 32 bytes ≡ payload)

record IsSound (s : Net) : Type 0 where
  offered : (id : ℕ) (p : List ℕ) → s.offer ≡ some (id, p) → Came s id p
  returned : (id : ℕ) (p : List ℕ) → s.phase id ≡ answered p → Came s id p
  fresh : (id : ℕ) → s.current < id → s.phase id ≡ idle

start-IsSound : IsSound start
start-IsSound = record { offered = λ id p e. cc; returned = λ id p e. cc; fresh = λ id h. refl }

-- A step that gives one id a phase which is no answer.
change-IsSound :
    (s t : Net) (j n : ℕ) (p : Phase) (ids out : List ℕ) (cut : Bool) (part : Option (ℕ × ℕ))
    → IsSound s
    → ((q : List ℕ) → p ≡ answered q → ⊥)
    → j ≤ n
    → s.current ≤ n
    → t ≡ record s {
      current = n;
      phase = update s.phase j p;
      taken = ids;
      written = out;
      broken = cut;
      partly = part;
    }
    → IsSound t
change-IsSound s t j n p ids out cut part h no_answer le up e = subst IsSound (sym e) (record {
  offered = h.offered;
  returned = λ id q a. elim (Bool-cases (id == j)) [
    | inl same ↦ absurd (no_answer q (rw same at a))
    | inr other ↦ h.returned id q (rw other at a)
  ];
  fresh =
      λ id lt. let other : (id == j) ≡ false = ground arith in rw other (h.fresh id (omega arith));
})

active_le : (s : Net) (id : ℕ) → IsSound s → active s id ≡ true → id ≤ s.current
active_le s id h a = elim (Bool-cases (ltb s.current id)) [
  | inl above ↦ let e : s.phase id ≡ idle = h.fresh id (ground arith) in cc (rw e at a)
  | inr below ↦ ground arith
]

-- What came stays known when more packets come.
Came-more :
    (s : Net) (bytes : List ℕ) (o : Option (ℕ × List ℕ)) (id : ℕ) (p : List ℕ)
    → Came s id p
    → Came (record s { offer = o; packets = bytes ∷ s.packets }) id p
Came-more s bytes o id p (b, i, n, d) = (b, inr i, n, d)

Step-IsSound : {s t : Net} → Step s t → IsSound s → IsSound t
Step-IsSound {s} {t} (request free small e) h =
    change-IsSound s t (s.current + 1) (s.current + 1) sending s.taken s.written s.broken s.partly h
      (λ q x. cc) (omega arith) (omega arith) e
Step-IsSound {s} {t} (take id write runs at_phase e) h =
    change-IsSound s t id s.current waiting (id ∷ s.taken)
      (if s.broken || failed write then s.written else id ∷ s.written) (s.broken || failed write)
      (if s.broken then s.partly else part_of id write) h (λ q x. cc)
      (active_le s id h (rw at_phase refl)) (omega arith) e
Step-IsSound {s} {t} (give_up_sending id at_phase e) h =
    change-IsSound s t id s.current given_up s.taken s.written s.broken s.partly h (λ q x. cc)
      (active_le s id h (rw at_phase refl)) (omega arith) e
Step-IsSound {s} {t} (give_up_waiting id at_phase e) h =
    change-IsSound s t id s.current given_up s.taken s.written s.broken s.partly h (λ q x. cc)
      (active_le s id h (rw at_phase refl)) (omega arith) e
Step-IsSound {s} {t} (receive bytes payload id free came e) h = subst IsSound (sym e) (record {
  offered = λ j p o.
      let (_, _, d, i, _, _) = handle_receive-answer (active s) bytes payload id came in
      let same_id : id ≡ j = cc in
      let same_payload : payload ≡ p = cc in
      (bytes, inl refl, sym i ∙ same_id, sym d ∙ same_payload);
  returned = λ j p a. Came-more s bytes (some (id, payload)) j p (h.returned j p a);
  fresh = h.fresh;
})
Step-IsSound {s} {t} (receive_broadcast bytes id free came e) h = subst IsSound (sym e) (record {
  offered = λ j p o. Came-more s bytes s.offer j p (h.offered j p o);
  returned = λ j p a. Came-more s bytes s.offer j p (h.returned j p a);
  fresh = h.fresh;
})
Step-IsSound {s} {t} (deliver id payload offered at_phase e) h = subst IsSound (sym e) (record {
  offered = λ j p o. cc;
  returned = λ j p a. elim (Bool-cases (j == id)) [
    | inl same ↦
        let jid : id ≡ j = ground arith in
        let pp : payload ≡ p = answered-injective payload p (rw same at a) in
        rw (← jid, ← pp) (h.offered id payload offered)
    | inr other ↦ h.returned j p (rw other at a)
  ];
  fresh = λ j lt.
      let le : id ≤ s.current = active_le s id h (rw at_phase refl) in
      let other : (j == id) ≡ false = ground arith in rw other (h.fresh j lt);
})
  where
    answered-injective : (p q : List ℕ) → answered p ≡ answered q → p ≡ q
    answered-injective p q e = cc
Step-IsSound {s} {t} (exit runs down e) h =
    subst IsSound (sym e) (record { offered = h.offered; returned = h.returned; fresh = h.fresh })
Step-IsSound {s} {t} (shut e) h =
    subst IsSound (sym e) (record { offered = h.offered; returned = h.returned; fresh = h.fresh })
Step-IsSound {s} {t} (withdraw down e) h =
    subst IsSound (sym e) (record { offered = λ j p o. cc; returned = h.returned; fresh = h.fresh })

Steps-IsSound : {s t : Net} → Steps s t → IsSound s → IsSound t
Steps-IsSound here h = h
Steps-IsSound (next run step) h = Step-IsSound step (Steps-IsSound run h)

-- In every run of concurrent requests and packets, before the invoke ids wrap, a request that
-- returned a payload had a packet whose header names its invoke id and whose bytes behind the
-- header are that payload.
pub answered-Came :
    {s : Net}
    → Steps start s
    → (id : ℕ) (payload : List ℕ) → s.phase id ≡ answered payload
    → Came s id payload
answered-Came run id payload e = (Steps-IsSound run start-IsSound).returned id payload e

-- In every run, before the invoke ids wrap, the invoke id that the next request takes has no entry
-- in activeRequests yet.
pub request-fresh : {s : Net} → Steps start s → active s (s.current + 1) ≡ false
request-fresh {s} run =
    rw ((Steps-IsSound run start-IsSound).fresh (s.current + 1) (omega arith)) refl

-- ===== src/Requests/Transmit.antt =====
-- What the transmit worker writes, in every order of events.
use go_adstc.Prelude.{ℕ, ◌+◌, ◌≡◌, inl, inr, refl, sym, arith, Bool, true, false}
use go_adstc.Prelude.{none, some, Option, List, [], ◌∷◌, ◌==◌, if◌then◌else◌, Bool-cases}
use mathlib.Core.Path.{subst}
use go_adstc.Prelude.{◌||◌}
use go_adstc.Requests.{
  is_active, Phase, idle, sending, waiting, answered, given_up, Net, active, update, start,
}
use go_adstc.Requests.{transmit, SocketWrite, failed, Step, request, take, exit, give_up_sending}
use go_adstc.Requests.{give_up_waiting, receive, receive_broadcast, deliver, shut, withdraw}
use go_adstc.Requests.{Steps, here, next}
use go_adstc.Requests.Answers.{In, request-fresh}

abbrev pub Distinct : List ℕ → Type 0
Distinct [] = Unit {0}
Distinct (x ∷ xs) = (In x xs → ⊥) × Distinct xs

-- The worker has not come to the packet yet, or has taken it.
abbrev is_early : Phase → Bool
is_early idle = true
is_early sending = true
is_early _ = false

abbrev is_past : Phase → Bool
is_past waiting = true
is_past (answered p) = true
is_past _ = false

record IsOrderly (s : Net) : Type 0 where
  once : Distinct s.taken
  out_once : Distinct s.written
  out : (id : ℕ) → In id s.written → In id s.taken
  not_yet : (id : ℕ) → is_early (s.phase id) ≡ true → In id s.taken → ⊥
  went : (id : ℕ) → is_past (s.phase id) ≡ true → In id s.taken

start-IsOrderly : IsOrderly start
start-IsOrderly = record {
  once = tt;
  out_once = tt;
  out = λ id h. h;
  not_yet = λ id e h. h;
  went = λ id e. cc;
}

module _ (s : Net) (h : IsOrderly s) where
  -- A step of another kind.
  others_same :
      (n : ℕ) (o : Option (ℕ × List ℕ)) (down runs cut : Bool) (came : List (List ℕ))
      → IsOrderly (record s {
        current = n;
        offer = o;
        shut_down = down;
        worker = runs;
        broken = cut;
        packets = came;
      })
  others_same n o down runs cut came = record {
    once = h.once;
    out_once = h.out_once;
    out = h.out;
    not_yet = h.not_yet;
    went = h.went;
  }

  -- A request goes on, and the worker does not.
  phase_moved :
      (j n : ℕ) (o : Option (ℕ × List ℕ)) (new : Phase)
      → (is_early new ≡ true → is_early (s.phase j) ≡ true)
      → (is_past new ≡ true → is_past (s.phase j) ≡ true)
      → IsOrderly (record s { current = n; offer = o; phase = update s.phase j new })
  phase_moved j n o new early past = record {
    once = h.once;
    out_once = h.out_once;
    out = h.out;
    not_yet = λ id e. elim (Bool-cases (id == j)) [
      | inl same ↦ let one : id ≡ j = ground arith in h.not_yet id (rw one (early (rw same at e)))
      | inr other ↦ h.not_yet id (rw other at e)
    ];
    went = λ id e. elim (Bool-cases (id == j)) [
      | inl same ↦ let one : id ≡ j = ground arith in h.went id (rw one (past (rw same at e)))
      | inr other ↦ h.went id (rw other at e)
    ];
  }

  taken_next :
      (id : ℕ) (write : SocketWrite) → s.phase id ≡ sending → IsOrderly (transmit s id write)
  taken_next id write at_phase =
      let new : In id s.taken → ⊥ = h.not_yet id (rw at_phase refl) in
      record {
        once = (new, h.once);
        out_once = out_distinct (s.broken || failed write) new;
        out = λ j. out_taken (s.broken || failed write) j;
        not_yet = λ j e. elim (Bool-cases (j == id)) [
          | inl same ↦ cc (rw same at e)
          | inr other ↦ λ i. elim i [
            | inl one ↦ absurd (ground arith)
            | inr old ↦ h.not_yet j (rw other at e) old
          ]
        ];
        went = λ j e. elim (Bool-cases (j == id)) [
          | inl same ↦ inl (ground arith)
          | inr other ↦ inr (h.went j (rw other at e))
        ];
      }
    where
      out_distinct :
          (b : Bool) → (In id s.taken → ⊥) → Distinct (if b then s.written else id ∷ s.written)
      out_distinct true new = h.out_once
      out_distinct false new = (λ i. new (h.out id i), h.out_once)

      out_taken :
          (b : Bool) (j : ℕ) → In j (if b then s.written else id ∷ s.written) → In j (id ∷ s.taken)
      out_taken true j i = inr (h.out j i)
      out_taken false j (inl e) = inl e
      out_taken false j (inr i) = inr (h.out j i)

inactive_early : (p : Phase) → is_active p ≡ false → is_early p ≡ true
inactive_early idle e = refl
inactive_early sending e = refl
inactive_early waiting e = cc
inactive_early (answered p) e = cc
inactive_early given_up e = cc

Step-IsOrderly :
    {s t : Net} → Step s t → active s (s.current + 1) ≡ false → IsOrderly s → IsOrderly t
Step-IsOrderly {s} {t} (request free small e) new h = subst IsOrderly (sym e) (
    phase_moved s h (s.current + 1) (s.current + 1) s.offer sending
      (λ _. inactive_early (s.phase (s.current + 1)) new) (λ x. cc))
Step-IsOrderly {s} {t} (take id write runs at_phase e) new h =
    subst IsOrderly (sym e) (taken_next s h id write at_phase)
Step-IsOrderly {s} {t} (exit runs down e) new h =
    subst IsOrderly (sym e) (others_same s h s.current s.offer s.shut_down false s.broken s.packets)
Step-IsOrderly {s} {t} (give_up_sending id at_phase e) new h =
    subst IsOrderly (sym e) (phase_moved s h id s.current s.offer given_up (λ x. cc) (λ x. cc))
Step-IsOrderly {s} {t} (give_up_waiting id at_phase e) new h =
    subst IsOrderly (sym e) (phase_moved s h id s.current s.offer given_up (λ x. cc) (λ x. cc))
Step-IsOrderly {s} {t} (receive bytes payload id free came e) new h = subst IsOrderly (sym e) (
    others_same s h s.current (some (id, payload)) s.shut_down s.worker s.broken
      (bytes ∷ s.packets))
Step-IsOrderly {s} {t} (receive_broadcast bytes id free came e) new h =
    subst IsOrderly (sym e)
      (others_same s h s.current s.offer s.shut_down s.worker s.broken (bytes ∷ s.packets))
Step-IsOrderly {s} {t} (deliver id payload offered at_phase e) new h =
    subst IsOrderly (sym e)
      (phase_moved s h id s.current none (answered payload) (λ x. cc) (λ x. rw at_phase refl))
Step-IsOrderly {s} {t} (shut e) new h =
    subst IsOrderly (sym e) (others_same s h s.current s.offer true s.worker s.broken s.packets)
Step-IsOrderly {s} {t} (withdraw down e) new h =
    subst IsOrderly (sym e) (others_same s h s.current none s.shut_down s.worker s.broken s.packets)

Steps-IsOrderly : {t : Net} → Steps start t → IsOrderly t
Steps-IsOrderly here = start-IsOrderly
Steps-IsOrderly (next run step) = Step-IsOrderly step (request-fresh run) (Steps-IsOrderly run)

-- In every run of concurrent requests, packets and the transmit worker, before the invoke ids wrap,
-- no packet of a request is written twice, every packet that is written was taken from its request,
-- and so was the packet of every request that has an answer.
pub written-Distinct :
    {s : Net}
    → Steps start s
    → Distinct s.written
      × ((id : ℕ) → In id s.written → In id s.taken)
      × ((id : ℕ) (payload : List ℕ) → s.phase id ≡ answered payload → In id s.taken)
written-Distinct {s} run =
    let h : IsOrderly s = Steps-IsOrderly run in
    (h.out_once, h.out, λ id payload e. h.went id (rw e refl))

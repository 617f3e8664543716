-- ===== src/Requests/Late.antt =====
-- An answer that comes after its request has given up.
use go_adstc.Prelude.{ℕ, ◌≡◌, refl, sym, ◌∙◌, ap, arith, false, some}
use go_adstc.Prelude.{List, ◌∷◌, ◌==◌, Bool-cases, inl, inr}
use mathlib.Core.Path.{subst}
use go_adstc.Comm.{answer, handle_receive}
use go_adstc.Requests.{Phase, sending, waiting, given_up, Net, active, update}
use go_adstc.Requests.{Step, exit, request, take, give_up_sending, give_up_waiting, receive}
use go_adstc.Requests.{receive_broadcast, deliver, shut, withdraw, Steps, here, next}

-- handleReceive holds the lock and offers a payload to a request that is gone.
record IsJammed (id : ℕ) (p : List ℕ) (n : ℕ) (s : Net) : Type 0 where
  offered : s.offer ≡ some (id, p)
  gone : s.phase id ≡ given_up
  counted : s.current ≡ n

still_gone :
    (s : Net) (id j : ℕ) (old new : Phase)
    → s.phase id ≡ given_up
    → s.phase j ≡ old
    → (old ≡ given_up → ⊥)
    → update s.phase j new id ≡ given_up
still_gone s id j old new gone at_phase other = elim (Bool-cases (id == j)) [
  | inl same ↦
      let e : id ≡ j = ground arith in absurd (other (sym at_phase ∙ ap s.phase (sym e) ∙ gone))
  | inr differ ↦ rw differ gone
]

-- Unless the connection is shut down, no step ends the jam or starts a request.
Step-IsJammed :
    {s t : Net} (id : ℕ) (p : List ℕ) (n : ℕ)
    → Step s t
    → s.shut_down ≡ false
    → IsJammed id p n s
    → IsJammed id p n t
Step-IsJammed {s} {t} id p n (request free small e) up h = cc (h.offered, free)
Step-IsJammed {s} {t} id p n (take j write runs at_phase e) up h =
    subst (IsJammed id p n) (sym e) (record {
      offered = h.offered;
      gone = still_gone s id j sending waiting h.gone at_phase (λ x. cc);
      counted = h.counted;
    })
Step-IsJammed {s} {t} id p n (give_up_sending j at_phase e) up h =
    subst (IsJammed id p n) (sym e) (record {
      offered = h.offered;
      gone = still_gone s id j sending given_up h.gone at_phase (λ x. cc);
      counted = h.counted;
    })
Step-IsJammed {s} {t} id p n (give_up_waiting j at_phase e) up h =
    subst (IsJammed id p n) (sym e) (record {
      offered = h.offered;
      gone = still_gone s id j waiting given_up h.gone at_phase (λ x. cc);
      counted = h.counted;
    })
Step-IsJammed {s} {t} id p n (receive bytes q j free came e) up h = cc (h.offered, free)
Step-IsJammed {s} {t} id p n (receive_broadcast bytes j free came e) up h = cc (h.offered, free)
Step-IsJammed {s} {t} id p n (deliver j q offered at_phase e) up h =
    let same : id ≡ j = cc (h.offered, offered) in cc (ap s.phase same, h.gone, at_phase)
Step-IsJammed {s} {t} id p n (exit runs down e) up h = cc (up, down)
Step-IsJammed {s} {t} id p n (shut e) up h =
    subst (IsJammed id p n) (sym e)
      (record { offered = h.offered; gone = h.gone; counted = h.counted })
Step-IsJammed {s} {t} id p n (withdraw down e) up h = cc (up, down)

Step-up : {s t : Net} → Step s t → t.shut_down ≡ false → s.shut_down ≡ false
Step-up (request free small e) up = sym (ap (λ (n : Net). n.shut_down) e) ∙ up
Step-up (exit runs down e) up = sym (ap (λ (n : Net). n.shut_down) e) ∙ up
Step-up (take j write runs at_phase e) up = sym (ap (λ (n : Net). n.shut_down) e) ∙ up
Step-up (give_up_sending j at_phase e) up = sym (ap (λ (n : Net). n.shut_down) e) ∙ up
Step-up (give_up_waiting j at_phase e) up = sym (ap (λ (n : Net). n.shut_down) e) ∙ up
Step-up (receive bytes q j free came e) up = sym (ap (λ (n : Net). n.shut_down) e) ∙ up
Step-up (receive_broadcast bytes j free came e) up = sym (ap (λ (n : Net). n.shut_down) e) ∙ up
Step-up (deliver j q offered at_phase e) up = sym (ap (λ (n : Net). n.shut_down) e) ∙ up
Step-up (shut e) up = cc (ap (λ (n : Net). n.shut_down) e, up)
Step-up (withdraw down e) up = sym (ap (λ (n : Net). n.shut_down) e) ∙ up

Steps-IsJammed :
    {s t : Net} (id : ℕ) (p : List ℕ) (n : ℕ)
    → Steps s t
    → t.shut_down ≡ false
    → IsJammed id p n s
    → IsJammed id p n t
Steps-IsJammed id p n here up h = h
Steps-IsJammed id p n (next run step) up h =
    Step-IsJammed id p n step (Step-up step up) (Steps-IsJammed id p n run (Step-up step up) h)

-- The state in which handleReceive offers the payload of a packet; see the step `receive`.
abbrev pub offering : Net → List ℕ → ℕ → List ℕ → Net
offering s bytes id payload = record s { offer = some (id, payload); packets = bytes ∷ s.packets }

-- When handleReceive offers an answer to a request that has given up, then in every later state
-- before the shutdown it still offers it, and no further request has taken a number.
pub late_answer_blocks :
    (s t : Net) (bytes payload : List ℕ) (id : ℕ)
    → s.phase id ≡ given_up
    → handle_receive (active s) bytes ≡ answer id payload
    → Steps (offering s bytes id payload) t
    → t.shut_down ≡ false
    → (t.current ≡ s.current) × (t.offer ≡ some (id, payload)) × (t.phase id ≡ given_up)
late_answer_blocks s t bytes payload id gone came run up =
    let h : IsJammed id payload s.current t =
      Steps-IsJammed id payload s.current run up
        (record { offered = refl; gone = gone; counted = refl }) in
    (h.counted, h.offered, h.gone)

-- ===== src/Requests/Broken.antt =====
-- What goes out once a write has failed, in every order of events.
use go_adstc.Prelude.{ℕ, ◌≡◌, refl, sym, ◌∙◌, Bool, true, false}
use go_adstc.Prelude.{none, some, Option, List, [], ◌∷◌}
use mathlib.Core.Path.{subst}
use go_adstc.Prelude.{◌++◌, ap}
use go_adstc.Requests.{Net, start}
use go_adstc.Requests.{
  transmit, SocketWrite, whole, fails, Step, request, take, exit, give_up_sending,
}
use go_adstc.Requests.{give_up_waiting, receive, receive_broadcast, deliver, shut, withdraw}
use go_adstc.Requests.{Steps, here, next}

-- The id of the packet that went out in part, and the first of the ids that a list has gathered.
abbrev pub cut_id : Option (ℕ × ℕ) → Option ℕ
cut_id none = none
cut_id (some (id, sent)) = some id

abbrev pub oldest : List ℕ → Option ℕ
oldest [] = none
oldest (x ∷ []) = some x
oldest (x ∷ y ∷ more) = oldest (y ∷ more)

abbrev pub is_some : Option ℕ → Bool
is_some none = false
is_some (some id) = true

-- The packets that were taken are those that were written, and behind them those that were not: the
-- write of the first of these failed.
record InOrder (s : Net) (unsent : List ℕ) : Type 0 where
  split : s.taken ≡ unsent ++ s.written
  cut : cut_id s.partly ≡ oldest unsent
  stuck : s.broken ≡ is_some (oldest unsent)

oldest_some : (x : ℕ) (xs : List ℕ) → is_some (oldest (x ∷ xs)) ≡ true
oldest_some x [] = refl
oldest_some x (y ∷ ys) = oldest_some y ys

transmit-InOrder :
    (s : Net) (id : ℕ) (write : SocketWrite) (unsent : List ℕ)
    → InOrder s unsent
    → (more : List ℕ) × InOrder (transmit s id write) more
transmit-InOrder s id whole [] h = (
  [],
  record {
    split = rw h.stuck (ap (λ (xs : List ℕ). id ∷ xs) h.split);
    cut = rw h.stuck refl;
    stuck = rw h.stuck refl;
  },
)
transmit-InOrder s id (fails sent) [] h = (
  id ∷ [],
  record {
    split = rw h.stuck (ap (λ (xs : List ℕ). id ∷ xs) h.split);
    cut = rw h.stuck refl;
    stuck = rw h.stuck refl;
  },
)
transmit-InOrder s id write (x ∷ xs) h =
    let stuck : s.broken ≡ true = h.stuck ∙ oldest_some x xs in
    (
      id ∷ x ∷ xs,
      record {
        split = rw stuck (ap (λ (ys : List ℕ). id ∷ ys) h.split);
        cut = rw stuck h.cut;
        stuck = rw stuck (sym (oldest_some x xs));
      },
    )

abbrev Ordered : Net → Type 0
Ordered s = (unsent : List ℕ) × InOrder s unsent

-- What the worker has done.
abbrev Work : Type 0
Work = List ℕ × List ℕ × Option (ℕ × ℕ) × Bool

abbrev work : Net → Work
work s = (s.taken, s.written, s.partly, s.broken)

-- A step that is not the worker's.
work-Ordered : (s t : Net) → work t ≡ work s → Ordered s → Ordered t
work-Ordered s t e (unsent, h) =
    let taken : t.taken ≡ s.taken = ap (λ (w : Work). w.0) e in
    let written : t.written ≡ s.written = ap (λ (w : Work). w.1) e in
    let partly : t.partly ≡ s.partly = ap (λ (w : Work). w.2) e in
    let broken : t.broken ≡ s.broken = ap (λ (w : Work). w.3) e in
    (
      unsent,
      record {
        split = taken ∙ h.split ∙ ap (λ (xs : List ℕ). unsent ++ xs) (sym written);
        cut = ap cut_id partly ∙ h.cut;
        stuck = broken ∙ h.stuck;
      },
    )

Step-Ordered : {s t : Net} → Step s t → Ordered s → Ordered t
Step-Ordered {s} {t} (take id write runs at_phase e) (unsent, h) =
    subst Ordered (sym e) (transmit-InOrder s id write unsent h)
Step-Ordered {s} {t} (request free small e) h = work-Ordered s t (ap work e) h
Step-Ordered {s} {t} (exit runs down e) h = work-Ordered s t (ap work e) h
Step-Ordered {s} {t} (give_up_sending id at_phase e) h = work-Ordered s t (ap work e) h
Step-Ordered {s} {t} (give_up_waiting id at_phase e) h = work-Ordered s t (ap work e) h
Step-Ordered {s} {t} (receive bytes payload id free came e) h = work-Ordered s t (ap work e) h
Step-Ordered {s} {t} (receive_broadcast bytes id free came e) h = work-Ordered s t (ap work e) h
Step-Ordered {s} {t} (deliver id payload offered at_phase e) h = work-Ordered s t (ap work e) h
Step-Ordered {s} {t} (shut e) h = work-Ordered s t (ap work e) h
Step-Ordered {s} {t} (withdraw down e) h = work-Ordered s t (ap work e) h

Steps-Ordered : {t : Net} → Steps start t → Ordered t
Steps-Ordered here = ([], record { split = refl; cut = refl; stuck = refl })
Steps-Ordered (next run step) = Step-Ordered step (Steps-Ordered run)

-- In every run of concurrent requests, packets and the transmit worker, where each write to the
-- socket may fail after any number of bytes, the packets that were written whole are the first ones
-- that the worker took, in the order in which it took them; if it took more, the first of these is
-- the packet whose write failed and the only one of which a part may be out, and the Writer has an
-- error exactly then.
pub written_in_order :
    {s : Net}
    → Steps start s
    → (unsent : List ℕ) × (s.taken ≡ unsent ++ s.written)
      × (cut_id s.partly ≡ oldest unsent)
      × (s.broken ≡ is_some (oldest unsent))
written_in_order run = let (unsent, h) = Steps-Ordered run in (unsent, h.split, h.cut, h.stuck)

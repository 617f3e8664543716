-- ===== src/Value/Compare.antt =====
-- `strcmp`, by which `parse` decides whether a value has changed.
use go_adstc.Prelude.{ℕ, zero, suc, ◌-◌, ◌≡◌, ◌↔◌, refl, arith, true}
use go_adstc.Prelude.{List, [], ◌∷◌, length, ==_refl}
use go_adstc.Go.Int.{pos, neg, is_zero, minus}
use go_adstc.Value.{first_diff, strcmp}

is_zero-neg : (n : ℕ) → is_zero (neg n) ≡ true → n ≡ 0
is_zero-neg zero h = refl
is_zero-neg (suc n) h = cc

is_zero-minus : (a b : ℕ) → is_zero (minus (pos a) b) ≡ true → a ≡ b
unfolding minus
is_zero-minus a b h = ground (arith, is_zero-neg (b - a))

minus_self : (a : ℕ) → minus (pos a) a ≡ pos 0
unfolding minus
minus_self a = ground arith

first_diff_self : (s : List ℕ) → first_diff s s ≡ pos 0
unfolding first_diff
first_diff_self [] = refl
first_diff_self (a ∷ s) = rw (==_refl a, first_diff_self s)

first_diff-eq : (s t : List ℕ) → is_zero (first_diff s t) ≡ true → length s ≡ length t → s ≡ t
unfolding first_diff
first_diff-eq [] [] h l = refl
first_diff-eq [] (b ∷ t) h l = absurd (omega arith)
first_diff-eq (a ∷ s) [] h l = absurd (omega arith)
first_diff-eq (a ∷ s) (b ∷ t) h l = ground (arith, is_zero-minus a b, first_diff-eq s t)

strcmp-zero : (s t : List ℕ) → strcmp s t ≡ pos 0 → s ≡ t
unfolding strcmp
strcmp-zero s t e = ground (arith, is_zero-minus (length s) (length t), first_diff-eq s t)

-- strcmp returns 0 exactly on equal strings.
pub strcmp_iff : (s t : List ℕ) → (strcmp s t ≡ pos 0) ↔ (s ≡ t)
strcmp_iff s t = (strcmp-zero s t, λ e. rw (← e) (strcmp_self s))
  where
    strcmp_self : (s : List ℕ) → strcmp s s ≡ pos 0
    strcmp_self s = unfold strcmp in rw (first_diff_self s, minus_self (length s))

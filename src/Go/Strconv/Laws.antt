-- ===== src/Go/Strconv/Laws.antt =====
-- What is formatted is parsed back; equality of texts.
use go_adstc.Prelude.{
  ℕ, zero, suc, ◌+◌, ◌-◌, ◌*◌, ◌/◌, ◌%◌, ◌^◌, ◌≤◌, ◌<◌, ◌≡◌, refl, ap, ◌∙◌, arith, All, All-append,
  length, length-append, sym,
}
use go_adstc.Prelude.{◌↔◌, Bool, true, false, List, [], ◌∷◌, ◌++◌, Option, none, some, inl, inr}
use go_adstc.Prelude.{Bool-cases, ltb}
use go_adstc.Go.Result.{Error, ok, syntax}
use go_adstc.Go.Int.{ℤ, pos, negsuc, neg, InRange}
use go_adstc.Go.Strconv.{text_eq, is_digit, parse_digits, parse_uint, check_sign, parse_int}
use go_adstc.Go.Strconv.{format_digits, format_uint, format_int}
use native.Mathlib.Nat.{pow-suc}
use native.Mathlib.Numerals.{towards_suc}

pub text_eq_iff : (s t : List ℕ) → (text_eq s t ≡ true) ↔ (s ≡ t)
unfolding text_eq
text_eq_iff [] [] = (λ _. refl, λ _. refl)
text_eq_iff [] (b ∷ bs) = (λ h. cc, λ h. cc)
text_eq_iff (a ∷ s) [] = (λ h. cc, λ h. cc)
text_eq_iff (a ∷ s) (b ∷ t) =
    (λ h. ground (arith, (text_eq_iff s t).0), λ h. ground (arith, (text_eq_iff s t).1))

parse_digits-append :
    (max n m : ℕ) (xs ys : List ℕ)
    → parse_digits max n xs ≡ (m, none)
    → parse_digits max n (xs ++ ys) ≡ parse_digits max m ys
unfolding parse_digits
parse_digits-append max n m [] ys h = ground arith
parse_digits-append max n m (c ∷ xs) ys h =
    ground (arith, parse_digits-append max (n * 10 + (c - b'0')) m xs ys)

-- One more digit, read after a number.
parse_last_digit :
    (max n d : ℕ)
    → d < 10
    → n * 10 + d ≤ max
    → parse_digits max n ((b'0' + d) ∷ []) ≡ (n * 10 + d, none)
unfolding parse_digits is_digit
parse_last_digit max n d hd hm = ground arith

small_digit : (f n : ℕ) → n < 10 → format_digits (suc f) n ≡ (b'0' + n) ∷ []
unfolding format_digits
small_digit f n h = ground arith

more_digits :
    (f n : ℕ)
    → 10 ≤ n
    → format_digits (suc f) n ≡ format_digits f (n / 10) ++ ((b'0' + n % 10) ∷ [])
unfolding format_digits
more_digits f n h = ground arith

parse_digits-format :
    (f max n : ℕ)
    → n < 10 ^ f
    → n ≤ max
    → 0 < f
    → parse_digits max 0 (format_digits f n) ≡ (n, none)
parse_digits-format zero max n h hm hf = absurd (omega arith)
parse_digits-format (suc f) max n h hm hf = elim (Bool-cases (ltb n 10)) [
  | inl small ↦ rw (small_digit f n (ground arith)) (
      parse_last_digit max 0 n (ground arith) (omega arith)
      ∙ ap (λ (t : ℕ). (t, none)) (omega arith))
  | inr big ↦
      let le : 10 ≤ n = ground arith in
      let pow : 10 ^ suc f ≡ 10 ^ f * 10 = pow-suc 10 f in
      let room : n / 10 < 10 ^ f = omega (arith, pow) in
      let some_fuel : 0 < f = more_fuel f n le h in
      rw (more_digits f n le) (
        parse_digits-append max 0 (n / 10) (format_digits f (n / 10)) ((b'0' + n % 10) ∷ [])
          (parse_digits-format f max (n / 10) room (omega arith) some_fuel)
        ∙ parse_last_digit max (n / 10) (n % 10) (omega arith) (omega arith)
        ∙ ap (λ (t : ℕ). (t, none)) (omega arith))
]
  where
    more_fuel : (f n : ℕ) → 10 ≤ n → n < 10 ^ suc f → 0 < f
    more_fuel zero n le h = absurd (omega arith)
    more_fuel (suc f) n le h = omega arith

pub format_digits-All : (f n : ℕ) → All (λ d. is_digit d ≡ true) (format_digits f n)
unfolding format_digits is_digit
format_digits-All zero n = tt
format_digits-All (suc f) n = elim (Bool-cases (ltb n 10)) [
  | inl small ↦ rw (small_digit f n (ground arith)) (ground arith, tt)
  | inr big ↦
      rw (more_digits f n (ground arith)) (
        All-append _ (format_digits f (n / 10)) _ (format_digits-All f (n / 10)) (ground arith, tt))
]

format_digits_pos : (f n : ℕ) → 0 < length (format_digits (suc f) n)
unfolding format_digits
format_digits_pos f n = elim (Bool-cases (ltb n 10)) [
  | inl small ↦ rw (small_digit f n (ground arith)) (omega arith)
  | inr big ↦
      rw (more_digits f n (ground arith))
        (omega (arith, length-append (format_digits f (n / 10)) ((b'0' + n % 10) ∷ [])))
]

-- A numeral has a first digit.
pub format_uint_head :
    (n : ℕ) → (c : ℕ) × (cs : List ℕ) × (format_uint n ≡ c ∷ cs) × (is_digit c ≡ true)
unfolding format_uint
format_uint_head n = first (format_digits 20 n) (format_digits_pos 19 n) (format_digits-All 20 n)
  where
    first :
        (s : List ℕ)
        → 0 < length s
        → All (λ d. is_digit d ≡ true) s
        → (c : ℕ) × (cs : List ℕ) × (s ≡ c ∷ cs) × (is_digit c ≡ true)
    first [] h a = absurd (omega arith)
    first (c ∷ cs) h a = (c, cs, refl, a.0)

pub format_uint-All : (n : ℕ) → All (λ d. is_digit d ≡ true) (format_uint n)
unfolding format_uint
format_uint-All n = format_digits-All 20 n

-- strconv.ParseUint reads back what strconv.FormatUint writes, where it fits the width.
pub parse_uint-format_uint :
    (bits n : ℕ) → n < 2 ^ bits → n < 10 ^ 20 → parse_uint bits (format_uint n) ≡ (n, none)
unfolding parse_uint
parse_uint-format_uint bits n h h20 =
    let (c, cs, e, d) = format_uint_head n in rw e (rw e at digits)
  where
    digits : parse_digits (2 ^ bits - 1) 0 (format_uint n) ≡ (n, none)
    digits =
        unfold format_uint in
        parse_digits-format 20 (2 ^ bits - 1) n h20 (omega arith) (omega arith)

plain_sign :
    (bits c : ℕ) (cs : List ℕ)
    → is_digit c ≡ true
    → parse_int bits (c ∷ cs) ≡ check_sign (2 ^ (bits - 1)) false (parse_uint bits (c ∷ cs))
unfolding parse_int is_digit
plain_sign bits c cs h = ground arith

minus_sign :
    (bits : ℕ) (cs : List ℕ)
    → parse_int bits (b'-' ∷ cs) ≡ check_sign (2 ^ (bits - 1)) true (parse_uint bits cs)
unfolding parse_int
minus_sign bits cs = refl

check_pos : (half n : ℕ) → n < half → check_sign half false (n, none) ≡ ok (pos n)
unfolding check_sign
check_pos half n h = ground arith

check_neg : (half n : ℕ) → n < half → check_sign half true (n + 1, none) ≡ ok (negsuc n)
unfolding check_sign
check_neg half n h = simp towards_suc (ground arith)

-- strconv.ParseInt reads back what strconv.FormatInt writes, where it fits the width.
pub parse_int-format_int :
    (bits : ℕ) (z : ℤ)
    → InRange (2 ^ (bits - 1)) z
    → 2 ^ (bits - 1) < 2 ^ bits
    → 2 ^ bits < 10 ^ 20
    → parse_int bits (format_int z) ≡ ok z
unfolding format_int
parse_int-format_int bits (pos n) h hb h20 =
    let (c, cs, e, d) = format_uint_head n in
    ap (parse_int bits) e
    ∙ plain_sign bits c cs d
    ∙ ap (λ (s : List ℕ). check_sign (2 ^ (bits - 1)) false (parse_uint bits s)) (sym e)
    ∙ ap (check_sign (2 ^ (bits - 1)) false)
        (parse_uint-format_uint bits n (omega arith) (omega arith))
    ∙ check_pos (2 ^ (bits - 1)) n h
parse_int-format_int bits (negsuc n) h hb h20 =
    minus_sign bits (format_uint (n + 1))
    ∙ ap (check_sign (2 ^ (bits - 1)) true)
        (parse_uint-format_uint bits (n + 1) (omega arith) (omega arith))
    ∙ check_neg (2 ^ (bits - 1)) n h

parse_digits_le :
    (max n m : ℕ) (cs : List ℕ) → n ≤ max → parse_digits max n cs ≡ (m, none) → m ≤ max
unfolding parse_digits
parse_digits_le max n m [] h e = ground arith
parse_digits_le max n m (c ∷ cs) h e =
    ground (arith, parse_digits_le max (n * 10 + (c - b'0')) m cs)

-- What ParseUint accepts fits the width.
pub parse_uint_lt :
    (bits : ℕ) (s : List ℕ) (n : ℕ) → 0 < 2 ^ bits → parse_uint bits s ≡ (n, none) → n < 2 ^ bits
unfolding parse_uint
parse_uint_lt bits [] n h e = cc
parse_uint_lt bits (c ∷ cs) n h e =
    omega (arith, parse_digits_le (2 ^ bits - 1) 0 n (c ∷ cs) (omega arith) e)

neg-InRange : (half n : ℕ) → 0 < half → n ≤ half → InRange half (neg n)
neg-InRange half zero h k = h
neg-InRange half (suc n) h k = k

check_sign-InRange :
    (half : ℕ) (b : Bool) (r : ℕ × Option Error) (z : ℤ)
    → 0 < half
    → check_sign half b r ≡ ok z
    → InRange half z
unfolding check_sign
check_sign-InRange half false (un, none) z h e = ground arith
check_sign-InRange half true (un, none) z h e = ground (arith, neg-InRange half un)
check_sign-InRange half true (un, some syntax) z h e = cc
check_sign-InRange half false (un, some syntax) z h e = cc
check_sign-InRange half false (un, some _) z h e = ground arith
check_sign-InRange half true (un, some _) z h e = ground (arith, neg-InRange half un)

-- What ParseInt accepts fits the width.
pub parse_int-InRange :
    (bits : ℕ) (s : List ℕ) (z : ℤ)
    → 0 < 2 ^ (bits - 1)
    → parse_int bits s ≡ ok z
    → InRange (2 ^ (bits - 1)) z
unfolding parse_int
parse_int-InRange bits [] z h e = cc
parse_int-InRange bits (c ∷ cs) z h e = ground (
  arith,
  check_sign-InRange (2 ^ (bits - 1)) true (parse_uint bits cs) z,
  check_sign-InRange (2 ^ (bits - 1)) false (parse_uint bits cs) z,
  check_sign-InRange (2 ^ (bits - 1)) false (parse_uint bits (c ∷ cs)) z,
)

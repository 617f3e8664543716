-- ===== src/Go/Space.antt =====
-- bytes.TrimSpace: Unicode white space in UTF-8, and bytes.IndexByte for a zero.
use go_adstc.Prelude.{ℕ, ◌<◌, ◌≡◌, refl, ap, sym, ◌∙◌, arith, Bool, false, ◌&&◌, ◌||◌, leb, ◌==◌}
use go_adstc.Prelude.{List, [], ◌∷◌, ◌++◌, if◌then◌else◌, All}
use mathlib.Core.List.{reverse, reverse-append, reverse-reverse}

-- '\t', '\n', '\v', '\f', '\r', ' '
unfoldable pub ascii_space : ℕ → Bool
ascii_space c = c == 32 || (leb 9 c && leb c 13)

-- U+0085 and U+00A0
unfoldable pub space_of_two : ℕ → ℕ → Bool
space_of_two a b = a == 0xc2 && (b == 0x85 || b == 0xa0)

-- U+1680, U+2000 to U+200A, U+2028, U+2029, U+202F, U+205F and U+3000
unfoldable pub space_of_three : ℕ → ℕ → ℕ → Bool
space_of_three a b c =
    (a == 0xe1 && (b == 0x9a && c == 0x80))
    || ((a == 0xe2
          && ((b == 0x80 && ((leb 0x80 c && leb c 0x8a) || (c == 0xa8 || (c == 0xa9 || c == 0xaf))))
              || (b == 0x81 && c == 0x9f)))
        || (a == 0xe3 && (b == 0x80 && c == 0x80)))

-- White space off the front, where `two` and `three` know the characters of two and three bytes.
unfoldable pub trim_by : (ℕ → ℕ → Bool) → (ℕ → ℕ → ℕ → Bool) → List ℕ → List ℕ
trim_by two three [] = []
trim_by two three (a ∷ []) = if ascii_space a then [] else a ∷ []
trim_by two three (a ∷ b ∷ []) =
    let after_one = trim_by two three (b ∷ []) in
    if ascii_space a then after_one else if two a b then [] else a ∷ b ∷ []
trim_by two three (a ∷ b ∷ c ∷ rest) =
    let after_one = trim_by two three (b ∷ c ∷ rest) in
    let after_two = trim_by two three (c ∷ rest) in
    let after_three = trim_by two three rest in
    if ascii_space a
    then after_one
    else if two a b
    then after_two
    else if three a b c
    then after_three
    else a ∷ b ∷ c ∷ rest

unfoldable pub trim_left : List ℕ → List ℕ
unfolding trim_by ascii_space space_of_two space_of_three
trim_left s = trim_by space_of_two space_of_three s

-- The last character of a text is the first of the reversed bytes.
unfoldable pub trim_right : List ℕ → List ℕ
unfolding trim_by ascii_space space_of_two space_of_three
trim_right s =
    reverse (trim_by (λ a b. space_of_two b a) (λ a b c. space_of_three c b a) (reverse s))

unfoldable pub trim_space : List ℕ → List ℕ
unfolding trim_left trim_right
trim_space s = trim_right (trim_left s)

-- The bytes before the first zero: all, if there is none.
unfoldable pub before_zero : List ℕ → List ℕ
before_zero [] = []
before_zero (b ∷ bs) = if b == 0 then [] else b ∷ before_zero bs

-- Whether the first character, of one, two or three bytes, is white space.
unfoldable pub begins_space : List ℕ → Bool
begins_space [] = false
begins_space (a ∷ []) = ascii_space a
begins_space (a ∷ b ∷ []) = ascii_space a || space_of_two a b
begins_space (a ∷ b ∷ c ∷ s) = ascii_space a || (space_of_two a b || space_of_three a b c)

trim_left_first : (s : List ℕ) → begins_space s ≡ false → trim_left s ≡ s
unfolding trim_left begins_space
trim_left_first [] h = refl
trim_left_first (a ∷ []) h = ground arith
trim_left_first (a ∷ b ∷ []) h = ground arith
trim_left_first (a ∷ b ∷ c ∷ s) h = ground arith

-- A zero behind a text makes no white space of its beginning.
pub begins_space-append :
    (s rest : List ℕ) → begins_space s ≡ false → begins_space (s ++ (0 ∷ rest)) ≡ false
unfolding begins_space ascii_space space_of_two space_of_three
begins_space-append [] [] h = refl
begins_space-append [] (b ∷ []) h = ground arith
begins_space-append [] (b ∷ c ∷ rest) h = ground arith
begins_space-append (a ∷ []) [] h = ground arith
begins_space-append (a ∷ []) (c ∷ rest) h = ground arith
begins_space-append (a ∷ b ∷ []) rest h = ground arith
begins_space-append (a ∷ b ∷ c ∷ s) rest h = h

trim_reversed_zero :
    (s : List ℕ) → trim_by (λ a b. space_of_two b a) (λ a b c. space_of_three c b a) (0 ∷ s) ≡ 0 ∷ s
unfolding trim_by ascii_space space_of_two space_of_three
trim_reversed_zero [] = ground arith
trim_reversed_zero (b ∷ []) = ground arith
trim_reversed_zero (b ∷ d ∷ s) = ground arith

pub trim_right_zero : (s : List ℕ) → trim_right (s ++ (0 ∷ [])) ≡ s ++ (0 ∷ [])
trim_right_zero s =
    unfold trim_right in
    ap
      (λ (t : List ℕ).
        reverse (trim_by (λ a b. space_of_two b a) (λ a b c. space_of_three c b a) t))
      (reverse-append s (0 ∷ []))
    ∙ ap reverse (trim_reversed_zero (reverse s))
    ∙ ap reverse (sym (reverse-append s (0 ∷ [])))
    ∙ reverse-reverse (s ++ (0 ∷ []))

-- A text that begins with no white space and ends in a zero is not trimmed.
pub trim_space_plain :
    (s : List ℕ) → begins_space (s ++ (0 ∷ [])) ≡ false → trim_space (s ++ (0 ∷ [])) ≡ s ++ (0 ∷ [])
trim_space_plain s h =
    unfold trim_space in ap trim_right (trim_left_first (s ++ (0 ∷ [])) h) ∙ trim_right_zero s

pub before_zero-append : (s rest : List ℕ) → All (λ b. 0 < b) s → before_zero (s ++ (0 ∷ rest)) ≡ s
unfolding before_zero
before_zero-append [] rest h = refl
before_zero-append (b ∷ s) rest h = ground (arith, before_zero-append s rest h.1)

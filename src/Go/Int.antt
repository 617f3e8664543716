-- ===== src/Go/Int.antt =====
-- Go's signed integers over the native numbers, and their two's complement bytes.
use go_adstc.Prelude.{ℕ, zero, suc, ◌+◌, ◌-◌, ◌*◌, ◌/◌, ◌%◌, ◌<◌, ◌≡◌, arith}
use native.Mathlib.Nat.{mod-eq_of_lt, mod-lt}
use go_adstc.Prelude.{false, Bool, ◌==◌, ltb, if◌then◌else◌}

-- `negsuc n` is -(n + 1).
pub data ℤ : Type 0 where
  pos : ℕ → ℤ
  negsuc : ℕ → ℤ

abbrev pub is_zero : ℤ → Bool
is_zero (pos n) = n == 0
is_zero (negsuc n) = false

-- -n
abbrev pub neg : ℕ → ℤ
neg zero = pos 0
neg (suc n) = negsuc n

-- The integer that a word below `2 * half` stands for.
abbrev pub signed : ℕ → ℕ → ℤ
signed half w = if ltb w half then pos w else neg (2 * half - w)

-- The word that stands for an integer: its residue mod `2 * half`.
abbrev pub unsigned : ℕ → ℤ → ℕ
unsigned half (pos n) = n % (2 * half)
unsigned half (negsuc n) = 2 * half - 1 - n % (2 * half)

-- -half ≤ z < half
abbrev pub InRange : ℕ → ℤ → Type 0
InRange half (pos n) = n < half
InRange half (negsuc n) = n < half

pub signed-unsigned : (half : ℕ) (z : ℤ) → InRange half z → signed half (unsigned half z) ≡ z
signed-unsigned half (pos n) h =
    let small : n % (2 * half) ≡ n = mod-eq_of_lt (omega arith) in rw small (ground arith)
signed-unsigned half (negsuc n) h =
    let small : n % (2 * half) ≡ n = mod-eq_of_lt (omega arith) in
    let word : 2 * half - (2 * half - 1 - n) ≡ suc n = omega arith in
    let high : ltb (2 * half - 1 - n) half ≡ false = ground arith in rw (small, high, word)

pub unsigned-lt : (half : ℕ) (z : ℤ) → 0 < half → unsigned half z < 2 * half
unsigned-lt half (pos n) h = mod-lt n (omega arith)
unsigned-lt half (negsuc n) h = omega arith

-- Division and remainder of an int64 by a positive constant truncate towards zero.
unfoldable pub quot : ℤ → ℕ → ℤ
quot (pos n) d = pos (n / d)
quot (negsuc n) d = neg (suc n / d)

unfoldable pub rem : ℤ → ℕ → ℤ
rem (pos n) d = pos (n % d)
rem (negsuc n) d = neg (suc n % d)

-- z - k
unfoldable pub minus : ℤ → ℕ → ℤ
minus (pos n) k = if ltb n k then neg (k - n) else pos (n - k)
minus (negsuc n) k = negsuc (n + k)

-- z * k
unfoldable pub times : ℤ → ℕ → ℤ
times (pos n) k = pos (n * k)
times (negsuc n) k = neg (suc n * k)

-- ===== src/Value/Strings.antt =====
-- Strings in fields of a fixed size, written and read back.
use go_adstc.Prelude.{ℕ, zero, suc, ◌-◌, ◌≤◌, ◌<◌, ◌≡◌, refl, ap, ◌∙◌, sym, arith}
use go_adstc.Prelude.{List, [], ◌∷◌, ◌++◌, length, take}
use go_adstc.Prelude.{
  replicate, All, take_all, append_assoc, length-append, length-take, length-replicate,
}
use go_adstc.Go.Result.{ok}
use go_adstc.Go.Space.{trim_space, before_zero, trim_space_plain, before_zero-append, begins_space}
use go_adstc.Go.Space.{begins_space-append}
use go_adstc.Prelude.{false}
use go_adstc.Symbol.{Text}
use go_adstc.Value.{string}
use go_adstc.Value.{Formats, parse_kind}
use go_adstc.Value.{write_kind, fixed}

zeros : ℕ → List ℕ
zeros n = replicate n 0

zeros_last : (n : ℕ) → zeros (suc n) ≡ zeros n ++ (0 ∷ [])
unfolding zeros
zeros_last zero = refl
zeros_last (suc n) = ap (λ (t : List ℕ). 0 ∷ t) (zeros_last n)

-- A text in a larger field of zeros.
fixed_short :
    (size : ℕ) (v : Text) → length v < size → fixed size v ≡ v ++ zeros (suc (size - length v - 1))
unfolding zeros
fixed_short size v h =
    let more : size - length v ≡ suc (size - length v - 1) = omega arith in
    rw (take_all size v (omega arith)) (ap (λ (n : ℕ). v ++ zeros n) more)

length-fixed : (size : ℕ) (v : Text) → length v ≤ size → length (fixed size v) ≡ size
length-fixed size v h = omega (
  arith,
  length-append (take size v) (replicate (size - length v) 0),
  length-take size v,
  length-replicate {0} {A = ℕ} (size - length v) 0,
)

before_zero-fixed :
    (k : ℕ) (v : Text)
    → All (λ b. 0 < b) v
    → begins_space v ≡ false
    → before_zero (trim_space (v ++ zeros (suc k))) ≡ v
unfolding zeros
before_zero-fixed k v nonzero plain =
    ap (λ (t : List ℕ). before_zero (trim_space t)) front
    ∙ ap before_zero
        (trim_space_plain (v ++ zeros k) (rw (← front) (begins_space-append v (zeros k) plain)))
    ∙ ap before_zero (sym front)
    ∙ before_zero-append v (zeros k) nonzero
  where
    front : v ++ (0 ∷ zeros k) ≡ (v ++ zeros k) ++ (0 ∷ [])
    front = ap (λ (t : List ℕ). v ++ t) (zeros_last k) ∙ sym (append_assoc v (zeros k) (0 ∷ []))

-- A string shorter than its symbol, with no zero byte, whose first character is no white space of
-- ASCII or Unicode, is written in as many bytes as the symbol has and read back as it was.
pub parse-write_string :
    (fmts : Formats) (size : ℕ) (v : Text)
    → length v < size
    → All (λ b. 0 < b) v
    → begins_space v ≡ false
    → (bytes : List ℕ) × (write_kind fmts string size v ≡ ok bytes)
      × (length bytes ≡ size)
      × (parse_kind fmts string bytes ≡ ok v)
unfolding write_kind parse_kind
parse-write_string fmts size v short nonzero plain = (
  fixed size v,
  refl,
  length-fixed size v (omega arith),
  ap ok (
      ap (λ (t : List ℕ). before_zero (trim_space t)) (fixed_short size v short)
      ∙ before_zero-fixed (size - length v - 1) v nonzero plain),
)

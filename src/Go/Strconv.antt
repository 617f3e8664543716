-- ===== src/Go/Strconv.antt =====
-- strconv and the part of bytes that the program calls. Text is a list of bytes.
pub mod Laws
use go_adstc.Prelude.{ℕ, zero, suc, ◌+◌, ◌-◌, ◌*◌, ◌/◌, ◌%◌, ◌^◌, Bool, true, false, ◌&&◌, not}
use go_adstc.Prelude.{List, [], ◌∷◌, ◌++◌, Option, none, some, ltb, leb, ◌==◌, if◌then◌else◌}
use go_adstc.Go.Result.{Error, Result, ok, err, syntax, out_of_range}
use go_adstc.Go.Bytes.{codes}
use go_adstc.Go.Int.{ℤ, pos, negsuc, neg}

-- `a == b` on strings.
unfoldable pub text_eq : List ℕ → List ℕ → Bool
text_eq [] [] = true
text_eq [] (b ∷ bs) = false
text_eq (a ∷ as') [] = false
text_eq (a ∷ as') (b ∷ bs) = (a == b) && text_eq as' bs

unfoldable pub is_digit : ℕ → Bool
is_digit c = leb b'0' c && leb c b'9'

-- strconv.ParseUint(s, 10, bits), digit by digit: the value, and the error if there is one. The
-- value returned with a range error is the largest. As `max` is at most 2^32 - 1 here, the test for
-- an overflow of 64 bits never fires, and is left out.
parse_digits : ℕ → ℕ → List ℕ → ℕ × Option Error
parse_digits max n [] = (n, none)
parse_digits max n (c ∷ cs) =
    let n1 = n * 10 + (c - b'0') in
    let rest = parse_digits max n1 cs in
    if is_digit c then (if ltb max n1 then (max, some out_of_range) else rest) else (0, some syntax)

unfoldable pub parse_uint : ℕ → List ℕ → ℕ × Option Error
unfolding parse_digits is_digit
parse_uint bits [] = (0, some syntax)
parse_uint bits (c ∷ cs) = parse_digits (2 ^ bits - 1) 0 (c ∷ cs)

-- The digits and the sign of strconv.ParseInt(s, 10, bits); `half` is 1 << (bits - 1).
unfoldable pub check_sign : ℕ → Bool → ℕ × Option Error → Result ℤ
check_sign half true (un, some syntax) = err syntax
check_sign half false (un, some syntax) = err syntax
check_sign half false (un, e) = if leb half un then err out_of_range else ok (pos un)
check_sign half true (un, e) = if ltb half un then err out_of_range else ok (neg un)

unfoldable pub parse_int : ℕ → List ℕ → Result ℤ
parse_int bits [] = err syntax
parse_int bits (c ∷ cs) =
    let half = 2 ^ (bits - 1) in
    if c == b'-'
    then check_sign half true (parse_uint bits cs)
    else if c == b'+'
    then check_sign half false (parse_uint bits cs)
    else check_sign half false (parse_uint bits (c ∷ cs))

-- `v, e := ParseUint(…); if e != nil { return … }`
abbrev pub checked : ℕ × Option Error → Result ℕ
checked (v, none) = ok v
checked (v, some e) = err e

-- The decimal digits of a number below 10 ^ fuel.
unfoldable pub format_digits : ℕ → ℕ → List ℕ
format_digits zero n = []
format_digits (suc f) n =
    let front = format_digits f (n / 10) in
    if ltb n 10 then (b'0' + n) ∷ [] else front ++ ((b'0' + n % 10) ∷ [])

-- strconv.FormatUint(n, 10): a uint64 has 20 digits at most.
unfoldable pub format_uint : ℕ → List ℕ
unfolding format_digits
format_uint n = format_digits 20 n

-- strconv.FormatInt(z, 10)
unfoldable pub format_int : ℤ → List ℕ
unfolding format_uint
format_int (pos n) = format_uint n
format_int (negsuc n) = b'-' ∷ format_uint (n + 1)

-- The texts that strconv.ParseBool accepts.
abbrev pub truths : List (List ℕ)
truths = codes "1" ∷ codes "t" ∷ codes "T" ∷ codes "true" ∷ codes "TRUE" ∷ codes "True" ∷ []

abbrev pub falsehoods : List (List ℕ)
falsehoods = codes "0" ∷ codes "f" ∷ codes "F" ∷ codes "false" ∷ codes "FALSE" ∷ codes "False" ∷ []

unfoldable pub includes : List (List ℕ) → List ℕ → Bool
includes [] t = false
includes (v ∷ vs) t = if text_eq v t then true else includes vs t

-- strconv.ParseBool
unfoldable pub parse_bool : List ℕ → Result Bool
parse_bool s =
    if includes truths s then ok true else if includes falsehoods s then ok false else err syntax

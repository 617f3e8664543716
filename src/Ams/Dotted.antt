-- ===== src/Ams/Dotted.antt =====
-- stringToNetID of ams.go: an AMS net id from its dotted text.
use go_adstc.Prelude.{All, append-nil, append_assoc, ◌<◌, ◌≡◌, arith, true}
use go_adstc.Prelude.{ℕ, zero, suc, ◌%◌, List, [], ◌∷◌, ◌++◌, ◌==◌, if◌then◌else◌}
use go_adstc.Go.Result.{Result, ok, panic, ◌>>=◌}
use go_adstc.Go.Strconv.{parse_uint, format_uint, is_digit}
use go_adstc.Go.Strconv.Laws.{parse_uint-format_uint, format_uint-All}
use go_adstc.Ams.{NetId}

-- strings.Split(source, "."): the piece that is being read is `piece`.
unfoldable pub split_dots : List ℕ → List ℕ → List (List ℕ)
split_dots piece [] = piece ∷ []
split_dots piece (c ∷ cs) =
    let closed = split_dots [] cs in
    let longer = split_dots (piece ++ (c ∷ [])) cs in if c == b'.' then piece ∷ closed else longer

-- `result[i] = v`: an index past 5 panics.
unfoldable pub set_byte : NetId → ℕ → ℕ → Result NetId
set_byte r zero v = ok (record r { b0 = v })
set_byte r (suc zero) v = ok (record r { b1 = v })
set_byte r (suc (suc zero)) v = ok (record r { b2 = v })
set_byte r (suc (suc (suc zero))) v = ok (record r { b3 = v })
set_byte r (suc (suc (suc (suc zero)))) v = ok (record r { b4 = v })
set_byte r (suc (suc (suc (suc (suc zero))))) v = ok (record r { b5 = v })
set_byte r (suc (suc (suc (suc (suc (suc i)))))) v = panic

-- The loop over the pieces: the error of ParseUint is dropped, its value kept.
unfoldable pub fill : NetId → ℕ → List (List ℕ) → Result NetId
fill r i [] = ok r
fill r i (a ∷ rest) =
    set_byte r i ((parse_uint 8 a).0 % 256) >>= λ (r' : NetId). fill r' (suc i) rest

abbrev pub zero_net_id : NetId
zero_net_id = record { b0 = 0; b1 = 0; b2 = 0; b3 = 0; b4 = 0; b5 = 0 }

unfoldable pub string_to_net_id : List ℕ → Result NetId
unfolding fill split_dots set_byte
string_to_net_id source = fill zero_net_id 0 (split_dots [] source)

-- The pieces of a dotted text.
abbrev pub joined : List ℕ → List (List ℕ) → List ℕ
joined first [] = first
joined first (p ∷ ps) = first ++ (b'.' ∷ joined p ps)

-- The usual text of a net id.
abbrev pub net_id_text : NetId → List ℕ
net_id_text r = joined (format_uint r.b0) (
    format_uint r.b1
    ∷ format_uint r.b2
    ∷ format_uint r.b3
    ∷ format_uint r.b4
    ∷ format_uint r.b5
    ∷ [])

abbrev pub IsNetId : NetId → Type 0
IsNetId r = (r.b0 < 256) × (r.b1 < 256) × (r.b2 < 256) × (r.b3 < 256) × (r.b4 < 256) × (r.b5 < 256)

-- The text of digits up to a dot, or to the end, is one piece.
split_dots-digits :
    (piece s rest : List ℕ)
    → All (λ d. is_digit d ≡ true) s
    → split_dots piece (s ++ (b'.' ∷ rest)) ≡ (piece ++ s) ∷ split_dots [] rest
unfolding split_dots is_digit
split_dots-digits piece [] rest h = rw append-nil
split_dots-digits piece (c ∷ s) rest h =
    ground (arith, split_dots-digits (piece ++ (c ∷ [])) s rest h.1, append_assoc piece (c ∷ []) s)

split_dots-last :
    (piece s : List ℕ) → All (λ d. is_digit d ≡ true) s → split_dots piece s ≡ (piece ++ s) ∷ []
unfolding split_dots is_digit
split_dots-last piece [] h = rw append-nil
split_dots-last piece (c ∷ s) h =
    ground (arith, split_dots-last (piece ++ (c ∷ [])) s h.1, append_assoc piece (c ∷ []) s)

byte_of_text : (n : ℕ) → n < 256 → (parse_uint 8 (format_uint n)).0 % 256 ≡ n
byte_of_text n h = rw (parse_uint-format_uint 8 n h (omega arith)) (omega arith)

-- stringToNetID reads back the dotted decimal text of every net id.
pub string_to_net_id-text : (r : NetId) → IsNetId r → string_to_net_id (net_id_text r) ≡ ok r
unfolding string_to_net_id
string_to_net_id-text r h = rw (
  split_dots-digits [] (format_uint r.b0) _ (format_uint-All r.b0),
  split_dots-digits [] (format_uint r.b1) _ (format_uint-All r.b1),
  split_dots-digits [] (format_uint r.b2) _ (format_uint-All r.b2),
  split_dots-digits [] (format_uint r.b3) _ (format_uint-All r.b3),
  split_dots-digits [] (format_uint r.b4) _ (format_uint-All r.b4),
  split_dots-last [] (format_uint r.b5) (format_uint-All r.b5),
  byte_of_text r.b0 h.0,
  byte_of_text r.b1 h.1,
  byte_of_text r.b2 h.2,
  byte_of_text r.b3 h.3,
  byte_of_text r.b4 h.4,
  byte_of_text r.b5 h.5,
)

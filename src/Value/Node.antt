-- ===== src/Value/Node.antt =====
-- `writeToNode` and `parse` on a symbol without children, by the name of its type.
use go_adstc.Prelude.{ℕ, ◌-◌, ◌≤◌, ◌≡◌, ap, ◌∙◌, sym, arith}
use go_adstc.Prelude.{true, false, List, length, take, none, some}
use go_adstc.Prelude.{le→ltb, take_all}
use go_adstc.Go.Result.{Result, ok, err, ◌>>=◌, unknown_format}
use go_adstc.Go.Strconv.{includes}
use go_adstc.Symbol.{Text, UploadType, lookup}
use go_adstc.Value.{Kind, string}
use go_adstc.Value.{kind_of, Formats, parse_kind, sliced, parse_known, parse_leaf, stop_of}
use go_adstc.Value.{parseable_types, base_type, write_type, write_kind, write_known, write_to_node}
use go_adstc.Value.RoundTrip.{IsExact, width, canonical, parse-write}

-- The types of exact kinds are all parseable.
exact_parseable :
    (d : Text) (k : Kind) → kind_of d ≡ some k → IsExact k → includes parseable_types d ≡ true
unfolding kind_of lookup includes
exact_parseable d k e h = ground arith

take_exact : (bytes : List ℕ) → take (length bytes - 0) bytes ≡ bytes
take_exact bytes = take_all (length bytes - 0) bytes (omega arith)

sliced_whole :
    (k : Kind) (bytes : List ℕ) (f : List ℕ → Result Text)
    → sliced k 0 (length bytes) bytes f ≡ f bytes
sliced_whole string bytes f = rw (le→ltb (length bytes) 0 (omega arith)) (ap f (take_exact bytes))
sliced_whole k bytes f = ap f (take_exact bytes)

parse_leaf-kind :
    (fmts : Formats) (d : Text) (k : Kind) (bytes : List ℕ)
    → kind_of d ≡ some k
    → parse_leaf fmts d (length bytes) bytes 0
      ≡ (parse_kind fmts k bytes >>= λ (v : Text). ok (some v))
unfolding parse_leaf
parse_leaf-kind fmts d k bytes e =
    rw (le→ltb (length bytes) (length bytes) (omega arith), e)
      (unfold parse_known in
        let stop : stop_of (length bytes) 0 bytes ≡ length bytes = ground arith in
        rw (stop, sliced_whole k bytes (parse_kind fmts k)))

write_to_node-kind :
    (fmts : Formats) (datatypes : List (Text × UploadType)) (d : Text) (k : Kind) (size : ℕ)
    (v : Text)
    → kind_of d ≡ some k
    → IsExact k
    → write_to_node fmts datatypes false d size v ≡ write_kind fmts k size v
unfolding write_to_node write_type write_known
write_to_node-kind fmts datatypes d k size v e h = rw (exact_parseable d k e h, e)

-- For a symbol of a BOOL or integer type with that type's size, the bytes that writeToNode makes of
-- an accepted text are read by parse as the canonical text of the same value.
pub parse_leaf-write_to_node :
    (fmts : Formats) (datatypes : List (Text × UploadType)) (d : Text) (k : Kind) (v : Text)
    (bytes : List ℕ)
    → kind_of d ≡ some k
    → IsExact k
    → write_to_node fmts datatypes false d (width k) v ≡ ok bytes
    → parse_leaf fmts d (width k) bytes 0 ≡ ok (some (canonical k v))
parse_leaf-write_to_node fmts datatypes d k v bytes e h w =
    let (l, r, _) =
      parse-write fmts k (width k) v bytes h
        (sym (write_to_node-kind fmts datatypes d k (width k) v e h) ∙ w) in
    ap (λ (n : ℕ). parse_leaf fmts d n bytes 0) (sym l) ∙ parse_leaf-kind fmts d k bytes e ∙ rw r

base_kind :
    (fmts : Formats) (datatypes : List (Text × UploadType)) (d : Text) (k : Kind) (size : ℕ)
    (v : Text)
    → kind_of d ≡ none
    → includes parseable_types d ≡ false
    → kind_of (base_type datatypes d) ≡ some k
    → IsExact k
    → write_to_node fmts datatypes false d size v ≡ write_kind fmts k size v
unfolding write_to_node write_type write_known
base_kind fmts datatypes d k size v n p e h =
    rw (p, exact_parseable (base_type datatypes d) k e h, e)

unknown_parseable : (d : Text) → kind_of d ≡ none → includes parseable_types d ≡ false
unfolding kind_of lookup includes
unknown_parseable d e = ground arith

-- For a symbol whose type parse does not know, but whose data type stands for a BOOL or integer
-- type, writeToNode writes as that type, while parse refuses data of the symbol's size with an
-- unknown format.
pub alias_write_only :
    (fmts : Formats) (datatypes : List (Text × UploadType)) (d : Text) (k : Kind) (size : ℕ)
    (v : Text) (bytes : List ℕ) (start : ℕ)
    → kind_of d ≡ none
    → kind_of (base_type datatypes d) ≡ some k
    → IsExact k
    → size ≤ length bytes
    → (write_to_node fmts datatypes false d size v ≡ write_kind fmts k size v)
      × (parse_leaf fmts d size bytes start ≡ err unknown_format)
alias_write_only fmts datatypes d k size v bytes start n e h l = (
  base_kind fmts datatypes d k size v n (unknown_parseable d n) e h,
  unfold parse_leaf parse_known in rw (le→ltb (length bytes) size l, n),
)

-- ===== src/Symbol/Upload/Ends.antt =====
-- The parse of the uploaded data types ends on every input. A nested buffer may be longer than the
-- one that it was cut from, since a short read leaves zeros; but an entry that has children has used
-- up a byte that is not zero, so the depth of nesting is less than the number of such bytes.
use go_adstc.Prelude.{ℕ, zero, suc, ◌<◌, ◌≡◌, inl, inr, refl, arith}
use go_adstc.Prelude.{List, [], ◌∷◌, length, Option, some}
use go_adstc.Prelude.{false, ltb, ◌==◌, Bool-cases}
use go_adstc.Go.Binary.{read_padded}
use go_adstc.Symbol.{Text, UploadType, UploadChilds, no_childs, name_of}
use go_adstc.Symbol.{insert}
use go_adstc.Symbol.Arrays.{make_array_childs}
use go_adstc.Symbol.Upload.{zero_level, put_child, read_levels}
use go_adstc.Symbol.Upload.{Head, read_head, child_length, typed, sub_items_loop, read_childs}
use go_adstc.Symbol.Upload.{decode_data_type, parse_data_types_loop, parse_data_types}
use go_adstc.Symbol.Upload.Measure.{
  nonzero, nonzero-le-length, Shrinks, Shrinks-trans, Progress, read_head-Progress, nested-nonzero,
  behind_nested, nested,
}

-- A reading of one type: it ends, and takes from the buffer.
abbrev Reads : Option (UploadType × List ℕ) → List ℕ → Type 0
Reads o buf =
    (t : UploadType) × (rest : List ℕ) × (o ≡ some (t, rest))
    × Shrinks rest buf
    × (0 < length buf → length rest < length buf)

sub_items_loop_ends :
    (decode : List ℕ → Option (UploadType × List ℕ)) (m : ℕ)
    → ((b : List ℕ) → nonzero b < m → Reads (decode b) b)
    → (n : ℕ) (buf : List ℕ) (cs : UploadChilds) → nonzero buf < m
    → (all : UploadChilds) × (sub_items_loop decode n buf cs ≡ some all)
unfolding sub_items_loop
sub_items_loop_ends decode m reads zero buf cs h = (cs, refl)
sub_items_loop_ends decode m reads (suc n) buf cs h =
    let (t, rest, e, s, _) = reads buf h in
    let (all, p) =
      sub_items_loop_ends decode m reads n rest (put_child (name_of t) t cs) (omega arith) in
    (all, rw (e, sub_items_loop) p)

read_childs_ends :
    (decode : List ℕ → Option (UploadType × List ℕ)) (m : ℕ)
    → ((b : List ℕ) → nonzero b < m → Reads (decode b) b)
    → (h : Head) (buf : List ℕ) → nonzero buf < m
    → (all : UploadChilds) × (read_childs decode h buf ≡ some all)
unfolding read_childs
read_childs_ends decode m reads h buf lt = elim (Bool-cases (ltb 0 h.entry.array_dim)) [
  | inl array ↦ (
    make_array_childs (read_levels h.entry.array_dim zero_level buf) h.data_type h.entry.size,
    rw array,
  )
  | inr struct ↦
      let (all, p) = sub_items_loop_ends decode m reads h.entry.sub_items buf no_childs lt in
      (all, rw struct p)
]

pub decode_data_type_leaf :
    (fuel : ℕ) (buf : List ℕ)
    → child_length (read_head buf) buf ≡ 0
    → decode_data_type (suc fuel) buf ≡ some (typed (read_head buf) no_childs, (read_head buf).rest)
unfolding decode_data_type
decode_data_type_leaf fuel buf e = rw e

pub decode_data_type-nested :
    (fuel : ℕ) (buf : List ℕ) (cs : UploadChilds)
    → 0 < child_length (read_head buf) buf
    → read_childs (decode_data_type fuel) (read_head buf) (nested (read_head buf) buf) ≡ some cs
    → decode_data_type (suc fuel) buf
      ≡ some (
        typed (read_head buf) cs,
        (read_padded (child_length (read_head buf) buf) (read_head buf).rest).1,
      )
unfolding decode_data_type nested
decode_data_type-nested fuel buf cs h e =
    let no_leaf : (child_length (read_head buf) buf == 0) ≡ false = ground arith in rw (no_leaf, e)

decode_data_type_ends :
    (fuel : ℕ) (buf : List ℕ) → nonzero buf < fuel → Reads (decode_data_type fuel buf) buf
decode_data_type_ends zero buf h = absurd (omega arith)
decode_data_type_ends (suc fuel) buf h =
    let head : Head = read_head buf in
    let p : Progress buf head = read_head-Progress buf in
    let k : ℕ = child_length head buf in
    elim (Bool-cases (k == 0)) [
      | inl leaf ↦ (
        typed head no_childs,
        head.rest,
        decode_data_type_leaf fuel buf (ground arith),
        p.fewer,
        p.nonempty,
      )
      | inr more ↦
          let some_childs : 0 < k = ground arith in
          let fewer : nonzero head.rest < nonzero buf = p.claimed (omega arith) in
          let inside : nonzero (nested head buf) < fuel =
            unfold nested in omega (arith, nested-nonzero k head.rest) in
          let (cs, e) =
            read_childs_ends (decode_data_type fuel) fuel (decode_data_type_ends fuel) head
              (nested head buf) inside in
          let behind : Shrinks (read_padded k head.rest).1 head.rest = behind_nested k head.rest in
          (
            typed head cs,
            (read_padded k head.rest).1,
            decode_data_type-nested fuel buf cs some_childs e,
            Shrinks-trans (read_padded k head.rest).1 head.rest buf behind p.fewer,
            λ q. omega (arith, p.nonempty q),
          )
    ]

parse_data_types_loop_ends :
    (fuel : ℕ) (buf : List ℕ) (types : List (Text × UploadType))
    → length buf < fuel
    → (all : List (Text × UploadType)) × (parse_data_types_loop fuel buf types ≡ some all)
unfolding parse_data_types_loop
parse_data_types_loop_ends zero buf types h = absurd (omega arith)
parse_data_types_loop_ends (suc fuel) [] types h = (types, refl)
parse_data_types_loop_ends (suc fuel) (b ∷ bs) types h =
    let buf : List ℕ = b ∷ bs in
    let (t, rest, e, s, shorter) =
      decode_data_type_ends (suc (length buf)) buf (omega (arith, nonzero-le-length buf)) in
    let (all, p) =
      parse_data_types_loop_ends fuel rest (insert (name_of t) t types)
        (omega (arith, shorter (omega arith))) in
    (all, rw (e, parse_data_types_loop) p)

-- The parse of the data types ends on every input, however malformed, with the fuel that it is
-- given for the entries and for their nesting.
pub parse_data_types_ends :
    (bytes : List ℕ) → (types : List (Text × UploadType)) × (parse_data_types bytes ≡ some types)
unfolding parse_data_types
parse_data_types_ends bytes = parse_data_types_loop_ends (suc (length bytes)) bytes [] (omega arith)

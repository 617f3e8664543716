-- ===== src/Symbol/Upload/RoundTrip.antt =====
-- The parse of the data types that a controller uploads: structures, nested to any depth.
use go_adstc.Prelude.{ℕ, zero, suc, ◌+◌, ◌≤◌, ◌<◌, ◌≡◌, refl, ap, ◌∙◌, sym, arith}
use go_adstc.Prelude.{List, [], ◌∷◌, ◌++◌, map, length, Option, some}
use go_adstc.Prelude.{false, length-append, All}
use go_adstc.Symbol.{Text, UploadType, UploadChilds, upload_type, no_childs, child}
use go_adstc.Symbol.{insert, name_of}
use go_adstc.Symbol.Arrays.{count_childs}
use go_adstc.Symbol.Upload.{put_child}
use go_adstc.Symbol.Upload.{sub_items_loop}
use go_adstc.Symbol.Upload.{decode_data_type, parse_data_types_loop}
use go_adstc.Symbol.Upload.{parse_data_types}
use go_adstc.Symbol.Upload.Written.{head_bytes, type_bytes, childs_bytes, append_childs}
use go_adstc.Symbol.Upload.Written.{
  has_child, plained, plained_childs, Distinct, IsStruct, AreStructs, depth,
}
use go_adstc.Symbol.Upload.Written.{depth_childs, head_bytes-append, length-head_bytes}
use go_adstc.Symbol.Upload.Node.{node_nested, node_leaf}

put_child_fresh :
    (k : Text) (t : UploadType) (cs : UploadChilds)
    → has_child k cs ≡ false
    → put_child k t cs ≡ append_childs cs (child k t no_childs)
unfolding put_child
put_child_fresh k t no_childs h = refl
put_child_fresh k t (child j u cs) h = ground (arith, put_child_fresh k t cs)

append_childs_none : (a : UploadChilds) → append_childs a no_childs ≡ a
append_childs_none no_childs = refl
append_childs_none (child k t a) = ap (child k t) (append_childs_none a)

append_childs_assoc :
    (a b c : UploadChilds)
    → append_childs (append_childs a b) c ≡ append_childs a (append_childs b c)
append_childs_assoc no_childs b c = refl
append_childs_assoc (child k t a) b c = ap (child k t) (append_childs_assoc a b c)

has_child-plained_childs :
    (k : Text) (cs : UploadChilds) → has_child k (plained_childs cs) ≡ has_child k cs
has_child-plained_childs k no_childs = refl
has_child-plained_childs k (child j t cs) = rw (has_child-plained_childs k cs) refl

plained_childs-append_childs :
    (a b : UploadChilds)
    → append_childs (plained_childs a) (plained_childs b) ≡ plained_childs (append_childs a b)
plained_childs-append_childs no_childs b = refl
plained_childs-append_childs (child k t a) b =
    ap (child k (plained t)) (plained_childs-append_childs a b)

name_of-plained : (t : UploadType) → name_of (plained t) ≡ name_of t
name_of-plained (upload_type e n d c cs) = refl

childs_bytes_pos :
    (k : Text) (t : UploadType) (cs : UploadChilds) → 0 < length (childs_bytes (child k t cs))
unfolding childs_bytes type_bytes
childs_bytes_pos k (upload_type e n d c ds) cs = omega (
  arith,
  length-append (head_bytes e n d c (childs_bytes ds)) (childs_bytes cs),
  length-head_bytes e n d c (childs_bytes ds),
)

sub_items_loop_step :
    (decode : List ℕ → Option (UploadType × List ℕ)) (k : ℕ) (buf rest : List ℕ) (t : UploadType)
    (acc : UploadChilds)
    → decode buf ≡ some (t, rest)
    → sub_items_loop decode (suc k) buf acc
      ≡ sub_items_loop decode k rest (put_child (name_of t) t acc)
unfolding sub_items_loop
sub_items_loop_step decode k buf rest t acc e = rw (e, sub_items_loop)

sub_items_loop_end :
    (decode : List ℕ → Option (UploadType × List ℕ)) (buf : List ℕ) (acc : UploadChilds)
    → sub_items_loop decode 0 buf acc ≡ some acc
unfolding sub_items_loop
sub_items_loop_end decode buf acc = refl

mutual
  unfolding type_bytes childs_bytes

  decode-type_bytes :
      (t : UploadType) (fuel : ℕ) (tail : List ℕ)
      → IsStruct t
      → depth t ≤ fuel
      → decode_data_type fuel (type_bytes t ++ tail) ≡ some (plained t, tail)
  decode-type_bytes (upload_type e n d c cs) zero tail h le = absurd (omega arith)
  decode-type_bytes (upload_type e n d c no_childs) (suc fuel) tail h le =
      ap (decode_data_type (suc fuel)) (head_bytes-append e n d c [] tail)
      ∙ node_leaf e n d c fuel tail h.0
  decode-type_bytes (upload_type e n d c (child k t cs)) (suc fuel) tail h le =
      ap (decode_data_type (suc fuel))
        (head_bytes-append e n d c (childs_bytes (child k t cs)) tail)
      ∙ node_nested e n d c (child k t cs) fuel tail (plained_childs (child k t cs)) h.0
          (childs_bytes_pos k t cs)
          (decode-childs_bytes (child k t cs) fuel no_childs h.2 h.1 (omega arith))

  decode-childs_bytes :
      (cs : UploadChilds) (fuel : ℕ) (acc : UploadChilds)
      → AreStructs cs
      → Distinct acc cs
      → depth_childs cs ≤ fuel
      → sub_items_loop
          (decode_data_type fuel)
          (count_childs cs)
          (childs_bytes cs)
          (plained_childs acc)
        ≡ some (plained_childs (append_childs acc cs))
  decode-childs_bytes no_childs fuel acc h fresh le =
      sub_items_loop_end (decode_data_type fuel) [] (plained_childs acc)
      ∙ ap (λ (x : UploadChilds). some (plained_childs x)) (sym (append_childs_none acc))
  decode-childs_bytes (child k t cs) fuel acc h fresh le =
      let more : UploadChilds = append_childs acc (child k t no_childs) in
      let put : put_child (name_of (plained t)) (plained t) (plained_childs acc)
          ≡ plained_childs more =
        ap (λ (n : Text). put_child n (plained t) (plained_childs acc))
          (name_of-plained t ∙ sym h.0)
        ∙ put_child_fresh k (plained t) (plained_childs acc)
            (has_child-plained_childs k acc ∙ fresh.0)
        ∙ plained_childs-append_childs acc (child k t no_childs) in
      sub_items_loop_step (decode_data_type fuel) (count_childs cs)
        (type_bytes t ++ childs_bytes cs) (childs_bytes cs) (plained t) (plained_childs acc)
        (decode-type_bytes t fuel (childs_bytes cs) h.1 (omega arith))
      ∙ ap (sub_items_loop (decode_data_type fuel) (count_childs cs) (childs_bytes cs)) put
      ∙ decode-childs_bytes cs fuel more h.2 fresh.1 (omega arith)
      ∙ ap (λ (x : UploadChilds). some (plained_childs x))
          (append_childs_assoc acc (child k t no_childs) cs)

mutual
  unfolding type_bytes childs_bytes

  depth-le-length : (t : UploadType) → depth t + 45 ≤ suc (length (type_bytes t))
  depth-le-length (upload_type e n d c cs) =
      omega (arith, depth_childs-le-length cs, length-head_bytes e n d c (childs_bytes cs))

  depth_childs-le-length : (cs : UploadChilds) → depth_childs cs ≤ length (childs_bytes cs)
  depth_childs-le-length no_childs = omega arith
  depth_childs-le-length (child k t cs) = omega (
    arith,
    depth-le-length t,
    depth_childs-le-length cs,
    length-append (type_bytes t) (childs_bytes cs),
  )

-- The data types of a controller, one behind another.
abbrev pub types_bytes : List UploadType → List ℕ
types_bytes [] = []
types_bytes (t ∷ ts) = type_bytes t ++ types_bytes ts

-- The map that holds them, filled in order.
abbrev pub filed : List UploadType → List (Text × UploadType) → List (Text × UploadType)
filed [] types = types
filed (t ∷ ts) types = filed ts (insert (name_of t) t types)

parse_data_types_loop_step :
    (fuel : ℕ) (buf rest : List ℕ) (t : UploadType) (types : List (Text × UploadType))
    → 0 < length buf
    → decode_data_type (suc (length buf)) buf ≡ some (t, rest)
    → parse_data_types_loop (suc fuel) buf types
      ≡ parse_data_types_loop fuel rest (insert (name_of t) t types)
unfolding parse_data_types_loop
parse_data_types_loop_step fuel [] rest t types h e = absurd (omega arith)
parse_data_types_loop_step fuel (b ∷ bs) rest t types h e = rw (e, parse_data_types_loop)

parse_data_types_loop-types_bytes :
    (ts : List UploadType) (fuel : ℕ) (types : List (Text × UploadType))
    → All IsStruct ts
    → length (types_bytes ts) < fuel
    → parse_data_types_loop fuel (types_bytes ts) types ≡ some (filed (map plained ts) types)
parse_data_types_loop-types_bytes ts zero types h le = absurd (omega arith)
parse_data_types_loop-types_bytes [] (suc fuel) types h le = unfold parse_data_types_loop in refl
parse_data_types_loop-types_bytes (t ∷ ts) (suc fuel) types h le =
    let whole : length (types_bytes (t ∷ ts)) ≡ length (type_bytes t) + length (types_bytes ts) =
      length-append (type_bytes t) (types_bytes ts) in
    parse_data_types_loop_step fuel (types_bytes (t ∷ ts)) (types_bytes ts) (plained t) types
      (omega (arith, depth-le-length t))
      (decode-type_bytes t (suc (length (types_bytes (t ∷ ts)))) (types_bytes ts) h.0
        (omega (arith, depth-le-length t)))
    ∙ parse_data_types_loop-types_bytes ts fuel (insert (name_of (plained t)) (plained t) types) h.1
        (omega (arith, depth-le-length t))

-- The upload of data types none of which is an array or has an array among its members, whose
-- entries have numbers that fit their fields and give the true lengths and counts, and whose
-- members, nested to any depth, have different names within their type, is parsed into the map that
-- holds each type under its name, with all its members, where a later type takes the place of an
-- earlier one of its name; of what was written, only a type name longer than STRING that begins
-- with it, of a type or a member, is changed, and becomes STRING.
pub parse_data_types-types_bytes :
    (ts : List UploadType)
    → All IsStruct ts
    → parse_data_types (types_bytes ts) ≡ some (filed (map plained ts) [])
unfolding parse_data_types
parse_data_types-types_bytes ts h =
    parse_data_types_loop-types_bytes ts (suc (length (types_bytes ts))) [] h (omega arith)

-- ===== src/Symbol/Upload.antt =====
-- ParseUploadSymbolInfoDataTypes and decodeSymbolUploadDataType of symbols.go. The errors that they
-- return are only logged, and are left out.
pub mod Measure
pub mod Ends
pub mod Written
pub mod Node
pub mod RoundTrip
use go_adstc.Prelude.{ℕ, zero, suc, ◌+◌, ◌-◌, ◌<◌, Option, none, some, List, [], ◌∷◌, ◌++◌}
use go_adstc.Prelude.{length, take, drop, replicate, Bool, ltb, ◌==◌, if◌then◌else◌}
use go_adstc.Go.Bytes.{codes}
use go_adstc.Go.Binary.{Layout, field, read_over, read_padded}
use go_adstc.Go.Strconv.{text_eq}
use go_adstc.Symbol.{Text, DatatypeEntry, UploadType, UploadChilds, upload_type, no_childs, child}
use go_adstc.Symbol.{insert, name_of}
use go_adstc.Symbol.Arrays.{ArrayInfo, zero_entry, make_array_childs}

abbrev pub entry_layout : Layout
entry_layout = 4 ∷ 4 ∷ 4 ∷ 4 ∷ 4 ∷ 4 ∷ 4 ∷ 4 ∷ 2 ∷ 2 ∷ 2 ∷ 2 ∷ 2 ∷ []

abbrev pub entry_of : List ℕ → DatatypeEntry
entry_of vs = record {
  entry_length = field vs 0;
  version = field vs 1;
  hash_value = field vs 2;
  type_hash_value = field vs 3;
  size = field vs 4;
  offs = field vs 5;
  data_type = field vs 6;
  flags = field vs 7;
  name_length = field vs 8;
  type_length = field vs 9;
  comment_length = field vs 10;
  array_dim = field vs 11;
  sub_items = field vs 12;
}

abbrev pub level_layout : Layout
level_layout = 4 ∷ 4 ∷ []

abbrev pub level_of : List ℕ → ArrayInfo
level_of vs = record { l_bound = field vs 0; elements = field vs 1 }

abbrev pub zero_level : ArrayInfo
zero_level = record { l_bound = 0; elements = 0 }

-- binary.Read into a byte slice of length `n`, its error dropped: a short buffer is used up, and
-- the slice keeps its zeros.
unfoldable pub read_text : ℕ → List ℕ → Text × List ℕ
read_text n buf = if ltb (length buf) n then (replicate n 0, []) else (take n buf, drop n buf)

-- The text, and then data.Next(1).
unfoldable pub read_terminated : ℕ → List ℕ → Text × List ℕ
read_terminated n buf = let (text, rest) = read_text n buf in (text, drop 1 rest)

-- Any type that begins with STRING and goes on is a STRING.
unfoldable pub plain_type : Text → Text
plain_type dt =
    if ltb 6 (length dt)
    then (if text_eq (take 6 dt) (codes "STRING") then codes "STRING" else dt)
    else dt

-- header.Childs[name] = …
unfoldable pub put_child : Text → UploadType → UploadChilds → UploadChilds
put_child name t no_childs = child name t no_childs
put_child name t (child n u cs) =
    if text_eq n name then child name t cs else child n u (put_child name t cs)

-- The loop over the dimensions of an array. A read that fails repeats the last dimension.
unfoldable pub read_levels : ℕ → ArrayInfo → List ℕ → List ArrayInfo
read_levels zero last buf = []
read_levels (suc left) last buf =
    let (level, rest) = read_over level_layout level_of last buf in
    level ∷ read_levels left level rest

-- What precedes the children of a data type: the entry, its name, type and comment, and the rest of
-- the buffer.
pub record Head : Type 0 where
  pub entry : DatatypeEntry
  pub name : Text
  pub data_type : Text
  pub comment : Text
  pub rest : List ℕ

unfoldable pub head_after : DatatypeEntry × List ℕ → Head
head_after (entry, b1) =
    let (name, b2) = read_terminated entry.name_length b1 in
    let (dt, b3) = read_terminated entry.type_length b2 in
    let (comment, b4) = read_terminated entry.comment_length b3 in
    record { entry = entry; name = name; data_type = plain_type dt; comment = comment; rest = b4 }

unfoldable pub read_head : List ℕ → Head
read_head buf = head_after (read_over entry_layout entry_of zero_entry buf)

-- How much of the entry lies behind what was read, as an int; 0 if that is negative.
abbrev pub child_length : Head → List ℕ → ℕ
child_length h buf = h.entry.entry_length - (length buf - length h.rest)

abbrev pub typed : Head → UploadChilds → UploadType
typed h cs = upload_type h.entry h.name h.data_type h.comment cs

-- The loop over the sub items, where `decode` reads one. `none`: the fuel ran out.
unfoldable pub sub_items_loop :
    (List ℕ → Option (UploadType × List ℕ)) → ℕ → List ℕ → UploadChilds → Option UploadChilds
sub_items_loop decode zero buf cs = some cs
sub_items_loop decode (suc left) buf cs = elim (decode buf) [
  | none ↦ none
  | some (t, rest) ↦ sub_items_loop decode left rest (put_child (name_of t) t cs)
]

-- The children, read from a buffer of their own.
unfoldable pub read_childs :
    (List ℕ → Option (UploadType × List ℕ)) → Head → List ℕ → Option UploadChilds
unfolding sub_items_loop
read_childs decode h buf =
    if ltb 0 h.entry.array_dim
    then some
        (make_array_childs (read_levels h.entry.array_dim zero_level buf) h.data_type h.entry.size)
    else sub_items_loop decode h.entry.sub_items buf no_childs

abbrev pub finish : Head → List ℕ → Option UploadChilds → Option (UploadType × List ℕ)
finish h rest none = none
finish h rest (some cs) = some (typed h cs, rest)

-- decodeSymbolUploadDataType, with fuel for the depth of nesting.
unfoldable pub decode_data_type : ℕ → List ℕ → Option (UploadType × List ℕ)
decode_data_type zero buf = none
decode_data_type (suc fuel) buf =
    let h = read_head buf in
    let nested = read_padded (child_length h buf) h.rest in
    let childs = read_childs (decode_data_type fuel) h nested.0 in
    if child_length h buf == 0 then some (typed h no_childs, h.rest) else finish h nested.1 childs

-- ParseUploadSymbolInfoDataTypes, with fuel for the entries.
unfoldable pub parse_data_types_loop :
    ℕ → List ℕ → List (Text × UploadType) → Option (List (Text × UploadType))
parse_data_types_loop zero buf types = none
parse_data_types_loop (suc fuel) [] types = some types
parse_data_types_loop (suc fuel) (b ∷ bs) types =
    elim (decode_data_type (suc (length (b ∷ bs))) (b ∷ bs)) [
      | none ↦ none
      | some (t, rest) ↦ parse_data_types_loop fuel rest (insert (name_of t) t types)
    ]

unfoldable pub parse_data_types : List ℕ → Option (List (Text × UploadType))
parse_data_types bytes = parse_data_types_loop (suc (length bytes)) bytes []

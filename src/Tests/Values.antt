-- ===== src/Tests/Values.antt =====
-- Runs of readWriter.go.
use go_adstc.Prelude.{ℕ, ◌≡◌, refl, arith, false, List, [], ◌∷◌, none, some, length}
use go_adstc.Go.Result.{ok, err, syntax, unknown_format}
use go_adstc.Go.Bytes.{codes}
use go_adstc.Go.Strconv.{text_eq}
use go_adstc.Symbol.{Text, UploadType, upload_type, no_childs, DatatypeEntry, lookup}
use go_adstc.Value.{int, string, kind_of, Formats, parse_kind, parse_leaf, write_kind}
use go_adstc.Value.{write_to_node, base_type}
use go_adstc.Go.Space.{begins_space, ascii_space, space_of_two, space_of_three}
use go_adstc.Value.Strings.{parse-write_string}
use go_adstc.Value.Node.{alias_write_only}

-- Formats of a program that uses no floats and no times.
abbrev no_floats : Formats
no_floats = record {
  float32 = λ n. [];
  float64 = λ n. [];
  parse_float32 = λ s. err syntax;
  parse_float64 = λ s. err syntax;
  local_time = λ t layout. [];
}

abbrev no_entry : DatatypeEntry
no_entry = record {
  entry_length = 0;
  version = 0;
  hash_value = 0;
  type_hash_value = 0;
  size = 2;
  offs = 0;
  data_type = 0;
  flags = 0;
  name_length = 0;
  type_length = 0;
  comment_length = 0;
  array_dim = 0;
  sub_items = 0;
}

-- An enumeration over INT.
abbrev aliases : List (Text × UploadType)
aliases = (codes "E_Mode", upload_type no_entry (codes "E_Mode") (codes "INT") [] no_childs) ∷ []

-- A text that begins with the two bytes of an umlaut.
abbrev umlaut : Text
umlaut = 0xc3 ∷ 0xa4 ∷ codes " wut2! "

umlaut_plain : begins_space umlaut ≡ false
unfolding begins_space ascii_space space_of_two space_of_three
umlaut_plain = refl

parse-write_string_example :
    (bytes : List ℕ) × (write_kind no_floats string 81 umlaut ≡ ok bytes)
    × (length bytes ≡ 81)
    × (parse_kind no_floats string bytes ≡ ok umlaut)
parse-write_string_example =
    parse-write_string no_floats 81 umlaut (omega arith) (omega arith) umlaut_plain

mode_unknown : kind_of (codes "E_Mode") ≡ none
unfolding kind_of lookup text_eq
mode_unknown = refl

mode_base : kind_of (base_type aliases (codes "E_Mode")) ≡ some int
unfolding kind_of lookup text_eq
mode_base = refl

alias_write_only_example :
    (write_to_node no_floats aliases false (codes "E_Mode") 2 (codes "3")
      ≡ write_kind no_floats int 2 (codes "3"))
    × (parse_leaf no_floats (codes "E_Mode") 2 (3 ∷ 0 ∷ []) 0 ≡ err unknown_format)
alias_write_only_example =
    alias_write_only no_floats aliases (codes "E_Mode") int 2 (codes "3") (3 ∷ 0 ∷ []) 0
      mode_unknown mode_base tt (omega arith)

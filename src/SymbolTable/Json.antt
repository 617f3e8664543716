-- ===== src/SymbolTable/Json.antt =====
-- parseSymbol and GetJSON of symbols.go: the JSON view of a symbol. `none` is a nil pointer, or a
-- recursion that does not end.
pub mod Fields
pub mod Ends
use go_adstc.Prelude.{ℕ, zero, suc, ◌==◌, Bool, false, not, ◌&&◌, if◌then◌else◌, List, [], ◌∷◌}
use go_adstc.Prelude.{◌++◌, length, Option, none, some}
use go_adstc.Go.Result.{ok, err, panic}
use go_adstc.Go.Bytes.{codes}
use go_adstc.Go.Strconv.{text_eq, includes, parse_bool}
use go_adstc.Symbol.{Text, Symbol}
use go_adstc.Symbol.Store.{symbol_at}
use go_adstc.SymbolTable.{References}

-- What parseSymbol returns: a bool, a string, the bits of a float64, or a map.
mutual
  pub data Json : Type 0 where
    boolean : Bool → Json
    text : Text → Json
    number : ℕ → Json
    object : Members → Json

  pub data Members : Type 0 where
    no_members : Members
    member_of : Text → Json → Members → Members

-- strconv.ParseFloat(…, 64) with its error dropped, and json.Marshal, where `none` is an error.
pub record Encoder : Type 0 where
  pub float_of : Text → ℕ
  pub marshal : Json → Option Text

-- `"[` for `[`, and `]"` for `]`
unfoldable pub quote_brackets : Text → Text
quote_brackets [] = []
quote_brackets (b ∷ bs) =
    (if b == b'[' then b'"' ∷ b ∷ [] else if b == b']' then b ∷ b'"' ∷ [] else b ∷ [])
    ++ quote_brackets bs

-- localMap[s] = …
unfoldable pub put_member : Text → Json → Members → Members
put_member k j no_members = member_of k j no_members
put_member k j (member_of n i ms) =
    if text_eq n k then member_of k j ms else member_of n i (put_member k j ms)

-- stringsList
abbrev pub strings_list : List Text
strings_list = codes "STRING" ∷ codes "TIME" ∷ codes "TOD" ∷ codes "DATE" ∷ codes "DT" ∷ []

-- strconv.ParseBool, with its error dropped
unfoldable pub bool_or_false : Text → Bool
bool_or_false t = elim (parse_bool t) [ ok b ↦ b | err _ ↦ false | panic ↦ false ]

module _ (enc : Encoder) where
  unfoldable pub leaf_json : Symbol → Json
  leaf_json s =
      if text_eq s.data_type (codes "BOOL")
      then boolean (bool_or_false s.value)
      else if includes strings_list s.data_type
      then text s.value
      else number (enc.float_of s.value)

  -- One round of the loop over the children, where `deeper` is parseSymbol of a child.
  unfoldable pub add_json : (ℕ → Option Json) → Bool → Option Symbol → ℕ → Members → Option Members
  add_json deeper only_changed none q ms = none
  add_json deeper only_changed (some s) q ms =
      if only_changed && not s.changed
      then some ms
      else elim (deeper q) [ none ↦ none | some j ↦ some (put_member (quote_brackets s.name) j ms) ]

  unfoldable pub json_loop :
      (ℕ → Option Json) → Bool → List Symbol → References → Members → Option Members
  json_loop deeper only_changed store [] ms = some ms
  json_loop deeper only_changed store ((key, q) ∷ more) ms =
      elim (add_json deeper only_changed (symbol_at q store) q ms) [
        | none ↦ none
        | some all ↦ json_loop deeper only_changed store more all
      ]

  unfoldable pub json_of : (ℕ → Option Json) → Bool → List Symbol → Option Symbol → Option Json
  json_of deeper only_changed store none = none
  json_of deeper only_changed store (some s) =
      if length s.childs == 0
      then some (leaf_json s)
      else elim (json_loop deeper only_changed store s.childs no_members) [
        | none ↦ none
        | some ms ↦ some (object ms)
      ]

  -- parseSymbol
  unfoldable pub parse_symbol : ℕ → Bool → List Symbol → ℕ → Option Json
  parse_symbol zero only_changed store r = none
  parse_symbol (suc depth) only_changed store r =
      json_of (parse_symbol depth only_changed store) only_changed store (symbol_at r store)

  unfoldable pub marshaled : Option Json → Option Text
  marshaled none = none
  marshaled (some j) = elim (enc.marshal j) [ none ↦ some [] | some t ↦ some t ]

  -- GetJSON
  unfoldable pub get_json : ℕ → Bool → List Symbol → ℕ → Option Text
  get_json depth only_changed store r = marshaled (parse_symbol depth only_changed store r)

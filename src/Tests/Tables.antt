-- ===== src/Tests/Tables.antt =====
-- The upload of a symbol Main.p of type Point, and values of the objects that are built for it.
use go_adstc.Prelude.{ℕ, zero, suc, ◌≡◌, refl, arith, List, [], ◌∷◌, none, some}
use go_adstc.Prelude.{All, if◌then◌else◌, Bool-cases, inl, inr}
use go_adstc.Go.Result.{ok, panic}
use go_adstc.Go.Bytes.{codes}
use go_adstc.Go.Strconv.{text_eq}
use go_adstc.Go.Strconv.Laws.{text_eq_iff}
use go_adstc.Symbol.{Text, childs_of, lookup, insert}
use go_adstc.Symbol.Upload.RoundTrip.{filed}
use go_adstc.Symbol.Upload.Written.{plained}
use go_adstc.Symbol.Upload.{plain_type}
use go_adstc.Prelude.{map}
use go_adstc.Conn.{Conn}
use go_adstc.Prelude.{true, not, ◌&&◌, if◌then◌else◌}
use go_adstc.Prelude.{sym, ap, ◌∙◌, Option, none, some}
use go_adstc.Symbol.{Text}
use go_adstc.SymbolTable.Json.{object, Members, parse_symbol, quote_brackets}
use go_adstc.SymbolTable.Json.Fields.{field_in, HasChild, Differ}
use go_adstc.SymbolTable.Json.Ends.{parse_symbol-field_in}
use go_adstc.SymbolTable.Trees.{Tree, node, no_trees, tree}
use go_adstc.Symbol.Store.{symbol_at}
use go_adstc.Symbol.{Symbol}
use go_adstc.SymbolTable.{Types, References, UploadSymbol, plain_symbol_type, zero_symbol_entry}
use go_adstc.SymbolTable.{add_symbol, parse_symbols}
use go_adstc.SymbolTable.Json.{Encoder}
use go_adstc.SymbolTable.Trees.{expand_top}
use go_adstc.SymbolTable.Builds.{BuiltOne, Grows}
use go_adstc.SymbolTable.Refines.{add_symbol-BuiltOne}
use go_adstc.SymbolTable.Ranked.{IsRanked, MembersBelow}
use go_adstc.SymbolTable.Written.{Written, symbols_bytes, IsWritten, enter_all}
use go_adstc.SymbolTable.RoundTrip.{parse_symbols-symbols_bytes, parse_symbols_cut}
use go_adstc.SymbolTable.Total.{IsShallow, IsFound, parse_symbols_total}
use go_adstc.Value.Update.{parse}
use go_adstc.Value.Update.Frame.{Frame, parse-Frame}
use go_adstc.Value.Update.Changed.{Rooted, Upward, IsSound}
use go_adstc.Tests.Symbols.{point}
use go_adstc.Tests.Clients.{main_x, client, silent, no_floats}

abbrev pub types : Types
types = filed (map plained (point ∷ [])) []

abbrev pub main_p : UploadSymbol
main_p = record {
  entry = record zero_symbol_entry {
    entry_length = 45;
    group = 16448;
    size = 2;
    name_length = 6;
    type_length = 5;
  };
  name = codes "Main.p";
  data_type = codes "Point";
  comment = [];
}

-- One byte stands behind the texts.
abbrev pub uploaded : List Written
uploaded = (main_p, 0 ∷ []) ∷ []

abbrev pub rank : Text → ℕ
rank t = if text_eq t (codes "Point") then 1 else 0

point_members : MembersBelow rank types 1 (childs_of (plained point))
unfolding insert lookup text_eq plain_type
point_members = ((λ e. cc), (λ dt e. cc), tt)

pub ranked : IsRanked rank types
unfolding insert lookup text_eq plain_type
ranked d dt e = elim (Bool-cases (text_eq (codes "Point") d)) [
  | inl same ↦
      let same_d : codes "Point" ≡ d = (text_eq_iff (codes "Point") d).0 same in
      let same_dt : plained point ≡ dt = cc (e, same) in
      rw (← same_d) (rw (← same_dt) point_members)
  | inr other ↦ cc (e, other)
]

pub written : All IsWritten uploaded
unfolding plain_symbol_type text_eq
written = (
  (
    (
      omega arith,
      (
        omega arith,
        (
          omega arith,
          (
            omega arith,
            (omega arith, (omega arith, (omega arith, (omega arith, (omega arith, tt))))),
          ),
        ),
      ),
    ),
    refl,
    refl,
    refl,
    refl,
  ),
  tt,
)

pub shallow : All (IsShallow silent rank types ranked) uploaded
unfolding insert text_eq plain_symbol_type
shallow = ((λ dt e. omega arith), tt)

abbrev pub plain : Encoder
plain = record { float_of = λ t. 0; marshal = λ j. some (codes "{}") }

client-Rooted : Rooted (client 17).store
client-Rooted zero p s at up = cc
client-Rooted (suc r) p s at up = cc

client-Upward : Upward (client 17).store
client-Upward zero p s at up marked t t_at = cc
client-Upward (suc q) p s at up marked t t_at = cc

pub client-IsSound : IsSound (client 17)
client-IsSound = (client-Rooted, client-Upward)

-- The client with the symbol.
abbrev built : Conn
built = (parse_symbols silent types (symbols_bytes uploaded) (client 17)).1

add_symbol-BuiltOne_example :
    BuiltOne
      (expand_top 2 types main_p)
      none
      (client 17)
      (add_symbol silent 2 types main_p (client 17))
add_symbol-BuiltOne_example = add_symbol-BuiltOne silent 2 types main_p (client 17)

-- A symbol of a string type.
abbrev main_s : UploadSymbol
main_s = record {
  entry = record zero_symbol_entry {
    entry_length = 49;
    size = 81;
    name_length = 6;
    type_length = 10;
  };
  name = codes "Main.s";
  data_type = codes "STRING(80)";
  comment = [];
}

main_s_written : All IsWritten ((main_s, []) ∷ [])
main_s_written = (
  (
    (
      omega arith,
      (
        omega arith,
        (
          omega arith,
          (
            omega arith,
            (omega arith, (omega arith, (omega arith, (omega arith, (omega arith, tt))))),
          ),
        ),
      ),
    ),
    refl,
    refl,
    refl,
    refl,
  ),
  tt,
)

parse_symbols-symbols_bytes_example :
    parse_symbols silent types (symbols_bytes ((main_s, []) ∷ uploaded)) (client 17)
    ≡ enter_all silent types ((main_s, []) ∷ uploaded) [] (client 17)
parse_symbols-symbols_bytes_example =
    parse_symbols-symbols_bytes silent types ((main_s, []) ∷ uploaded) (client 17)
      (main_s_written.0, written)

parse_symbols_cut_example : (parse_symbols silent [] (1 ∷ 2 ∷ 3 ∷ []) (client 17)).0 ≡ panic
parse_symbols_cut_example =
    parse_symbols_cut silent [] (1 ∷ 2 ∷ 3 ∷ []) (client 17) (unfold lookup in refl) (omega arith)
      (omega arith)

parse_symbols_total_example :
    (m : References) × (d : Conn) × (parse_symbols silent types (symbols_bytes uploaded) (client 17)
      ≡ (ok (some m), d))
    × All (IsFound silent rank types ranked m) uploaded
    × Grows (client 17) d
parse_symbols_total_example =
    parse_symbols_total silent rank types ranked uploaded (client 17) written shallow

parse-Frame_example : Frame built (parse silent plain no_floats 5 1 (7 ∷ 0 ∷ []) 0 built).1
parse-Frame_example = parse-Frame silent plain no_floats 5 1 (7 ∷ 0 ∷ []) 0 built

-- A struct of two members, where one has changed.
abbrev pair : List Symbol
pair =
    record main_x { childs = (codes "x", 1) ∷ (codes "y", 2) ∷ []; changed = true }
    ∷ record main_x { name = codes "x"; value = codes "5"; changed = true; parent = some 0 }
    ∷ record main_x { name = codes "y"; value = codes "6"; parent = some 0 }
    ∷ []

pair-Differ : Differ pair ((codes "x", 1) ∷ (codes "y", 2) ∷ [])
unfolding quote_brackets
pair-Differ = (
  λ s at. (
    λ t t_at e.
        clash
          (ap quote_brackets (ap view_name t_at) ∙ e ∙ sym (ap quote_brackets (ap view_name at))),
    tt,
  ),
  (λ s at. tt, tt),
)
  where
    view_name : Option Symbol → Text
    view_name none = []
    view_name (some s) = s.name

    first : Text → ℕ
    first [] = 0
    first (b ∷ bs) = b

    clash : quote_brackets (codes "y") ≡ quote_brackets (codes "x") → ⊥
    clash e = let n : 121 ≡ 120 = ap first e in omega (arith, n)

abbrev pub member_tree : Text → Text → Tree
member_tree full name =
    node
      (record {
        full_name = full;
        name = name;
        data_type = codes "INT";
        comment = [];
        group = 16448;
        offset = 0;
        length = 2;
      })
      no_trees

parse_symbol-field_in_example :
    (ms : Members) × (parse_symbol plain 4 true pair 0 ≡ some (object ms))
    × ((q : ℕ) (t : Symbol)
        → HasChild q ((codes "x", 1) ∷ (codes "y", 2) ∷ [])
        → symbol_at q pair ≡ some t
        → field_in (quote_brackets t.name) ms
          ≡ (if true && not t.changed then none else parse_symbol plain 3 true pair q))
parse_symbol-field_in_example =
    parse_symbol-field_in plain true pair
      (tree (codes "x") (member_tree (codes "Main.x") (codes "x"))
        (tree (codes "y") (member_tree (codes "Main.x") (codes "y")) no_trees))
      0 (record main_x { childs = (codes "x", 1) ∷ (codes "y", 2) ∷ []; changed = true }) refl refl
      (
        1,
        ((codes "y", 2) ∷ []),
        refl,
        omega arith,
        (
          record main_x { name = codes "x"; value = codes "5"; changed = true; parent = some 0 },
          refl,
          refl,
          refl,
          refl,
        ),
        (
          2,
          [],
          refl,
          omega arith,
          (
            record main_x { name = codes "y"; value = codes "6"; parent = some 0 },
            refl,
            refl,
            refl,
            refl,
          ),
          refl,
        ),
      )
      pair-Differ

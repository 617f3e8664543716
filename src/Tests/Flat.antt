-- ===== src/Tests/Flat.antt =====
-- The symbols of a struct in the map of symbols, and a struct that contains itself.
use go_adstc.Conn.{now}
use go_adstc.Prelude.{suc, ◌≡◌, refl, [], ◌∷◌, ◌++◌, length}
use go_adstc.Go.Result.{ok, panic}
use go_adstc.Go.Bytes.{codes}
use go_adstc.Go.Strconv.{text_eq}
use go_adstc.Symbol.{lookup, insert}
use go_adstc.SymbolTable.{
  enter, add_symbol, add_offset, add_members, add_member, attach, alloc, path_of,
}
use go_adstc.SymbolTable.Trees.{
  Tree, node, tree, no_trees, top_facts, expand_top, expand, expand_below,
}
use go_adstc.SymbolTable.Trees.{expand_members, expand_member}
use go_adstc.SymbolTable.Flat.{AreNew, AreFound, names, grown, enter-flat_tree}
use go_adstc.Prelude.{ℕ, All, arith, inl}
use go_adstc.Symbol.{Text, UploadType, upload_type, child, no_childs}
use go_adstc.Symbol.Upload.{plain_type}
use go_adstc.Symbol.Arrays.{zero_entry}
use go_adstc.SymbolTable.{Types, UploadSymbol, zero_symbol_entry, plain_symbol_type, parse_symbols}
use go_adstc.SymbolTable.Written.{IsWritten, symbols_bytes, as_read}
use go_adstc.SymbolTable.Cyclic.{IsCyclic, parse_symbols_cyclic}
use go_adstc.Tests.Clients.{client, silent}
use go_adstc.Tests.Tables.{types, main_p, member_tree}

abbrev main_p_tree : Tree
main_p_tree =
    node (top_facts main_p) (tree (codes "x") (member_tree (codes "Main.p.x") (codes "x")) no_trees)

expanded : expand_top (suc (length types)) types main_p ≡ ok main_p_tree
unfolding expand_top expand expand_below expand_members expand_member path_of lookup insert text_eq
    plain_type
expanded = refl

names_new : AreNew [] (names silent types main_p [] (client 17) main_p_tree)
unfolding add_symbol add_offset add_members add_member attach alloc path_of lookup insert text_eq
    now plain_type
names_new = (refl, (refl, tt))

enter-flat_tree_example :
    (enter silent types main_p [] (client 17) ≡ (
      ok ([] ++ names silent types main_p [] (client 17) main_p_tree),
      grown silent types main_p [] (client 17) main_p_tree,
    ))
    × AreFound
        ([] ++ names silent types main_p [] (client 17) main_p_tree)
        (names silent types main_p [] (client 17) main_p_tree)
enter-flat_tree_example =
    enter-flat_tree silent types main_p [] (client 17) main_p_tree expanded names_new

-- A type with a member of that type.
abbrev looped : UploadType
looped =
    upload_type zero_entry (codes "Node") (codes "T") []
      (child (codes "n") (upload_type zero_entry (codes "n") (codes "Node") [] no_childs) no_childs)

abbrev loop_types : Types
loop_types = (codes "Node", looped) ∷ []

abbrev IsNode : Text → Type 0
IsNode d = d ≡ codes "Node"

loop_types-IsCyclic : IsCyclic loop_types IsNode
unfolding lookup text_eq
loop_types-IsCyclic d e = (looped, rw e refl, inl refl)

abbrev main_n : UploadSymbol
main_n = record {
  entry = record zero_symbol_entry { entry_length = 43; name_length = 6; type_length = 4 };
  name = codes "Main.n";
  data_type = codes "Node";
  comment = [];
}

node_written : All IsWritten ((main_n, []) ∷ [])
unfolding plain_symbol_type text_eq
node_written = (
  (
    (
      omega arith,
      (
        omega arith,
        (
          omega arith,
          (
            omega arith,
            (omega arith, (omega arith, (omega arith, (omega arith, (omega arith, tt))))),
          ),
        ),
      ),
    ),
    refl,
    refl,
    refl,
    refl,
  ),
  tt,
)

main_n-IsNode : IsNode (as_read main_n).data_type
unfolding plain_symbol_type text_eq
main_n-IsNode = refl

parse_symbols_cyclic_example :
    ((depth : ℕ) → (add_symbol silent depth loop_types (as_read main_n) (client 17)).0 ≡ panic)
    × ((parse_symbols silent loop_types (symbols_bytes ((main_n, []) ∷ [])) (client 17)).0 ≡ panic)
parse_symbols_cyclic_example =
    parse_symbols_cyclic silent loop_types IsNode loop_types-IsCyclic main_n [] [] (client 17)
      main_n-IsNode node_written

-- ===== src/SymbolTable/Json/Ends.antt =====
-- The JSON view of a tree of symbols: it is there, and has what the children are.
use go_adstc.Prelude.{ℕ, zero, suc, ◌+◌, ◌≤◌, ◌≡◌, refl, arith, Bool, false, not, ◌&&◌}
use go_adstc.Prelude.{
  List, [], ◌∷◌, length, Option, none, some, inl, inr, if◌then◌else◌, ◌==◌, Bool-cases,
}
use go_adstc.Symbol.{Text, Symbol}
use go_adstc.Symbol.Store.{symbol_at, symbol_at-lt-length}
use go_adstc.SymbolTable.{References}
use go_adstc.SymbolTable.Trees.{Tree, Trees, node, no_trees, tree, IsTree, AreTrees}
use go_adstc.SymbolTable.Json.{
  Json, object, Members, no_members, Encoder, quote_brackets, leaf_json,
}
use go_adstc.SymbolTable.Json.{add_json, json_loop, json_of, parse_symbol, put_member}
use go_adstc.SymbolTable.Json.Fields.{field_in, HasChild, Differ, json_loop-shown}

module _ (enc : Encoder) (only_changed : Bool) (store : List Symbol) where
  abbrev view : ℕ → ℕ → Option Json
  view depth = parse_symbol enc depth only_changed store

  add_json_passes :
      (deeper : ℕ → Option Json) (q : ℕ) (ms : Members) (s : Symbol) (j : Json)
      → deeper q ≡ some j
      → (m : Members) × (add_json enc deeper only_changed (some s) q ms ≡ some m)
  unfolding add_json
  add_json_passes deeper q ms s j seen = elim (Bool-cases (only_changed && not s.changed)) [
    | inl out ↦ (ms, rw out)
    | inr in_view ↦ (put_member (quote_brackets s.name) j ms, rw in_view (rw seen))
  ]

  -- A child with a view is passed in the loop.
  json_loop_passes :
      (deeper : ℕ → Option Json) (key : Text) (q : ℕ) (more : References) (ms : Members)
      (s : Symbol) (j : Json)
      → symbol_at q store ≡ some s
      → deeper q ≡ some j
      → ((m : Members)
          → (all : Members) × (json_loop enc deeper only_changed store more m ≡ some all))
      → (all : Members) × (json_loop enc deeper only_changed store ((key, q) ∷ more) ms ≡ some all)
  unfolding json_loop
  json_loop_passes deeper key q more ms s j at seen rest =
      let (m, e) : (m : Members) × (add_json enc deeper only_changed (symbol_at q store) q ms
            ≡ some m) =
        rw at (add_json_passes deeper q ms s j seen) in
      let (all, f) = rest m in (all, rw (e, json_loop) f)

  nothing_left :
      (deeper : ℕ → Option Json) (ms : Members)
      → (all : Members) × (json_loop enc deeper only_changed store [] ms ≡ some all)
  unfolding json_loop
  nothing_left deeper ms = (ms, refl)

  json_of_reached :
      (deeper : ℕ → Option Json) (s : Symbol)
      → ((all : Members) × (json_loop enc deeper only_changed store s.childs no_members ≡ some all))
      → (j : Json) × (json_of enc deeper only_changed store (some s) ≡ some j)
  unfolding json_of
  json_of_reached deeper s (all, e) = elim (Bool-cases (length s.childs == 0)) [
    | inl leaf ↦ (leaf_json enc s, rw leaf)
    | inr struct ↦ (object all, rw struct (rw e))
  ]

  object_reached :
      (deeper : ℕ → Option Json) (s : Symbol) (ms : Members)
      → (length s.childs == 0) ≡ false
      → json_loop enc deeper only_changed store s.childs no_members ≡ some ms
      → json_of enc deeper only_changed store (some s) ≡ some (object ms)
  unfolding json_of
  object_reached deeper s ms struct e = rw struct (rw e)

  pub child_there :
      (t : Tree) (q : ℕ) (parent : Option ℕ)
      → IsTree store parent q t
      → (s : Symbol) × (symbol_at q store ≡ some s)
  child_there (node facts kids) q parent (s, at, _, _, _) = (s, at)

  mutual
    unfolding parse_symbol

    pub view_tree :
        (t : Tree) (depth : ℕ) (parent : Option ℕ) (q : ℕ)
        → IsTree store parent q t
        → length store ≤ depth + q
        → (j : Json) × (view depth q ≡ some j)
    view_tree (node facts kids) zero parent q (s, at, _, _, below) room =
        absurd (omega (arith, symbol_at-lt-length q store s at))
    view_tree (node facts kids) (suc depth) parent q (s, at, _, _, below) room = rw at (
        json_of_reached (view depth) s
          (view_trees kids depth q s.childs no_members below (omega arith)))

    view_trees :
        (ts : Trees) (depth p : ℕ) (cs : References) (ms : Members)
        → AreTrees store p cs ts
        → length store ≤ depth + suc p
        → (all : Members) × (json_loop enc (view depth) only_changed store cs ms ≡ some all)
    view_trees no_trees depth p cs ms e room = rw e (nothing_left (view depth) ms)
    view_trees (tree key t ts) depth p cs ms (q, rest, e, lt, one, more) room =
        let (s, at) = child_there t q (some p) one in
        let (j, seen) = view_tree t depth (some p) q one (omega arith) in
        rw e (
          json_loop_passes (view depth) key q rest ms s j at seen
            (λ m. view_trees ts depth p rest m more room))

  -- For a symbol whose children form trees in the store and have different names in the view,
  -- parseSymbol, in the depth that GetJSON gives it, ends and returns an object; under the name of
  -- each child, with its brackets quoted, that has the view of the child, or nothing where only
  -- changed symbols are asked for and the child is not changed.
  pub parse_symbol-field_in :
      (kids : Trees) (r : ℕ) (s : Symbol)
      → symbol_at r store ≡ some s
      → (length s.childs == 0) ≡ false
      → AreTrees store r s.childs kids
      → Differ store s.childs
      → (ms : Members) × (parse_symbol enc (suc (length store)) only_changed store r
          ≡ some (object ms))
        × ((q : ℕ) (t : Symbol)
            → HasChild q s.childs
            → symbol_at q store ≡ some t
            → field_in (quote_brackets t.name) ms ≡ (
                if only_changed && not t.changed
                then none
                else parse_symbol enc (length store) only_changed store q))
  unfolding parse_symbol
  parse_symbol-field_in kids r s at struct below differ =
      let (ms, looped) = view_trees kids (length store) r s.childs no_members below (omega arith) in
      (
        ms,
        rw at (object_reached (view (length store)) s ms struct looped),
        λ q t has t_at.
            json_loop-shown enc (view (length store)) only_changed store s.childs no_members ms q t
              looped differ has t_at (unfold field_in in refl),
      )

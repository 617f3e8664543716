-- ===== src/SymbolTable/Flat.antt =====
-- addChilds enters every symbol of a tree under its full name, parents first.
use go_adstc.Prelude.{
  ℕ, zero, suc, ◌+◌, ◌≤◌, ◌≡◌, refl, ap, sym, ◌∙◌, arith, List, [], ◌∷◌, ◌++◌, length,
}
use go_adstc.Prelude.{All, Option, none, some, append-nil, append_assoc}
use mathlib.Core.Path.{subst}
use go_adstc.Go.Result.{Result, ok, err, panic, ◌>>=◌}
use go_adstc.Go.Strconv.Laws.{text_eq_iff}
use go_adstc.Symbol.{Text, Symbol, lookup, insert}
use go_adstc.Symbol.Store.{symbol_at, symbol_at-lt-length}
use go_adstc.Conn.{Env, Conn}
use go_adstc.SymbolTable.{
  Types, References, UploadSymbol, childs_at, add_child, add_childs_loop, add_childs,
}
use go_adstc.SymbolTable.{Visit, enter, add_symbol}
use go_adstc.SymbolTable.Trees.{Facts, Tree, Trees, node, no_trees, tree, IsTree, AreTrees}
use go_adstc.SymbolTable.Trees.{top_facts, expand_top}
use go_adstc.SymbolTable.Builds.{BuiltOne}
use go_adstc.SymbolTable.Refines.{add_symbol-BuiltOne}

-- The symbols of a tree under their full names, where `kids` are the children of a symbol.
module _ (kids : ℕ → References) where
  abbrev mutual
    pub flat_tree : ℕ → Tree → References
    flat_tree r (node facts below) = (facts.full_name, r) ∷ flat_trees (kids r) below

    pub flat_trees : References → Trees → References
    flat_trees cs no_trees = []
    flat_trees [] (tree key t ts) = []
    flat_trees ((k, q) ∷ cs) (tree key t ts) = flat_tree q t ++ flat_trees cs ts

-- The names of the second map differ, and none is in the first.
abbrev pub AreNew : References → References → Type 0
AreNew m [] = Unit {0}
AreNew m ((k, q) ∷ xs) = (lookup k m ≡ none) × AreNew (m ++ ((k, q) ∷ [])) xs

insert-append :
    (k : Text) (q : ℕ) (m : References) → lookup k m ≡ none → insert k q m ≡ m ++ ((k, q) ∷ [])
unfolding insert lookup
insert-append k q [] e = refl
insert-append k q ((j, p) ∷ m) e = ground (arith, text_eq_iff j k, insert-append k q m)

AreNew-append : (m xs ys : References) → AreNew m (xs ++ ys) → AreNew m xs × AreNew (m ++ xs) ys
AreNew-append m [] ys h = (tt, rw append-nil h)
AreNew-append m ((k, q) ∷ xs) ys (new, h) =
    let (a, b) = AreNew-append (m ++ ((k, q) ∷ [])) xs ys h in ((new, a), rw append_assoc at b)

module _ (store : List Symbol) where
  abbrev kids : ℕ → References
  kids q = childs_at (symbol_at q store)

  add_child_flat :
      (deeper : Visit) (s : Symbol) (q : ℕ) (m xs : References)
      → lookup s.full_name m ≡ none
      → deeper s.childs (m ++ ((s.full_name, q) ∷ [])) ≡ ok ((m ++ ((s.full_name, q) ∷ [])) ++ xs)
      → add_child deeper (some s) q m ≡ ok (m ++ ((s.full_name, q) ∷ xs))
  unfolding add_child
  add_child_flat deeper s q m xs fresh e =
      rw (fresh, add_child)
        (ap (deeper s.childs) (insert-append s.full_name q m fresh)
          ∙ e
          ∙ ap (λ (all : References). ok all) (append_assoc m ((s.full_name, q) ∷ []) xs))

  add_childs_loop_flat :
      (deeper : Visit) (key : Text) (q : ℕ) (more m m1 m2 : References)
      → add_child deeper (symbol_at q store) q m ≡ ok m1
      → add_childs_loop deeper store more m1 ≡ ok m2
      → add_childs_loop deeper store ((key, q) ∷ more) m ≡ ok m2
  unfolding add_childs_loop
  add_childs_loop_flat deeper key q more m m1 m2 e f = rw (e, add_childs_loop) f

  no_more : (deeper : Visit) (m : References) → add_childs_loop deeper store [] m ≡ ok (m ++ [])
  unfolding add_childs_loop
  no_more deeper m = rw append-nil

  mutual
    unfolding add_childs

    visit-flat_tree :
        (t : Tree) (depth : ℕ) (parent : Option ℕ) (q : ℕ) (m : References)
        → IsTree store parent q t
        → length store ≤ depth + q
        → AreNew m (flat_tree kids q t)
        → add_child (add_childs depth store) (symbol_at q store) q m ≡ ok (m ++ flat_tree kids q t)
    visit-flat_tree (node facts below) zero parent q m (s, at, _, _, _) room new =
        absurd (omega (arith, symbol_at-lt-length q store s at))
    visit-flat_tree (node facts below) (suc depth) parent q m (s, at, same, _, are) room
          (new, news) =
        let name : s.full_name ≡ facts.full_name = ap (λ (f : Facts). f.full_name) same in
        let same_kids : kids q ≡ s.childs = rw at refl in
        let news_s : AreNew (m ++ ((s.full_name, q) ∷ [])) (flat_trees kids s.childs below) =
          rw (name, ← same_kids) news in
        rw (at, ← name)
          (add_child_flat (add_childs (suc depth) store) s q m (flat_trees kids s.childs below)
            (rw name new)
            (visit-flat_trees below depth q s.childs (m ++ ((s.full_name, q) ∷ [])) are
              (omega arith) news_s))

    visit-flat_trees :
        (ts : Trees) (depth p : ℕ) (cs m : References)
        → AreTrees store p cs ts
        → length store ≤ depth + suc p
        → AreNew m (flat_trees kids cs ts)
        → add_childs_loop (add_childs depth store) store cs m ≡ ok (m ++ flat_trees kids cs ts)
    visit-flat_trees no_trees depth p cs m e room new = rw e (no_more (add_childs depth store) m)
    visit-flat_trees (tree key t ts) depth p cs m (q, rest, e, lt, one, more) room new =
        let (new_one, new_more) =
          AreNew-append m (flat_tree kids q t) (flat_trees kids rest ts) (rw e at new) in
        rw e (
          add_childs_loop_flat (add_childs depth store) key q rest m (m ++ flat_tree kids q t) _
            (visit-flat_tree t depth (some p) q m one (omega arith) new_one)
            (visit-flat_trees ts depth p rest (m ++ flat_tree kids q t) more room new_more
              ∙ ap (λ (all : References). ok all)
                  (append_assoc m (flat_tree kids q t) (flat_trees kids rest ts))))

  add_childs-flat_trees :
      (ts : Trees) (p : ℕ) (cs m : References)
      → AreTrees store p cs ts
      → AreNew m (flat_trees kids cs ts)
      → add_childs (suc (length store)) store cs m ≡ ok (m ++ flat_trees kids cs ts)
  unfolding add_childs
  add_childs-flat_trees ts p cs m are new =
      visit-flat_trees ts (length store) p cs m are (omega arith) new

-- What is new is found afterwards.
lookup-append_new :
    (k : Text) (q : ℕ) (m xs : References)
    → lookup k m ≡ none
    → lookup k (m ++ ((k, q) ∷ xs)) ≡ some q
unfolding lookup
lookup-append_new k q [] xs e = ground (arith, text_eq_iff k k)
lookup-append_new k q ((j, p) ∷ m) xs e =
    ground (arith, text_eq_iff j k, lookup-append_new k q m xs)

-- Each name of the second map leads to its symbol in the first.
abbrev pub AreFound : References → References → Type 0
AreFound all xs = All (λ (e : Text × ℕ). lookup e.0 all ≡ some e.1) xs

AreNew-AreFound : (m xs : References) → AreNew m xs → AreFound (m ++ xs) xs
AreNew-AreFound m [] h = tt
AreNew-AreFound m ((k, q) ∷ xs) (new, h) =
    (lookup-append_new k q m xs new, rw append_assoc at (AreNew-AreFound (m ++ ((k, q) ∷ [])) xs h))

expand_top_root :
    (depth : ℕ) (types : Types) (item : UploadSymbol) (facts : Facts) (below : Trees)
    → expand_top depth types item ≡ ok (node facts below)
    → facts ≡ top_facts item
unfolding expand_top
expand_top_root depth types item facts below e = root _ e
  where
    root :
        (r : Result Trees)
        → (r >>= λ ts. ok (node (top_facts item) ts)) ≡ ok (node facts below)
        → facts ≡ top_facts item
    root (ok ts) f = cc
    root (err x) f = cc
    root panic f = cc

module _ (env : Env) (types : Types) (item : UploadSymbol) (symbols : References) (c : Conn)
    (t : Tree) where
  -- The state with the new symbols, and their names.
  abbrev pub grown : Conn
  grown = (add_symbol env (suc (length types)) types item c).1

  abbrev pub names : References
  names = flat_tree (kids grown.store) (length c.store) t

  enter_after :
      (d : Conn)
      → add_symbol env (suc (length types)) types item c ≡ (ok (length c.store), d)
      → enter env types item symbols c ≡ (
        add_childs
            (suc (length d.store))
            d.store
            (kids d.store (length c.store))
            (insert item.name (length c.store) symbols),
        d,
      )
  unfolding enter
  enter_after d run = rw run refl

  -- When the data type of a symbol of the upload expands to a tree, and the full names in the tree
  -- differ from each other and are new to the map of symbols, the code enters exactly the symbols
  -- of the tree, each parent before its children, behind those that were there, and each of them is
  -- found under its full name.
  pub enter-flat_tree :
      expand_top (suc (length types)) types item ≡ ok t
      → AreNew symbols names
      → (enter env types item symbols c ≡ (ok (symbols ++ names), grown))
        × AreFound (symbols ++ names) names
  enter-flat_tree e new =
      let (d, run, _, is) : BuiltOne (ok t) none c
          (add_symbol env (suc (length types)) types item c) =
        rw e at (add_symbol-BuiltOne env (suc (length types)) types item c) in
      let same : d ≡ grown = sym (ap (λ (x : Result ℕ × Conn). x.1) run) in
      (
        enter_after grown (run ∙ ap (λ (x : Conn). (ok (length c.store), x)) same)
            ∙ ap (λ (x : Result References). (x, grown))
                (entered t grown e
                  (subst (λ (x : Conn). IsTree x.store none (length c.store) t) same is) new),
        AreNew-AreFound symbols names new,
      )
    where
      entered :
          (t : Tree) (d : Conn)
          → expand_top (suc (length types)) types item ≡ ok t
          → IsTree d.store none (length c.store) t
          → AreNew symbols (flat_tree (kids d.store) (length c.store) t)
          → add_childs
              (suc (length d.store))
              d.store
              (kids d.store (length c.store))
              (insert item.name (length c.store) symbols)
            ≡ ok (symbols ++ flat_tree (kids d.store) (length c.store) t)
      entered (node facts below) d f (s, at, same, up, are) (fresh, news) =
          let r : ℕ = length c.store in
          let name : facts.full_name ≡ item.name =
            ap (λ (x : Facts). x.full_name)
              (expand_top_root (suc (length types)) types item facts below f) in
          let same_kids : kids d.store r ≡ s.childs = rw at refl in
          let start : insert item.name r symbols ≡ symbols ++ ((facts.full_name, r) ∷ []) =
            rw (← name) (insert-append facts.full_name r symbols fresh) in
          ap (add_childs (suc (length d.store)) d.store (kids d.store r)) start
          ∙ add_childs-flat_trees d.store below r (kids d.store r)
              (symbols ++ ((facts.full_name, r) ∷ [])) (rw same_kids are) news
          ∙ ap (λ (all : References). ok all)
              (append_assoc symbols ((facts.full_name, r) ∷ [])
                (flat_trees (kids d.store) (kids d.store r) below))

-- ===== src/SymbolTable/Visits.antt =====
-- addChilds ends on the trees of a store, and no name is lost.
use go_adstc.Prelude.{ℕ, zero, suc, ◌+◌, ◌≤◌, ◌≡◌, refl, ◌∙◌, arith, List, [], ◌∷◌, length}
use go_adstc.Prelude.{Option, none, some, ◌⊎◌, inl, inr, Bool-cases, false}
use go_adstc.Go.Result.{Result, ok}
use go_adstc.Go.Strconv.{text_eq}
use go_adstc.Go.Strconv.Laws.{text_eq_iff}
use go_adstc.Symbol.{Text, Symbol, lookup, insert}
use go_adstc.Symbol.Store.{symbol_at, symbol_at-lt-length}
use go_adstc.SymbolTable.{References, Visit, add_child, add_childs_loop, add_childs}
use go_adstc.SymbolTable.Trees.{Tree, Trees, node, no_trees, tree, IsTree, AreTrees}

pub lookup-insert_other :
    (k j : Text) (q : ℕ) (m : References)
    → text_eq k j ≡ false
    → lookup j (insert k q m) ≡ lookup j m
unfolding lookup insert
lookup-insert_other k j q [] ne = rw ne
lookup-insert_other k j q ((i, p) ∷ m) ne =
    ground
      (arith, text_eq_iff i k, text_eq_iff i j, text_eq_iff k j, lookup-insert_other k j q m ne)

-- Every name of the first map leads to the same symbol in the second.
abbrev pub Keeps : References → References → Type 0
Keeps m m' = (k : Text) (q : ℕ) → lookup k m ≡ some q → lookup k m' ≡ some q

abbrev Visited : Result References → References → Type 0
Visited r m = (m' : References) × (r ≡ ok m') × Keeps m m'

insert-Keeps : (k : Text) (q : ℕ) (m : References) → lookup k m ≡ none → Keeps m (insert k q m)
insert-Keeps k q m fresh j p at = elim (Bool-cases (text_eq k j)) [
  | inl same ↦ absurd (clash (rw ((text_eq_iff k j).0 same) at fresh))
  | inr other ↦ lookup-insert_other k j q m other ∙ at
]
  where
    clash : lookup j m ≡ none → ⊥
    clash e = cc

lookup_cases : (k : Text) (m : References) → ((q : ℕ) × (lookup k m ≡ some q)) ⊎ (lookup k m ≡ none)
lookup_cases k m = cases (lookup k m)
  where
    cases : (o : Option ℕ) → ((q : ℕ) × (o ≡ some q)) ⊎ (o ≡ none)
    cases none = inr refl
    cases (some q) = inl (q, refl)

module _ (store : List Symbol) where
  add_child_new :
      (deeper : Visit) (s : Symbol) (q : ℕ) (m : References)
      → Visited (deeper s.childs (insert s.full_name q m)) (insert s.full_name q m)
      → Visited (add_child deeper (some s) q m) m
  unfolding add_child
  add_child_new deeper s q m (m', e, keep) = elim (lookup_cases s.full_name m) [
    | inl (r, at) ↦ (m, rw (at, add_child), λ k p h. h)
    | inr fresh ↦
        (m', rw (fresh, add_child) e, λ k p h. keep k p (insert-Keeps s.full_name q m fresh k p h))
  ]

  add_childs_loop_step :
      (deeper : Visit) (key : Text) (q : ℕ) (more m : References)
      → Visited (add_child deeper (symbol_at q store) q m) m
      → ((m' : References) → Visited (add_childs_loop deeper store more m') m')
      → Visited (add_childs_loop deeper store ((key, q) ∷ more) m) m
  unfolding add_childs_loop
  add_childs_loop_step deeper key q more m (m1, e, keep) others =
      let (m2, f, keep') = others m1 in
      (m2, rw (e, add_childs_loop) f, λ k p h. keep' k p (keep k p h))

  no_more : (deeper : Visit) (m : References) → Visited (add_childs_loop deeper store [] m) m
  unfolding add_childs_loop
  no_more deeper m = (m, refl, λ k q h. h)

  mutual
    unfolding add_childs

    visit_tree :
        (t : Tree) (depth : ℕ) (parent : Option ℕ) (q : ℕ) (m : References)
        → IsTree store parent q t
        → length store ≤ depth + q
        → Visited (add_child (add_childs depth store) (symbol_at q store) q m) m
    visit_tree (node facts kids) zero parent q m (s, at, _, _, below) room =
        absurd (omega (arith, symbol_at-lt-length q store s at))
    visit_tree (node facts kids) (suc depth) parent q m (s, at, _, _, below) room = rw at (
        add_child_new (add_childs (suc depth) store) s q m
          (visit_trees kids depth q s.childs (insert s.full_name q m) below (omega arith)))

    visit_trees :
        (ts : Trees) (depth p : ℕ) (cs m : References)
        → AreTrees store p cs ts
        → length store ≤ depth + suc p
        → Visited (add_childs_loop (add_childs depth store) store cs m) m
    visit_trees no_trees depth p cs m e room = rw e (no_more (add_childs depth store) m)
    visit_trees (tree key t ts) depth p cs m (q, rest, e, lt, one, more) room = rw e (
        add_childs_loop_step (add_childs depth store) key q rest m
          (visit_tree t depth (some p) q m one (omega arith))
          (λ m'. visit_trees ts depth p rest m' more room))

  pub add_childs_total :
      (ts : Trees) (depth p : ℕ) (cs m : References)
      → AreTrees store p cs ts
      → length store ≤ depth + suc p
      → (m' : References) × (add_childs (suc depth) store cs m ≡ ok m') × Keeps m m'
  unfolding add_childs
  add_childs_total ts depth p cs m are room = visit_trees ts depth p cs m are room

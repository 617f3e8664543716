-- ===== src/Value/Update/Layouts.antt =====
-- Trees of symbols whose leaves lie in the data that parse is given.
use go_adstc.Prelude.{ℕ, ◌+◌, ◌≤◌, ◌≡◌, ap, ◌∙◌}
use go_adstc.Prelude.{List, [], ◌∷◌, length, Option, some, ◌⊎◌}
use go_adstc.Go.Result.{ok}
use go_adstc.Symbol.{Text, Symbol}
use go_adstc.Symbol.Store.{symbol_at}
use go_adstc.Conn.{Env, Conn}
use go_adstc.SymbolTable.{References}
use go_adstc.SymbolTable.Trees.{
  Facts, facts_of, Tree, Trees, node, no_trees, tree, IsTree, AreTrees,
}
use go_adstc.Value.{Formats, parse_leaf}
use go_adstc.Value.Update.Moves.{Moves, IsDue}
use go_adstc.Value.Update.Windows.{window}

-- A tree of a store is a tree of every store to which it moves.
mutual
  pub IsTree-Moves :
      (May : ℕ → Text → Type 0) (c d : Conn) (parent : Option ℕ) (r : ℕ) (t : Tree)
      → Moves May c d
      → IsTree c.store parent r t
      → IsTree d.store parent r t
  IsTree-Moves May c d parent r (node facts kids) m (s, at, same, up, below) =
      let (t, t_at, (calm, _)) = m.2 r s at in
      (
        t,
        t_at,
        ap facts_of calm ∙ same,
        ap (λ (x : Symbol). x.parent) calm ∙ up,
        rw (ap (λ (x : Symbol). x.childs) calm) (AreTrees-Moves May c d r s.childs kids m below),
      )

  pub AreTrees-Moves :
      (May : ℕ → Text → Type 0) (c d : Conn) (p : ℕ) (cs : References) (ts : Trees)
      → Moves May c d
      → AreTrees c.store p cs ts
      → AreTrees d.store p cs ts
  AreTrees-Moves May c d p cs no_trees m e = e
  AreTrees-Moves May c d p cs (tree key t ts) m (q, rest, e, lt, one, more) = (
    q,
    rest,
    e,
    lt,
    IsTree-Moves May c d (some p) q t m one,
    AreTrees-Moves May c d p rest ts m more,
  )

abbrev pub offset_of : Tree → ℕ
offset_of (node facts kids) = facts.offset

-- The leaves of a tree of symbols, at their references, where `kids` are the children of a symbol.
module _ (kids : ℕ → References) where
  abbrev pub AtLeaf : (ℕ → Type 0) → ℕ → Trees → Type 0
  AtLeaf P r no_trees = P r
  AtLeaf P r (tree key t ts) = Unit {0}

  abbrev mutual
    pub AllLeaves : (ℕ → Type 0) → ℕ → Tree → Type 0
    AllLeaves P r (node facts below) = AtLeaf P r below × AllBelow P (kids r) below

    pub AllBelow : (ℕ → Type 0) → References → Trees → Type 0
    AllBelow P cs no_trees = Unit {0}
    AllBelow P [] (tree key t ts) = ⊥
    AllBelow P ((k, q) ∷ cs) (tree key t ts) = AllLeaves P q t × AllBelow P cs ts

  mutual
    pub AllLeaves-map :
        (P Q : ℕ → Type 0) (r : ℕ) (t : Tree)
        → ((q : ℕ) → P q → Q q)
        → AllLeaves P r t
        → AllLeaves Q r t
    AllLeaves-map P Q r (node facts no_trees) f (h, below) = (f r h, tt)
    AllLeaves-map P Q r (node facts (tree key t ts)) f (h, below) =
        (tt, AllBelow-map P Q (kids r) (tree key t ts) f below)

    pub AllBelow-map :
        (P Q : ℕ → Type 0) (cs : References) (ts : Trees)
        → ((q : ℕ) → P q → Q q)
        → AllBelow P cs ts
        → AllBelow Q cs ts
    AllBelow-map P Q cs no_trees f h = tt
    AllBelow-map P Q [] (tree key t ts) f h = absurd h
    AllBelow-map P Q ((k, q) ∷ cs) (tree key t ts) f (one, more) =
        (AllLeaves-map P Q q t f one, AllBelow-map P Q cs ts f more)

  -- The leaf at a reference has a text in its window of the data, and each symbol lies in that of its
  -- parent.
  module _ (fmts : Formats) (text_at : ℕ → Text) where
    abbrev pub HasText : ℕ → Facts → List ℕ → Trees → Type 0
    HasText r facts w no_trees =
        parse_leaf fmts facts.data_type facts.length w 0 ≡ ok (some (text_at r))
    HasText r facts w (tree key t ts) = Unit {0}

    abbrev mutual
      pub IsLaid : ℕ → List ℕ → ℕ → Tree → Type 0
      IsLaid r bytes start (node facts below) =
          (start + facts.length ≤ length bytes)
          × HasText r facts (window facts.length start bytes) below
          × AreLaid (kids r) (window facts.length start bytes) below

      pub AreLaid : References → List ℕ → Trees → Type 0
      AreLaid cs w no_trees = Unit {0}
      AreLaid [] w (tree key t ts) = ⊥
      AreLaid ((k, q) ∷ cs) w (tree key t ts) = IsLaid q w (offset_of t) t × AreLaid cs w ts

module _ (kids : ℕ → References) (text_at : ℕ → Text) where
  abbrev pub HasValue : Conn → ℕ → Type 0
  HasValue c q =
      (s : Symbol) × (symbol_at q c.store ≡ some s) × (kids q ≡ []) × (s.value ≡ text_at q)

  -- The leaf has its text already, or takes a new one.
  abbrev pub IsReady : Env → Conn → ℕ → Type 0
  IsReady env c q =
      (s : Symbol) × (symbol_at q c.store ≡ some s)
      × (kids q ≡ [])
      × ((s.value ≡ text_at q) ⊎ IsDue env c s)

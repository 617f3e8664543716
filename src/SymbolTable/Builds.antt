-- ===== src/SymbolTable/Builds.antt =====
-- Objects that are new in the store, and what they are given as children.
use go_adstc.Prelude.{ℕ, suc, ◌≤◌, ◌≡◌, refl, ap, ◌∙◌, arith, [], ◌∷◌}
use go_adstc.Prelude.{◌++◌, length, Option, none, some, length-append}
use go_adstc.Go.Result.{Result, ok, err, panic, ◌>>=◌}
use go_adstc.Symbol.{Text, UploadType, Symbol}
use go_adstc.Symbol.Store.{symbol_at, change_at, with_childs, symbol_at-change_at}
use go_adstc.Symbol.Store.{
  symbol_at-change_at_other, length-change_at, symbol_at_new, symbol_at-append,
}
use go_adstc.Symbol.Store.{symbol_at-lt-length}
use go_adstc.Conn.{Conn, M, continue, pure}
use go_adstc.SymbolTable.{References, Builder, attach}
use go_adstc.SymbolTable.Trees.{Facts, facts_of, Tree, Trees, node}
use go_adstc.SymbolTable.Trees.{expand_below}
use go_adstc.SymbolTable.Trees.{IsTree, AreTrees, KeepsBehind, AreTrees-keeps}

-- The objects of the first state are in the second, and only the store and the clock differ.
abbrev pub Grows : Conn → Conn → Type 0
Grows c d =
    ((q : ℕ) (s : Symbol) → symbol_at q c.store ≡ some s → symbol_at q d.store ≡ some s)
    × (length c.store ≤ length d.store)
    × (d ≡ record c { store = d.store; clock_reads = d.clock_reads })

pub Grows-trans : (c d e : Conn) → Grows c d → Grows d e → Grows c e
Grows-trans c d e (k, l, s) (k', l', s') = (
  λ q x at. k' q x (k q x at),
  omega arith,
  s' ∙ ap (λ (x : Conn). record x { store = e.store; clock_reads = e.clock_reads }) s,
)

-- Builds a map of children as the tree says, or panics where it does.
abbrev pub Built : Result Trees → ℕ → Conn → Result References × Conn → Type 0
Built (ok ts) p c run =
    (cs : References) × (d : Conn) × (run ≡ (ok cs, d)) × Grows c d × AreTrees d.store p cs ts
Built (err e) p c run = ⊥
Built panic p c run = run.0 ≡ panic

-- Builds one object, the next one of the store, with its children.
abbrev pub BuiltOne : Result Tree → Option ℕ → Conn → Result ℕ × Conn → Type 0
BuiltOne (ok t) parent c run =
    (d : Conn) × (run ≡ (ok (length c.store), d))
    × Grows c d
    × IsTree d.store parent (length c.store) t
BuiltOne (err e) parent c run = ⊥
BuiltOne panic parent c run = run.0 ≡ panic

-- Has given the new object `s` of a state its children.
abbrev pub Attached : Result Trees → Symbol → Conn → Result (Unit {0}) × Conn → Type 0
Attached (ok ts) s c run =
    (cs : References) × (d : Conn) × (run ≡ (ok tt, d))
    × Grows c d
    × (symbol_at (length c.store) d.store ≡ some (with_childs cs s))
    × AreTrees d.store (length c.store) cs ts
Attached (err e) s c run = ⊥
Attached panic s c run = run.0 ≡ panic

-- The state with a new object.
abbrev pub made : Conn → Symbol → Conn
made c s = record c { store = c.store ++ (s ∷ []); clock_reads = suc c.clock_reads }

made-Grows : (c : Conn) (s : Symbol) → Grows c (made c s)
made-Grows c s = (
  λ q x at. symbol_at-append q c.store (s ∷ []) (symbol_at-lt-length q c.store x at) ∙ at,
  omega (arith, length-append c.store (s ∷ [])),
  refl,
)

pub continue_panic :
    {A B : Type 0} (r : Result A × Conn) (f : A → M B) → r.0 ≡ panic → (continue r f).0 ≡ panic
continue_panic (ok a, c) f e = cc
continue_panic (err x, c) f e = cc
continue_panic (panic, c) f e = refl

-- A change of the new object keeps the old ones, and those behind it.
module _ (c e : Conn) (s : Symbol) (cs : References) (g : Grows (made c s) e) where
  abbrev done : Conn
  done = record e { store = change_at (length c.store) (with_childs cs) e.store }

  done-Grows : Grows c done
  done-Grows = (
    λ q x at.
        symbol_at-change_at_other q (length c.store) (with_childs cs) e.store
          (λ same. omega (arith, same, symbol_at-lt-length q c.store x at))
        ∙ (Grows-trans c (made c s) e (made-Grows c s) g).0 q x at,
    omega (
      arith,
      (Grows-trans c (made c s) e (made-Grows c s) g).1,
      length-change_at (length c.store) (with_childs cs) e.store,
    ),
    ap (λ (x : Conn). record x { store = done.store })
        (Grows-trans c (made c s) e (made-Grows c s) g).2,
  )

  done-at : symbol_at (length c.store) done.store ≡ some (with_childs cs s)
  done-at =
      symbol_at-change_at (length c.store) (with_childs cs) e.store s
        (g.0 (length c.store) s (symbol_at_new c.store s))

  done-KeepsBehind : KeepsBehind (length c.store) e.store done.store
  done-KeepsBehind q x lt at =
      symbol_at-change_at_other q (length c.store) (with_childs cs) e.store
        (λ same. omega (arith, same))
      ∙ at

attach-Attached :
    (build : Builder) (E : Result Trees) (path name : Text) (dt : UploadType) (c : Conn)
    (s : Symbol)
    → Built E (length c.store) (made c s) (build (length c.store) path name dt (made c s))
    → Attached E s c (attach build (length c.store) path name (some dt) (made c s))
unfolding attach
attach-Attached build (ok ts) path name dt c s (cs, e, run, g, trees) = (
  cs,
  done c e s cs g,
  rw run,
  done-Grows c e s cs g,
  done-at c e s cs g,
  AreTrees-keeps (length c.store) e.store (done c e s cs g).store (length c.store) cs ts
      (done-KeepsBehind c e s cs g) (omega arith) trees,
)
attach-Attached build (err e) path name dt c s h = absurd h
attach-Attached build panic path name dt c s h = continue_panic _ _ h

pub attach_below :
    (build : Builder) (deeper : Text → Text → UploadType → Result Trees) (path name : Text)
    (o : Option UploadType) (c : Conn) (s : Symbol)
    → s.childs ≡ []
    → ((dt : UploadType)
        → Built
            (deeper path name dt)
            (length c.store)
            (made c s)
            (build (length c.store) path name dt (made c s)))
    → Attached
        (expand_below deeper path name o)
        s
        c
        (attach build (length c.store) path name o (made c s))
unfolding expand_below
attach_below build deeper path name none c s none_yet h =
    (s.childs, made c s, unfold attach in refl, made-Grows c s, symbol_at_new c.store s, none_yet)
attach_below build deeper path name (some dt) c s none_yet h =
    attach-Attached build (deeper path name dt) path name dt c s (h dt)

pub Attached-BuiltOne :
    (E : Result Trees) (facts : Facts) (parent : Option ℕ) (s : Symbol) (c : Conn)
    (run : Result (Unit {0}) × Conn)
    → facts_of s ≡ facts
    → s.parent ≡ parent
    → Attached E s c run
    → BuiltOne
        (E >>= λ below. ok (node facts below))
        parent
        c
        (continue run (λ _. pure (length c.store)))
Attached-BuiltOne (ok ts) facts parent s c run same up (cs, d, e, g, at, below) =
    (d, rw e, g, (with_childs cs s, at, same, up, below))
Attached-BuiltOne (err e) facts parent s c run same up h = absurd h
Attached-BuiltOne panic facts parent s c run same up h = continue_panic run _ h

-- ===== src/Symbol/Store.antt =====
-- The objects behind *Symbol: a store, with their places as references.
use go_adstc.Prelude.{ℕ, zero, suc, ◌<◌, ◌≡◌, ◌≢◌, refl, ap, List, [], ◌∷◌, ◌++◌, length}
use go_adstc.Prelude.{Option, none, some, arith}
use go_adstc.Symbol.{Text, Symbol}

-- The symbol behind a reference, and a change of it.
abbrev pub symbol_at : ℕ → List Symbol → Option Symbol
symbol_at r [] = none
symbol_at zero (s ∷ ss) = some s
symbol_at (suc r) (s ∷ ss) = symbol_at r ss

abbrev pub change_at : ℕ → (Symbol → Symbol) → List Symbol → List Symbol
change_at r f [] = []
change_at zero f (s ∷ ss) = f s ∷ ss
change_at (suc r) f (s ∷ ss) = s ∷ change_at r f ss

abbrev pub with_handle : ℕ → Symbol → Symbol
with_handle h s = record s { handle = h }

abbrev pub with_receiver : ℕ → Symbol → Symbol
with_receiver channel s = record s { notification = some channel }

abbrev pub with_childs : List (Text × ℕ) → Symbol → Symbol
with_childs cs s = record s { childs = cs }

pub symbol_at-change_at :
    (r : ℕ) (f : Symbol → Symbol) (ss : List Symbol) (s : Symbol)
    → symbol_at r ss ≡ some s
    → symbol_at r (change_at r f ss) ≡ some (f s)
symbol_at-change_at r f [] s e = cc
symbol_at-change_at zero f (t ∷ ss) s e =
    ap (λ (o : Option Symbol). elim o [ none ↦ none | some x ↦ some (f x) ]) e
symbol_at-change_at (suc r) f (t ∷ ss) s e = symbol_at-change_at r f ss s e

pub symbol_at-change_at_other :
    (q r : ℕ) (f : Symbol → Symbol) (ss : List Symbol)
    → q ≢ r
    → symbol_at q (change_at r f ss) ≡ symbol_at q ss
symbol_at-change_at_other q r f [] ne = refl
symbol_at-change_at_other zero zero f (t ∷ ss) ne = absurd (ne refl)
symbol_at-change_at_other (suc q) zero f (t ∷ ss) ne = refl
symbol_at-change_at_other zero (suc r) f (t ∷ ss) ne = refl
symbol_at-change_at_other (suc q) (suc r) f (t ∷ ss) ne =
    symbol_at-change_at_other q r f ss (λ e. ne (ap suc e))

pub length-change_at :
    (r : ℕ) (f : Symbol → Symbol) (ss : List Symbol) → length (change_at r f ss) ≡ length ss
length-change_at r f [] = refl
length-change_at zero f (t ∷ ss) = refl
length-change_at (suc r) f (t ∷ ss) = ap suc (length-change_at r f ss)

-- A new object stands behind all others.
pub symbol_at_new :
    (ss : List Symbol) (s : Symbol) → symbol_at (length ss) (ss ++ (s ∷ [])) ≡ some s
symbol_at_new [] s = refl
symbol_at_new (t ∷ ss) s = symbol_at_new ss s

pub symbol_at-append :
    (r : ℕ) (ss ts : List Symbol) → r < length ss → symbol_at r (ss ++ ts) ≡ symbol_at r ss
symbol_at-append r [] ts h = absurd (omega arith)
symbol_at-append zero (t ∷ ss) ts h = refl
symbol_at-append (suc r) (t ∷ ss) ts h = symbol_at-append r ss ts (omega arith)

pub symbol_at-lt-length :
    (r : ℕ) (ss : List Symbol) (s : Symbol) → symbol_at r ss ≡ some s → r < length ss
symbol_at-lt-length r [] s e = cc
symbol_at-lt-length zero (t ∷ ss) s e = omega arith
symbol_at-lt-length (suc r) (t ∷ ss) s e = omega (arith, symbol_at-lt-length r ss s e)

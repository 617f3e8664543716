-- ===== src/Connection/Marks.antt =====
-- What no run takes away from a symbol: its place, its core, and its mark.
use go_adstc.Prelude.{ℕ, zero, suc, ◌≡◌, refl, ap, ◌∙◌, List, [], ◌∷◌, length}
use go_adstc.Prelude.{Option, none, some, true}
use go_adstc.Symbol.{Text, Symbol}
use go_adstc.Symbol.Store.{symbol_at, change_at, symbol_at-append, symbol_at-lt-length}
use go_adstc.Conn.{Env, Conn, continue, modify, now}
use go_adstc.Value.Update.{with_changed, with_value, or_panic, changed_above, parent_changed}
use go_adstc.Value.Update.{set_value}
use go_adstc.Value.Update.Walk.{Covers, parse-Stays}
use go_adstc.Value.Update.Changed.{calm}
use go_adstc.Value.Update.Frame.{valued}
use go_adstc.Connection.Invariant.{Invariant, core}

-- The symbol is still there, and marked if it was.
abbrev pub Lasts : List Symbol → ℕ → Symbol → Type 0
Lasts new q s =
    (t : Symbol) × (symbol_at q new ≡ some t)
    × (calm (core t) ≡ calm (core s))
    × (s.changed ≡ true → t.changed ≡ true)

abbrev pub Grown : List Symbol → List Symbol → Type 0
Grown old new = (q : ℕ) (s : Symbol) → symbol_at q old ≡ some s → Lasts new q s

pub Grown-refl : (ss : List Symbol) → Grown ss ss
Grown-refl ss q s at = (s, at, refl, λ e. e)

Grown-trans : (a b c : List Symbol) → Grown a b → Grown b c → Grown a c
Grown-trans a b c g h q s at =
    let (t, t_at, same, mark) = g q s at in
    let (u, u_at, same', mark') = h q t t_at in (u, u_at, same' ∙ same, λ e. mark' (mark e))

module _ (f : Symbol → Symbol) (same : (s : Symbol) → calm (core (f s)) ≡ calm (core s))
    (mark : (s : Symbol) → s.changed ≡ true → (f s).changed ≡ true) where
  change_at-Grown : (r : ℕ) (ss : List Symbol) → Grown ss (change_at r f ss)
  change_at-Grown r [] q s at = cc
  change_at-Grown zero (x ∷ ss) zero s at = (
    f s,
    ap (λ (o : Option Symbol). elim o [ none ↦ none | some y ↦ some (f y) ]) at,
    same s,
    mark s,
  )
  change_at-Grown zero (x ∷ ss) (suc q) s at = (s, at, refl, λ e. e)
  change_at-Grown (suc r) (x ∷ ss) zero s at = (s, at, refl, λ e. e)
  change_at-Grown (suc r) (x ∷ ss) (suc q) s at = change_at-Grown r ss q s at

abbrev GrownAll : List Symbol → Option (List Symbol) → Type 0
GrownAll old none = Unit {0}
GrownAll old (some new) = Grown old new

changed_above_grown :
    (up : ℕ → List Symbol → Option (List Symbol)) (o : Option Symbol) (store : List Symbol)
    → ((p : ℕ) → GrownAll store (up p store))
    → GrownAll store (changed_above up o store)
unfolding changed_above
changed_above_grown up none store h = tt
changed_above_grown up (some s) store h = parents s.parent
  where
    parents : (o : Option ℕ) → GrownAll store (elim o [ none ↦ some store | some p ↦ up p store ])
    parents none = Grown-refl store
    parents (some p) = h p

mark_grown :
    (r : ℕ) (store : List Symbol) (o : Option (List Symbol))
    → GrownAll store o
    → GrownAll store (elim o [ none ↦ none | some new ↦ some (change_at r with_changed new) ])
mark_grown r store none h = tt
mark_grown r store (some new) h =
    Grown-trans store new (change_at r with_changed new) h
      (change_at-Grown with_changed (λ s. refl) (λ s e. refl) r new)

parent_changed_grown :
    (depth r : ℕ) (store : List Symbol) → GrownAll store (parent_changed depth r store)
unfolding parent_changed
parent_changed_grown zero r store = tt
parent_changed_grown (suc depth) r store =
    mark_grown r store (changed_above (parent_changed depth) (symbol_at r store) store) (
      changed_above_grown (parent_changed depth) (symbol_at r store) store
        (λ p. parent_changed_grown depth p store))

abbrev GrownConn : Conn → Conn → Type 0
GrownConn c d = Grown c.store d.store

mark_all-Grown :
    (d : Conn) (o : Option (List Symbol))
    → GrownAll d.store o
    → GrownConn d (continue (or_panic o, d) (λ new. modify (λ x. record x { store = new }))).1
mark_all-Grown d none h = Grown-refl d.store
mark_all-Grown d (some new) h = h

module _ (env : Env) where
  set_value-Grown : (r : ℕ) (value : Text) (c : Conn) → GrownConn c (set_value env r value c).1
  unfolding set_value now
  set_value-Grown r value c =
      let time : ℕ = env.clock c.clock_reads in
      let d : Conn = valued env r value c in
      Grown-trans c.store d.store _
        (change_at-Grown (with_value value time) (λ s. refl) (λ s e. refl) r c.store)
        (mark_all-Grown d (parent_changed (suc (length d.store)) r d.store)
          (parent_changed_grown (suc (length d.store)) r d.store))

  Grown-Covers : Covers env GrownConn
  Grown-Covers = record {
    same = λ c. Grown-refl c.store;
    both = λ c d e. Grown-trans c.store d.store e.store;
    tick = λ c. Grown-refl c.store;
    set = λ r value s c at. set_value-Grown r value c;
  }

  pub Grown-Invariant : (old : List Symbol) → Invariant env (Grown old)
  Grown-Invariant old = record {
    change = λ r f ss same h. Grown-trans old ss (change_at r f ss) h (
        change_at-Grown f (λ s. ap calm (same s))
          (λ s e. ap (λ (x : Symbol). x.changed) (same s) ∙ e) r ss);
    extend = λ ss s calm_new below h. λ q x at.
        let (t, t_at, same, mark) = h q x at in
        (t, symbol_at-append q ss _ (symbol_at-lt-length q ss t t_at) ∙ t_at, same, mark);
    parsed = λ enc fmts depth r bytes start c h.
        Grown-trans old c.store _ h
          (parse-Stays env GrownConn Grown-Covers enc fmts depth r bytes start c);
  }

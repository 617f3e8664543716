-- ===== src/Value/Update/Changed.antt =====
-- A symbol that is marked as changed has only ancestors that are marked, before and after parse.
use go_adstc.Prelude.{
  ℕ, zero, suc, ◌<◌, ◌≡◌, ◌≢◌, refl, ap, sym, ◌∙◌, arith, List, [], ◌∷◌, map, length,
}
use go_adstc.Prelude.{Option, none, some, true, false, ◌==◌, ◌⊎◌, inl, inr, Bool-cases}
use go_adstc.Go.Result.{ok}
use go_adstc.Symbol.{Text, Symbol}
use go_adstc.Symbol.Store.{symbol_at, change_at, symbol_at-change_at, symbol_at-change_at_other}
use go_adstc.Symbol.Store.{symbol_at-lt-length}
use go_adstc.Conn.{Env, Conn, now}
use go_adstc.SymbolTable.Json.{Encoder}
use go_adstc.Value.{Formats}
use go_adstc.Value.Update.{with_changed, with_value, changed_above, parent_changed, set_value}
use go_adstc.Value.Update.{parse}
use go_adstc.Value.Update.Walk.{Covers, parse-Stays}
use go_adstc.Value.Update.Frame.{still, still-change_at, set_value-Frame, valued}

-- The parent of each symbol stands before it.
abbrev pub Rooted : List Symbol → Type 0
Rooted ss = (r p : ℕ) (s : Symbol) → symbol_at r ss ≡ some s → s.parent ≡ some p → p < r

abbrev Marked : List Symbol → ℕ → Type 0
Marked ss p = (t : Symbol) → symbol_at p ss ≡ some t → t.changed ≡ true

-- If the symbol is changed, so is its parent.
abbrev pub UpwardAt : List Symbol → ℕ → Type 0
UpwardAt ss q =
    (p : ℕ) (s : Symbol)
    → symbol_at q ss ≡ some s
    → s.parent ≡ some p
    → s.changed ≡ true
    → Marked ss p

abbrev pub Upward : List Symbol → Type 0
Upward ss = (q : ℕ) → UpwardAt ss q

-- A symbol without its mark.
abbrev pub calm : Symbol → Symbol
calm s = record s { changed = false }

-- The second store differs from the first in marks only, and no parent that was right is wrong.
abbrev Raises : List Symbol → List Symbol → Type 0
Raises old new =
    ((q : ℕ) (s : Symbol)
      → symbol_at q old ≡ some s
      → (t : Symbol) × (symbol_at q new ≡ some t) × (calm t ≡ calm s))
    × ((q : ℕ) → UpwardAt old q → UpwardAt new q)

Raises-refl : (ss : List Symbol) → Raises ss ss
Raises-refl ss = (λ q s at. (s, at, refl), λ q h. h)

pub eq_cases : (q r : ℕ) → (q ≡ r) ⊎ (q ≢ r)
eq_cases q r = elim (Bool-cases (q == r)) [
  | inl e ↦ inl (ground arith)
  | inr e ↦ inr (λ p. ground arith)
]

-- The mark of one symbol, when the marks of its parent are made.
module _ (r : ℕ) (old new : List Symbol) (s : Symbol) (at : symbol_at r old ≡ some s)
    (up : Raises old new) (done : (p : ℕ) → s.parent ≡ some p → Marked new p) where
  abbrev after : List Symbol
  after = change_at r with_changed new

  other : (q : ℕ) → q ≢ r → symbol_at q after ≡ symbol_at q new
  other q ne = symbol_at-change_at_other q r with_changed new ne

  after_at : (t : Symbol) × (symbol_at r after ≡ some (with_changed t)) × (calm t ≡ calm s)
  after_at =
      let (t, new_at, same) = up.0 r s at in
      (t, symbol_at-change_at r with_changed new t new_at, same)

  after-Marked : Marked after r
  after-Marked t e =
      let (u, f, _) = after_at in
      ap (λ (o : Option Symbol). elim o [ none ↦ true | some x ↦ x.changed ]) (sym e ∙ f)

  after-UpwardAt : (q : ℕ) → (q ≡ r) ⊎ UpwardAt old q → UpwardAt after q
  after-UpwardAt q right p x x_at x_up marked t t_at = elim (eq_cases p r) [
    | inl e ↦ after-Marked t (rw e at t_at)
    | inr other_p ↦
        let t_new : symbol_at p new ≡ some t = sym (other p other_p) ∙ t_at in
        elim (eq_cases q r) [
          | inl e ↦ done p (parent_same (rw e at x_at)) t t_new
          | inr other_q ↦
              let x_new : symbol_at q new ≡ some x = sym (other q other_q) ∙ x_at in
              elim right [
                | inl e ↦ absurd (other_q e)
                | inr h ↦ up.1 q h p x x_new x_up marked t t_new
              ]
        ]
  ]
    where
      parent_same : symbol_at r after ≡ some x → s.parent ≡ some p
      parent_same e =
          let (u, f, same) = after_at in
          sym (ap (λ (y : Symbol). y.parent) same)
          ∙ ap (λ (o : Option Symbol). elim o [ none ↦ none | some y ↦ y.parent ]) (sym f ∙ e)
          ∙ x_up

  still_there :
      (q : ℕ) (t : Symbol)
      → symbol_at q new ≡ some t
      → (u : Symbol) × (symbol_at q after ≡ some u) × (calm u ≡ calm t)
  still_there q t t_at = elim (eq_cases q r) [
    | inl e ↦ (with_changed t, rw e (symbol_at-change_at r with_changed new t (rw e at t_at)), refl)
    | inr ne ↦ (t, other q ne ∙ t_at, refl)
  ]

  after_kept :
      (q : ℕ) (x : Symbol)
      → symbol_at q old ≡ some x
      → (u : Symbol) × (symbol_at q after ≡ some u) × (calm u ≡ calm x)
  after_kept q x x_at =
      let (t, t_at, same) = up.0 q x x_at in
      let (u, u_at, same') = still_there q t t_at in (u, u_at, same' ∙ same)

-- What parentChanged makes of a store: marks, on the symbol too, and no parent is wrong, not even that
-- of a symbol that was marked before its parents were.
abbrev pub Raised : ℕ → List Symbol → List Symbol → Type 0
Raised r old new =
    ((q : ℕ) (s : Symbol)
      → symbol_at q old ≡ some s
      → (t : Symbol) × (symbol_at q new ≡ some t) × (calm t ≡ calm s))
    × Marked new r
    × ((q : ℕ) → (q ≡ r) ⊎ UpwardAt old q → UpwardAt new q)

symbol_at_below :
    (p : ℕ) (ss : List Symbol) → p < length ss → (t : Symbol) × (symbol_at p ss ≡ some t)
symbol_at_below p [] h = absurd (omega arith)
symbol_at_below zero (s ∷ ss) h = (s, refl)
symbol_at_below (suc p) (s ∷ ss) h = symbol_at_below p ss (omega arith)

parent_cases : (o : Option ℕ) → ((p : ℕ) × (o ≡ some p)) ⊎ (o ≡ none)
parent_cases none = inr refl
parent_cases (some p) = inl (p, refl)

parent_changed_up :
    (depth r p : ℕ) (ss new : List Symbol) (s : Symbol)
    → symbol_at r ss ≡ some s
    → s.parent ≡ some p
    → parent_changed depth p ss ≡ some new
    → parent_changed (suc depth) r ss ≡ some (change_at r with_changed new)
unfolding parent_changed changed_above
parent_changed_up depth r p ss new s at up e = rw (parent_changed, at) (rw up (rw e))

parent_changed_top :
    (depth r : ℕ) (ss : List Symbol) (s : Symbol)
    → symbol_at r ss ≡ some s
    → s.parent ≡ none
    → parent_changed (suc depth) r ss ≡ some (change_at r with_changed ss)
unfolding parent_changed changed_above
parent_changed_top depth r ss s at top = rw (parent_changed, at) (rw top)

pub parent_changed_total :
    (depth r : ℕ) (ss : List Symbol) (s : Symbol)
    → symbol_at r ss ≡ some s
    → Rooted ss
    → r < depth
    → (new : List Symbol) × (parent_changed depth r ss ≡ some new) × Raised r ss new
parent_changed_total zero r ss s at rooted lt = absurd (omega arith)
parent_changed_total (suc depth) r ss s at rooted lt = elim (parent_cases s.parent) [
  | inl (p, up) ↦
      let before : p < r = rooted r p s at up in
      let (t, t_at) = symbol_at_below p ss (omega (arith, symbol_at-lt-length r ss s at)) in
      let (new, e, (kept, marked, right)) =
        parent_changed_total depth p ss t t_at rooted (omega arith) in
      let raises : Raises ss new = (kept, λ q h. right q (inr h)) in
      let done : (j : ℕ) → s.parent ≡ some j → Marked new j =
        λ j f. let same : p ≡ j = cc in rw (← same) marked in
      (
        after r ss new s at raises done,
        parent_changed_up depth r p ss new s at up e,
        (
          after_kept r ss new s at raises done,
          after-Marked r ss new s at raises done,
          after-UpwardAt r ss new s at raises done,
        ),
      )
  | inr top ↦
      let done : (j : ℕ) → s.parent ≡ some j → Marked ss j = λ j f. absurd (no_parent j f top) in
      (
        after r ss ss s at (Raises-refl ss) done,
        parent_changed_top depth r ss s at top,
        (
          after_kept r ss ss s at (Raises-refl ss) done,
          after-Marked r ss ss s at (Raises-refl ss) done,
          after-UpwardAt r ss ss s at (Raises-refl ss) done,
        ),
      )
]
  where
    no_parent : (j : ℕ) → s.parent ≡ some j → s.parent ≡ none → ⊥
    no_parent j f g = cc

symbol_at-map :
    (r : ℕ) (ss : List Symbol)
    → symbol_at r (map still ss) ≡ (elim (symbol_at r ss) [ none ↦ none | some s ↦ some (still s) ])
symbol_at-map r [] = refl
symbol_at-map zero (s ∷ ss) = refl
symbol_at-map (suc r) (s ∷ ss) = symbol_at-map r ss

-- Parents are not changed by parse.
Rooted-still : (old new : List Symbol) → map still new ≡ map still old → Rooted old → Rooted new
Rooted-still old new same rooted r p s at up = from (symbol_at r old) refl (
    sym (symbol_at-map r old)
    ∙ ap (λ (ss : List Symbol). symbol_at r ss) (sym same)
    ∙ symbol_at-map r new
    ∙ ap (λ (o : Option Symbol). elim o [ none ↦ none | some x ↦ some (still x) ]) at)
  where
    from :
        (o : Option Symbol)
        → symbol_at r old ≡ o
        → (elim o [ none ↦ none | some x ↦ some (still x) ]) ≡ some (still s)
        → p < r
    from none e f = cc
    from (some x) e f =
        rooted r p x e
          (ap (λ (o : Option Symbol). elim o [ none ↦ none | some y ↦ y.parent ]) f ∙ up)

-- The store is rooted, and marks go upward.
abbrev pub IsSound : Conn → Type 0
IsSound c = Rooted c.store × Upward c.store

-- A new value marks its symbol, whatever its parent is.
valued-UpwardAt :
    (r : ℕ) (f : Symbol → Symbol) (ss : List Symbol) (s : Symbol)
    → symbol_at r ss ≡ some s
    → ((x : Symbol) → (f x).changed ≡ true)
    → Upward ss
    → (q : ℕ) → (q ≡ r) ⊎ UpwardAt (change_at r f ss) q
valued-UpwardAt r f ss s at marks upward q = elim (eq_cases q r) [
  | inl e ↦ inl e
  | inr other_q ↦ inr (λ p x x_at x_up marked t t_at. elim (eq_cases p r) [
    | inl e ↦ new_value t (rw e at t_at)
    | inr other_p ↦
        upward q p x (sym (symbol_at-change_at_other q r f ss other_q) ∙ x_at) x_up marked t
          (sym (symbol_at-change_at_other p r f ss other_p) ∙ t_at)
  ])
]
  where
    new_value : (t : Symbol) → symbol_at r (change_at r f ss) ≡ some t → t.changed ≡ true
    new_value t e =
        ap (λ (o : Option Symbol). elim o [ none ↦ true | some x ↦ x.changed ])
          (sym e ∙ symbol_at-change_at r f ss s at)
        ∙ marks s

module _ (env : Env) where
  -- set_value on a symbol of a sound store: the value is in, and the marks are made.
  pub set_value-at :
      (r : ℕ) (value : Text) (s : Symbol) (c : Conn)
      → symbol_at r c.store ≡ some s
      → IsSound c
      → (new : List Symbol) × (t : Symbol) × (set_value env r value c
          ≡ (ok tt, record (valued env r value c) { store = new }))
        × (symbol_at r new ≡ some t)
        × (calm t ≡ calm (with_value value (env.clock c.clock_reads) s))
        × Upward new
        × ((q : ℕ) (x : Symbol)
            → q ≢ r
            → symbol_at q c.store ≡ some x
            → (y : Symbol) × (symbol_at q new ≡ some y) × (calm y ≡ calm x))
  unfolding set_value now
  set_value-at r value s c at (rooted, upward) =
      let d : Conn = valued env r value c in
      let f : Symbol → Symbol = with_value value (env.clock c.clock_reads) in
      let d_at : symbol_at r d.store ≡ some (f s) = symbol_at-change_at r f c.store s at in
      let d_rooted : Rooted d.store =
        Rooted-still c.store d.store (still-change_at r f c.store (λ x. refl)) rooted in
      let (new, e, (kept, _, right)) =
        parent_changed_total (suc (length d.store)) r d.store (f s) d_at d_rooted
          (omega (arith, symbol_at-lt-length r d.store (f s) d_at)) in
      let (t, t_at, same) = kept r (f s) d_at in
      (
        new,
        t,
        rw e,
        t_at,
        same,
        λ q. right q (valued-UpwardAt r f c.store s at (λ x. refl) upward q),
        λ q x other q_at. kept q x (symbol_at-change_at_other q r f c.store other ∙ q_at),
      )

  set_value-IsSound :
      (r : ℕ) (value : Text) (s : Symbol) (c : Conn)
      → symbol_at r c.store ≡ some s
      → IsSound c
      → IsSound (set_value env r value c).1
  set_value-IsSound r value s c at sound =
      let (new, t, e, _, _, upward, _) = set_value-at r value s c at sound in
      (
        Rooted-still c.store (set_value env r value c).1.store (set_value-Frame env r value c).0
            sound.0,
        rw e upward,
      )

  Sound-Covers : Covers env (λ c d. IsSound c → IsSound d)
  Sound-Covers = record {
    same = λ c h. h;
    both = λ c d e f g h. g (f h);
    tick = λ c h. h;
    set = set_value-IsSound;
  }

  -- parse, whatever it returns, keeps the store sound: each parent stands before its children, and
  -- the parent of every changed symbol is changed.
  pub parse-IsSound :
      (enc : Encoder) (fmts : Formats) (depth r : ℕ) (bytes : List ℕ) (start : ℕ) (c : Conn)
      → IsSound c
      → IsSound (parse env enc fmts depth r bytes start c).1
  parse-IsSound enc fmts depth r bytes start c =
      parse-Stays env (λ c d. IsSound c → IsSound d) Sound-Covers enc fmts depth r bytes start c

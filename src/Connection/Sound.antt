-- ===== src/Connection/Sound.antt =====
-- The stores that a connection builds are sound: parents stand first, and marks go upward.
use go_adstc.Prelude.{ℕ, zero, suc, ◌<◌, ◌≡◌, refl, ap, sym, ◌∙◌, arith, List, [], ◌∷◌, ◌++◌}
use go_adstc.Prelude.{length, Option, none, some, Bool, true, false, ◌⊎◌, inl, inr}
use go_adstc.Symbol.{Symbol}
use go_adstc.Symbol.Store.{symbol_at, change_at}
use go_adstc.Conn.{Env}
use go_adstc.Value.Update.Changed.{Rooted, Upward, parse-IsSound}
use go_adstc.Connection.Invariant.{Invariant}

-- The object is an old one, or the new one.
symbol_at-snoc :
    (q : ℕ) (ss : List Symbol) (s x : Symbol)
    → symbol_at q (ss ++ (s ∷ [])) ≡ some x
    → ((symbol_at q ss ≡ some x) × (q < length ss)) ⊎ ((q ≡ length ss) × (s ≡ x))
symbol_at-snoc zero [] s x e = inr (refl, cc)
symbol_at-snoc (suc q) [] s x e = cc
symbol_at-snoc zero (t ∷ ss) s x e = inl (e, omega arith)
symbol_at-snoc (suc q) (t ∷ ss) s x e = elim (symbol_at-snoc q ss s x e) [
  | inl h ↦ inl (h.0, omega (arith, h.1))
  | inr h ↦ inr (ap suc h.0, h.1)
]

-- A new object without a mark, whose parent is there.
module _ (ss : List Symbol) (s : Symbol) (calm : s.changed ≡ false)
    (below : (p : ℕ) → s.parent ≡ some p → p < length ss) where
  snoc-Rooted : Rooted ss → Rooted (ss ++ (s ∷ []))
  snoc-Rooted rooted r p x at up = elim (symbol_at-snoc r ss s x at) [
    | inl h ↦ rooted r p x h.0 up
    | inr h ↦ rw (h.0) (below p (ap (λ (y : Symbol). y.parent) h.1 ∙ up))
  ]

  snoc-Upward : Rooted ss → Upward ss → Upward (ss ++ (s ∷ []))
  snoc-Upward rooted upward q p x at up marked t t_at = elim (symbol_at-snoc q ss s x at) [
    | inl h ↦ elim (symbol_at-snoc p ss s t t_at) [
      | inl k ↦ upward q p x h.0 up marked t k.0
      | inr k ↦ absurd (omega (arith, k.0, h.1, rooted q p x h.0 up))
    ]
    | inr h ↦ absurd (clash (sym calm ∙ ap (λ (y : Symbol). y.changed) h.1 ∙ marked))
  ]
    where
      clash : false ≡ true → ⊥
      clash e = cc

-- A change of one object that leaves its parent and its mark as they are.
module _ (f : Symbol → Symbol) (same_parent : (s : Symbol) → (f s).parent ≡ s.parent)
    (same_mark : (s : Symbol) → (f s).changed ≡ s.changed) where
  change_at_back :
      (q r : ℕ) (ss : List Symbol) (x : Symbol)
      → symbol_at q (change_at r f ss) ≡ some x
      → (y : Symbol) × (symbol_at q ss ≡ some y) × (y.parent ≡ x.parent) × (y.changed ≡ x.changed)
  change_at_back q r [] x e = cc
  change_at_back zero zero (s ∷ ss) x e =
      (s, refl, sym (same_parent s) ∙ ap parent_in e, sym (same_mark s) ∙ ap changed_in e)
    where
      parent_in : Option Symbol → Option ℕ
      parent_in none = none
      parent_in (some y) = y.parent

      changed_in : Option Symbol → Bool
      changed_in none = false
      changed_in (some y) = y.changed
  change_at_back (suc q) zero (s ∷ ss) x e = (x, e, refl, refl)
  change_at_back zero (suc r) (s ∷ ss) x e = (x, e, refl, refl)
  change_at_back (suc q) (suc r) (s ∷ ss) x e = change_at_back q r ss x e

  pub change_at-Rooted : (r : ℕ) (ss : List Symbol) → Rooted ss → Rooted (change_at r f ss)
  change_at-Rooted r ss rooted q p x at up =
      let (y, y_at, same, _) = change_at_back q r ss x at in rooted q p y y_at (same ∙ up)

  pub change_at-Upward : (r : ℕ) (ss : List Symbol) → Upward ss → Upward (change_at r f ss)
  change_at-Upward r ss upward q p x at up marked t t_at =
      let (y, y_at, same, mark) = change_at_back q r ss x at in
      let (u, u_at, _, mark') = change_at_back p r ss t t_at in
      sym mark' ∙ upward q p y y_at (same ∙ up) (mark ∙ marked) u u_at

-- The parents stand first and the marks go upward.
abbrev pub AreSound : List Symbol → Type 0
AreSound ss = Rooted ss × Upward ss

pub AreSound-Invariant : (env : Env) → Invariant env AreSound
AreSound-Invariant env = record {
  change = λ r f ss same sound.
      let up : (s : Symbol) → (f s).parent ≡ s.parent =
        λ s. ap (λ (x : Symbol). x.parent) (same s) in
      let mark : (s : Symbol) → (f s).changed ≡ s.changed =
        λ s. ap (λ (x : Symbol). x.changed) (same s) in
      (change_at-Rooted f up mark r ss sound.0, change_at-Upward f up mark r ss sound.1);
  extend = λ ss s calm below sound.
      (snoc-Rooted ss s calm below sound.0, snoc-Upward ss s calm below sound.0 sound.1);
  parsed = parse-IsSound env;
}

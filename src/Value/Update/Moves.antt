-- ===== src/Value/Update/Moves.antt =====
-- What a call may do to the values of symbols, each of which may get only some values.
use go_adstc.Prelude.{ℕ, suc, ◌+◌, ◌≤◌, ◌<◌, ◌≡◌, ◌≢◌, refl, ap, sym, ◌∙◌, arith, false, ltb}
use go_adstc.Prelude.{List, [], ◌∷◌, map, length, some, ◌⊎◌, inl, inr, Bool-cases, lt→ltb}
use go_adstc.Go.Result.{Result, ok}
use go_adstc.Go.Int.{is_zero}
use go_adstc.Symbol.{Text, Symbol}
use go_adstc.Symbol.Store.{symbol_at}
use go_adstc.Conn.{Env, Conn, now}
use go_adstc.Value.{strcmp}
use go_adstc.Value.Update.{with_value, set_value, when_due, publish}
use go_adstc.Value.Update.Frame.{still, valued, set_value-Frame}
use go_adstc.Value.Update.Changed.{IsSound, calm, eq_cases, set_value-at}
use go_adstc.Value.Update.Publish.{same_text}

length-still : (old new : List Symbol) → map still new ≡ map still old → length new ≡ length old
length-still old new e = sym (length-map_still new) ∙ ap length e ∙ length-map_still old
  where
    length-map_still : (ss : List Symbol) → length (map still ss) ≡ length ss
    length-map_still [] = refl
    length-map_still (s ∷ ss) = ap suc (length-map_still ss)

-- The symbol keeps its value and its time, or has a value that it may get.
abbrev pub MovesTo : (ℕ → Text → Type 0) → ℕ → Symbol → Symbol → Type 0
MovesTo May q s t =
    (still t ≡ still s)
    × (((t.value ≡ s.value) × (t.last_update_time ≡ s.last_update_time)) ⊎ May q t.value)

abbrev pub Moves : (ℕ → Text → Type 0) → Conn → Conn → Type 0
Moves May c d =
    (c.clock_reads ≤ d.clock_reads)
    × (length d.store ≡ length c.store)
    × ((q : ℕ) (s : Symbol)
        → symbol_at q c.store ≡ some s
        → (t : Symbol) × (symbol_at q d.store ≡ some t) × MovesTo May q s t)

pub Moves-refl : (May : ℕ → Text → Type 0) (c : Conn) → Moves May c c
Moves-refl May c = (omega arith, refl, λ q s at. (s, at, (refl, inl (refl, refl))))

MovesTo-trans :
    (May : ℕ → Text → Type 0) (q : ℕ) (s t u : Symbol)
    → MovesTo May q s t
    → MovesTo May q t u
    → MovesTo May q s u
MovesTo-trans May q s t u (f, a) (g, inr b) = (g ∙ f, inr b)
MovesTo-trans May q s t u (f, inl (v, l)) (g, inl (w, m)) = (g ∙ f, inl (w ∙ v, m ∙ l))
MovesTo-trans May q s t u (f, inr a) (g, inl (w, m)) = (g ∙ f, inr (rw w a))

pub Moves-trans :
    (May : ℕ → Text → Type 0) (c d e : Conn) → Moves May c d → Moves May d e → Moves May c e
Moves-trans May c d e (n, l, f) (m, k, g) = (
  omega arith,
  k ∙ l,
  λ q s at.
      let (t, t_at, a) = f q s at in
      let (u, u_at, b) = g q t t_at in (u, u_at, MovesTo-trans May q s t u a b),
)

module _ (env : Env) where
  -- The interval since the last update has passed, now and at every later look at the clock.
  abbrev pub IsDue : Conn → Symbol → Type 0
  IsDue c s = (n : ℕ) → c.clock_reads ≤ n → s.last_update_time + s.min_update_interval < env.clock n

  -- The value that may come is there afterwards, if the symbol is due or has it already.
  abbrev pub Takes : Conn → ℕ → Symbol → Text → Conn → Type 0
  Takes c r s value d =
      (s.value ≡ value) ⊎ IsDue c s
      → (t : Symbol) × (symbol_at r d.store ≡ some t) × (t.value ≡ value)

  pub publish-Moves :
      (May : ℕ → Text → Type 0) (r : ℕ) (value : Text) (s : Symbol) (c : Conn)
      → symbol_at r c.store ≡ some s
      → IsSound c
      → May r value
      → (text : Text) × (d : Conn) × (publish env r value c ≡ (ok text, d))
        × Moves May c d
        × Takes c r s value d
  unfolding publish when_due now
  publish-Moves May r value s c at sound may = elim (Bool-cases (is_zero (strcmp s.value value))) [
    | inl same ↦ (
      s.value,
      c,
      rw at (rw same (rw at refl)),
      Moves-refl May c,
      λ _. (s, at, same_text s.value value same),
    )
    | inr differ ↦
        elim (Bool-cases
          (ltb (s.last_update_time + s.min_update_interval) (env.clock c.clock_reads))) [
            | inl due ↦
                let ticked : Conn = record c { clock_reads = suc c.clock_reads } in
                let (new, t, e, t_at, calm_t, _, kept) =
                  set_value-at env r value s ticked at sound in
                let d : Conn = record (valued env r value ticked) { store = new } in
                (
                  t.value,
                  d,
                  rw at (rw differ (rw due (rw e (rw t_at refl)))),
                  (
                    omega arith,
                    same_length new (sym (ap (λ (x : Result (Unit {0}) × Conn). x.1.store) e)),
                    moved new t t_at calm_t kept,
                  ),
                  λ _. (t, t_at, ap (λ (x : Symbol). x.value) calm_t),
                )
            | inr early ↦ (
              s.value,
              record c { clock_reads = suc c.clock_reads },
              rw at (rw differ (rw early (rw at refl))),
              (omega arith, refl, (Moves-refl May c).2),
              λ ready. early_ready early ready,
            )
          ]
  ]
    where
      same_length :
          (new : List Symbol)
          → new ≡ (set_value env r value (record c { clock_reads = suc c.clock_reads })).1.store
          → length new ≡ length c.store
      same_length new e =
          ap length e
          ∙ length-still c.store _
              (set_value-Frame env r value (record c { clock_reads = suc c.clock_reads })).0

      moved :
          (new : List Symbol) (t : Symbol)
          → symbol_at r new ≡ some t
          → calm t ≡ calm (with_value value (env.clock (suc c.clock_reads)) s)
          → ((q : ℕ) (x : Symbol)
              → q ≢ r
              → symbol_at q c.store ≡ some x
              → (y : Symbol) × (symbol_at q new ≡ some y) × (calm y ≡ calm x))
          → (q : ℕ) (x : Symbol) → symbol_at q c.store ≡ some x
          → (y : Symbol) × (symbol_at q new ≡ some y) × MovesTo May q x y
      moved new t t_at calm_t kept q x q_at = elim (eq_cases q r) [
        | inl e ↦
            let same : x ≡ s = cc (at, q_at, ap (λ (n : ℕ). symbol_at n c.store) e) in
            let it_may : May r t.value = rw (ap (λ (y : Symbol). y.value) calm_t) may in
            (t, rw e t_at, (rw same (ap still calm_t), inr (rw e it_may)))
        | inr other ↦
            let (y, y_at, calm_y) = kept q x other q_at in
            (
              y,
              y_at,
              (
                ap still calm_y,
                inl (
                  ap (λ (z : Symbol). z.value) calm_y,
                  ap (λ (z : Symbol). z.last_update_time) calm_y,
                ),
              ),
            )
      ]

      early_ready :
          ltb (s.last_update_time + s.min_update_interval) (env.clock c.clock_reads) ≡ false
          → (s.value ≡ value) ⊎ IsDue c s
          → (t : Symbol) × (symbol_at r c.store ≡ some t) × (t.value ≡ value)
      early_ready early (inl e) = (s, at, e)
      early_ready early (inr due) = cc (
        lt→ltb (s.last_update_time + s.min_update_interval) (env.clock c.clock_reads)
            (due c.clock_reads (omega arith)),
        early,
      )

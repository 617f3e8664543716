-- ===== src/Value/Update/Publish.antt =====
-- The value that a symbol has once a new one was parsed for it.
use go_adstc.Prelude.{ℕ, suc, ◌+◌, ◌≡◌, refl, ap, arith, true, ltb, ◌==◌}
use go_adstc.Prelude.{if◌then◌else◌, List, [], length, some, inl, inr, Bool-cases}
use go_adstc.Go.Result.{Result, ok}
use go_adstc.Go.Int.{ℤ, pos, negsuc, is_zero}
use go_adstc.Symbol.{Text, Symbol}
use go_adstc.Symbol.Store.{symbol_at}
use go_adstc.Conn.{Env, Conn, now}
use go_adstc.SymbolTable.Json.{Encoder}
use go_adstc.Value.{Formats, strcmp, parse_leaf}
use go_adstc.Value.Compare.{strcmp_iff}
use go_adstc.Value.Update.{when_due, publish, publish_leaf, parse_value, parse}
use go_adstc.Value.Update.Frame.{valued}
use go_adstc.Value.Update.Changed.{IsSound, set_value-at}

-- The new value from when the interval has passed, and the old one before.
abbrev pub taken : Symbol → Text → ℕ → Text
taken s value time =
    if ltb (s.last_update_time + s.min_update_interval) time then value else s.value

-- The value is returned, and its symbol keeps its names and its receiver.
abbrev pub Publishes : ℕ → Symbol → Text → Result Text × Conn → Type 0
Publishes r s value run =
    (t : Symbol) × (d : Conn) × (run ≡ (ok value, d))
    × (symbol_at r d.store ≡ some t)
    × (t.full_name ≡ s.full_name)
    × (t.notification ≡ s.notification)

taken_same : (s : Symbol) (value : Text) (time : ℕ) → s.value ≡ value → s.value ≡ taken s value time
taken_same s value time e =
    elim (Bool-cases (ltb (s.last_update_time + s.min_update_interval) time)) [
      | inl due ↦ rw due e
      | inr early ↦ rw early
    ]

pub same_text : (s t : Text) → is_zero (strcmp s t) ≡ true → s ≡ t
same_text s t h = (strcmp_iff s t).0 (zero_of (strcmp s t) h)
  where
    zero_of : (z : ℤ) → is_zero z ≡ true → z ≡ pos 0
    zero_of (pos n) e = ground arith
    zero_of (negsuc n) e = cc

module _ (env : Env) where
  pub publish-Publishes :
      (r : ℕ) (value : Text) (s : Symbol) (c : Conn)
      → symbol_at r c.store ≡ some s
      → IsSound c
      → Publishes r s (taken s value (env.clock c.clock_reads)) (publish env r value c)
  unfolding publish when_due now
  publish-Publishes r value s c at sound = elim (Bool-cases (is_zero (strcmp s.value value))) [
    | inl same ↦ (
      s,
      c,
      rw at (
          rw same (
            rw at (
              ap (λ (t : Text). (ok t, c))
                (taken_same s value (env.clock c.clock_reads) (same_text s.value value same))))),
      at,
      refl,
      refl,
    )
    | inr differ ↦
        elim (Bool-cases
          (ltb (s.last_update_time + s.min_update_interval) (env.clock c.clock_reads))) [
            | inl due ↦
                let ticked : Conn = record c { clock_reads = suc c.clock_reads } in
                let (new, t, e, t_at, calm_t, _, _) = set_value-at env r value s ticked at sound in
                (
                  t,
                  record (valued env r value ticked) { store = new },
                  rw at (
                      rw differ (
                        rw due (
                          rw e (
                            rw t_at (
                              ap
                                (λ (x : Symbol).
                                  (ok x.value, record (valued env r value ticked) { store = new }))
                                calm_t))))),
                  t_at,
                  ap (λ (x : Symbol). x.full_name) calm_t,
                  ap (λ (x : Symbol). x.notification) calm_t,
                )
            | inr early ↦ (
              s,
              record c { clock_reads = suc c.clock_reads },
              rw at (rw differ (rw early (rw at))),
              at,
              refl,
              refl,
            )
          ]
  ]

  module _ (enc : Encoder) (fmts : Formats) where
    pub parse-Publishes :
        (depth r : ℕ) (bytes : List ℕ) (value : Text) (s : Symbol) (c : Conn)
        → symbol_at r c.store ≡ some s
        → s.childs ≡ []
        → IsSound c
        → parse_leaf fmts s.data_type s.length bytes 0 ≡ ok (some value)
        → Publishes r s
            (taken s value (env.clock c.clock_reads))
            (parse env enc fmts (suc depth) r bytes 0 c)
    unfolding parse parse_value publish_leaf
    parse-Publishes depth r bytes value s c at leaf sound e =
        let none_below : (length s.childs == 0) ≡ true = rw leaf refl in
        rw at (rw none_below (rw e (publish-Publishes r value s c at sound)))

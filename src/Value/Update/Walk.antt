-- ===== src/Value/Update/Walk.antt =====
-- All that parse does to the state is to read the clock and to set values.
use go_adstc.Prelude.{ℕ, zero, suc, ◌+◌, ◌≡◌, refl, List, [], ◌∷◌, length, Option, none, some}
use go_adstc.Prelude.{Bool, true, false, ltb, ◌==◌, if◌then◌else◌}
use go_adstc.Go.Result.{Result, ok, err, panic}
use go_adstc.Go.Int.{is_zero}
use go_adstc.Symbol.{Text, Symbol}
use go_adstc.Symbol.Store.{symbol_at}
use go_adstc.Conn.{Env, Conn, M, continue, pure, now}
use go_adstc.SymbolTable.{References}
use go_adstc.SymbolTable.Json.{Encoder}
use go_adstc.Value.{Formats, strcmp}
use go_adstc.Value.Update.{or_panic, deref, ignored, set_value, when_due, publish, publish_leaf}
use go_adstc.Value.Update.{parse_childs, parse_struct, parse_value, parse}

-- A relation between states that holds for each such change, and for one after another.
pub record Covers (env : Env) (R : Conn → Conn → Type 0) : Type 0 where
  pub same : (c : Conn) → R c c
  pub both : (c d e : Conn) → R c d → R d e → R c e
  pub tick : (c : Conn) → R c (record c { clock_reads = suc c.clock_reads })
  pub set :
      (r : ℕ) (value : Text) (s : Symbol) (c : Conn)
      → symbol_at r c.store ≡ some s
      → R c (set_value env r value c).1

module _ (env : Env) (R : Conn → Conn → Type 0) (covers : Covers env R) where
  -- A call that does nothing else, whatever comes of it.
  abbrev pub Stays : {A : Type 0} → M A → Type 0
  Stays m = (c : Conn) → R c (m c).1

  continue-Stays :
      {A B : Type 0} (c : Conn) (r : Result A × Conn) (f : A → M B)
      → R c r.1
      → ((a : A) → Stays (f a))
      → R c (continue r f).1
  continue-Stays c (ok a, d) f h k = covers.both c d (f a d).1 h (k a d)
  continue-Stays c (err e, d) f h k = h
  continue-Stays c (panic, d) f h k = h

  deref_then :
      {B : Type 0} (c : Conn) (o : Option Symbol) (f : Symbol → M B)
      → ((s : Symbol) → o ≡ some s → R c (f s c).1)
      → R c (continue (or_panic o, c) f).1
  deref_then c none f h = covers.same c
  deref_then c (some s) f h = h s refl

  when_due-Stays :
      (r : ℕ) (s t : Symbol) (value : Text) (c : Conn)
      → symbol_at r c.store ≡ some t
      → R c (when_due env r s value c).1
  unfolding when_due now
  when_due-Stays r s t value c at =
      let d : Conn = record c { clock_reads = suc c.clock_reads } in
      covers.both c d _ (covers.tick c)
        (branch (ltb (s.last_update_time + s.min_update_interval) (env.clock c.clock_reads)) d at)
    where
      branch :
          (b : Bool) (d : Conn)
          → symbol_at r d.store ≡ some t
          → R d ((if b then set_value env r value else pure tt) d).1
      branch true d e = covers.set r value t d e
      branch false d e = covers.same d

  publish-Stays : (r : ℕ) (value : Text) → Stays (publish env r value)
  unfolding publish
  publish-Stays r value c = deref_then c (symbol_at r c.store) _ (λ s at.
      continue-Stays c _ _ (unless (is_zero (strcmp s.value value)) s at)
        (λ _ e. deref_then e (symbol_at r e.store) _ (λ s' at'. covers.same e)))
    where
      unless :
          (b : Bool) (s : Symbol)
          → symbol_at r c.store ≡ some s
          → R c ((if b then pure tt else when_due env r s value) c).1
      unless true s e = covers.same c
      unless false s e = when_due-Stays r s s value c e

  module _ (enc : Encoder) (fmts : Formats) where
    publish_leaf-Stays : (r : ℕ) (o : Option Text) → Stays (publish_leaf env enc fmts r o)
    unfolding publish_leaf
    publish_leaf-Stays r none = covers.same
    publish_leaf-Stays r (some value) = publish-Stays r value

    ignored-Stays : {A : Type 0} (c : Conn) (r : Result A × Conn) → R c r.1 → R c (ignored r).1
    ignored-Stays c (ok a, d) h = h
    ignored-Stays c (err e, d) h = h
    ignored-Stays c (panic, d) h = h

    parse_childs-Stays :
        (deeper : ℕ → List ℕ → ℕ → M Text) (bytes : List ℕ) (cs : References)
        → ((q : ℕ) (b : List ℕ) (start : ℕ) → Stays (deeper q b start))
        → Stays (parse_childs env enc fmts deeper bytes cs)
    unfolding parse_childs
    parse_childs-Stays deeper bytes [] h c = covers.same c
    parse_childs-Stays deeper bytes ((key, q) ∷ more) h c =
        continue-Stays c (deref q c) _ (covers.same c) (λ s d.
          continue-Stays d (ignored (deeper q bytes s.offset d)) _
            (ignored-Stays d (deeper q bytes s.offset d) (h q bytes s.offset d))
            (λ _. parse_childs-Stays deeper bytes more h))

    parse_struct-Stays :
        (deeper : ℕ → List ℕ → ℕ → M Text) (r : ℕ) (s : Symbol) (bytes : List ℕ) (start : ℕ)
        → ((q : ℕ) (b : List ℕ) (at : ℕ) → Stays (deeper q b at))
        → Stays (parse_struct env enc fmts deeper r s bytes start)
    unfolding parse_struct
    parse_struct-Stays deeper r s bytes start h c = continue-Stays c _ _ (covers.same c) (λ part d.
        continue-Stays d (parse_childs env enc fmts deeper part s.childs d) _
          (parse_childs-Stays deeper part s.childs h d)
          (λ _ e. continue-Stays e _ _ (covers.same e) (λ json. publish-Stays r json)))

    parse_value-Stays :
        (r : ℕ) (bytes : List ℕ) (start : ℕ) (s : Symbol)
        → Stays (parse_value env enc fmts r bytes start s)
    unfolding parse_value
    parse_value-Stays r bytes start s c =
        continue-Stays c _ _ (covers.same c) (λ o. publish_leaf-Stays r o)

    pub parse-Stays :
        (depth r : ℕ) (bytes : List ℕ) (start : ℕ) → Stays (parse env enc fmts depth r bytes start)
    unfolding parse
    parse-Stays zero r bytes start c = covers.same c
    parse-Stays (suc depth) r bytes start c = continue-Stays c (deref r c) _ (covers.same c) (λ s.
        either (length s.childs == 0) _ _ (parse_value-Stays r bytes start s)
          (parse_struct-Stays (parse env enc fmts depth) r s bytes start (parse-Stays depth)))
      where
        either : (b : Bool) (m n : M Text) → Stays m → Stays n → Stays (if b then m else n)
        either true m n h k = h
        either false m n h k = k

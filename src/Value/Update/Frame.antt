-- ===== src/Value/Update/Frame.antt =====
-- parse changes values, their times and marks, and nothing else.
use go_adstc.Prelude.{
  ℕ, zero, suc, ◌≡◌, refl, ap, ◌∙◌, List, [], ◌∷◌, map, length, Option, none, some,
}
use go_adstc.Prelude.{false}
use go_adstc.Symbol.{Text, Symbol}
use go_adstc.Symbol.Store.{symbol_at, change_at}
use go_adstc.Conn.{Env, Conn, continue, modify, now}
use go_adstc.SymbolTable.Json.{Encoder}
use go_adstc.Value.{Formats}
use go_adstc.Value.Update.Walk.{Covers, parse-Stays}
use go_adstc.Value.Update.{with_changed, with_value, or_panic, changed_above, parent_changed}
use go_adstc.Value.Update.{set_value}
use go_adstc.Value.Update.{parse}

-- A symbol without what parse may change.
abbrev pub still : Symbol → Symbol
still s = record s { last_update_time = 0; value = []; valid = false; changed = false }

abbrev pub Frame : Conn → Conn → Type 0
Frame c d =
    (map still d.store ≡ map still c.store)
    × (d ≡ record c { store = d.store; clock_reads = d.clock_reads })

Frame_refl : (c : Conn) → Frame c c
Frame_refl c = (refl, refl)

Frame_trans : (c d e : Conn) → Frame c d → Frame d e → Frame c e
Frame_trans c d e (s, k) (s', k') =
    (s' ∙ s, k' ∙ ap (λ (x : Conn). record x { store = e.store; clock_reads = e.clock_reads }) k)

pub still-change_at :
    (r : ℕ) (f : Symbol → Symbol) (ss : List Symbol)
    → ((s : Symbol) → still (f s) ≡ still s)
    → map still (change_at r f ss) ≡ map still ss
still-change_at r f [] h = refl
still-change_at zero f (s ∷ ss) h = ap (λ (t : Symbol). t ∷ map still ss) (h s)
still-change_at (suc r) f (s ∷ ss) h =
    ap (λ (ts : List Symbol). still s ∷ ts) (still-change_at r f ss h)

abbrev StillAll : List Symbol → Option (List Symbol) → Type 0
StillAll store none = Unit {0}
StillAll store (some store') = map still store' ≡ map still store

changed_above_still :
    (up : ℕ → List Symbol → Option (List Symbol)) (o : Option Symbol) (store : List Symbol)
    → ((p : ℕ) → StillAll store (up p store))
    → StillAll store (changed_above up o store)
unfolding changed_above
changed_above_still up none store h = tt
changed_above_still up (some s) store h = parents s.parent
  where
    parents : (o : Option ℕ) → StillAll store (elim o [ none ↦ some store | some p ↦ up p store ])
    parents none = refl
    parents (some p) = h p

mark_still :
    (r : ℕ) (store : List Symbol) (o : Option (List Symbol))
    → StillAll store o
    → StillAll store (elim o [ none ↦ none | some new ↦ some (change_at r with_changed new) ])
mark_still r store none h = tt
mark_still r store (some new) h = still-change_at r with_changed new (λ s. refl) ∙ h

parent_changed_still :
    (depth r : ℕ) (store : List Symbol) → StillAll store (parent_changed depth r store)
unfolding parent_changed
parent_changed_still zero r store = tt
parent_changed_still (suc depth) r store =
    mark_still r store (changed_above (parent_changed depth) (symbol_at r store) store) (
      changed_above_still (parent_changed depth) (symbol_at r store) store
        (λ p. parent_changed_still depth p store))

mark_all-Frame :
    (d : Conn) (o : Option (List Symbol))
    → StillAll d.store o
    → Frame d (continue (or_panic o, d) (λ new. modify (λ x. record x { store = new }))).1
mark_all-Frame d none h = Frame_refl d
mark_all-Frame d (some new) h = (h, refl)

module _ (env : Env) where
  -- The state once the value is in the symbol.
  abbrev pub valued : ℕ → Text → Conn → Conn
  valued r value c = record c {
    store = change_at r (with_value value (env.clock c.clock_reads)) c.store;
    clock_reads = suc c.clock_reads;
  }

  pub set_value-Frame : (r : ℕ) (value : Text) (c : Conn) → Frame c (set_value env r value c).1
  unfolding set_value now
  set_value-Frame r value c =
      let d : Conn = valued r value c in
      Frame_trans c d _
        (still-change_at r (with_value value (env.clock c.clock_reads)) c.store (λ s. refl), refl)
        (mark_all-Frame d (parent_changed (suc (length d.store)) r d.store)
          (parent_changed_still (suc (length d.store)) r d.store))

  Frame-Covers : Covers env Frame
  Frame-Covers = record {
    same = Frame_refl;
    both = Frame_trans;
    tick = λ c. (refl, refl);
    set = λ r value s c at. set_value-Frame r value c;
  }

  -- parse, whatever it returns and however deep the children are, changes nothing but the values of
  -- symbols, their times and their valid and changed marks, and how often the clock was read.
  pub parse-Frame :
      (enc : Encoder) (fmts : Formats) (depth r : ℕ) (bytes : List ℕ) (start : ℕ) (c : Conn)
      → Frame c (parse env enc fmts depth r bytes start c).1
  parse-Frame enc fmts depth r bytes start c =
      parse-Stays env Frame Frame-Covers enc fmts depth r bytes start c

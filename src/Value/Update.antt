-- ===== src/Value/Update.antt =====
-- parse and parentChanged of readWriter.go on the objects of a store. A recursion that is
-- deeper than the store has symbols goes round in a circle and is a panic.
pub mod Walk
pub mod Frame
pub mod Changed
pub mod Publish
pub mod Moves
pub mod Windows
pub mod Layouts
pub mod Structs
use go_adstc.Prelude.{ℕ, zero, suc, ◌+◌, ◌-◌, Bool, true, false, not, ltb, ◌==◌, if◌then◌else◌}
use go_adstc.Prelude.{List, [], ◌∷◌, length, take, drop, Option, none, some}
use go_adstc.Go.Result.{Result, ok, err, panic}
use go_adstc.Go.Int.{is_zero}
use go_adstc.Symbol.{Text, Symbol}
use go_adstc.Symbol.Store.{symbol_at, change_at}
use go_adstc.Conn.{Env, Conn, M, ◌>>=◌, ◌>>◌, pure, fail, lift, gets, modify, now}
use go_adstc.SymbolTable.{References}
use go_adstc.SymbolTable.Json.{Encoder, get_json}
use go_adstc.Value.{Formats, parse_leaf, stop_of, strcmp}

abbrev pub with_changed : Symbol → Symbol
with_changed s = record s { changed = true }

-- The new value of a symbol, and when it came.
abbrev pub with_value : Text → ℕ → Symbol → Symbol
with_value value time s = record s {
  last_update_time = time;
  value = value;
  valid = true;
  changed = true;
}

-- A nil pointer panics.
abbrev pub or_panic {ℓ} : {A : Type ℓ} → Option A → Result A
or_panic none = panic
or_panic (some a) = ok a

abbrev pub deref : ℕ → M Symbol
deref r c = (or_panic (symbol_at r c.store), c)

-- parentChanged: first the parents, then the symbol itself.
unfoldable pub changed_above :
    (ℕ → List Symbol → Option (List Symbol)) → Option Symbol → List Symbol → Option (List Symbol)
changed_above up none store = none
changed_above up (some s) store = elim s.parent [ none ↦ some store | some p ↦ up p store ]

unfoldable pub parent_changed : ℕ → ℕ → List Symbol → Option (List Symbol)
parent_changed zero r store = none
parent_changed (suc depth) r store =
    elim (changed_above (parent_changed depth) (symbol_at r store) store) [
      | none ↦ none
      | some store' ↦ some (change_at r with_changed store')
    ]

-- A call whose error is not looked at.
abbrev pub ignored : {A : Type 0} → Result A × Conn → Result (Unit {0}) × Conn
ignored (ok a, c) = (ok tt, c)
ignored (err e, c) = (ok tt, c)
ignored (panic, c) = (panic, c)

-- data[start:stop]
unfoldable pub slice : ℕ → ℕ → List ℕ → Result (List ℕ)
slice start stop bytes =
    if ltb stop start then panic else ok (take (stop - start) (drop start bytes))

module _ (env : Env) where
  unfoldable pub set_value : ℕ → Text → M (Unit {0})
  set_value r value = do
    time ← now env
    modify (λ c. record c { store = change_at r (with_value value time) c.store })
    store ← gets (λ c. c.store)
    store' ← lift (or_panic (parent_changed (suc (length store)) r store))
    modify (λ c. record c { store = store' })

  -- time.Since(symbol.LastUpdateTime) > symbol.MinUpdateInterval
  unfoldable pub when_due : ℕ → Symbol → Text → M (Unit {0})
  when_due r s value = do
    time ← now env
    if ltb (s.last_update_time + s.min_update_interval) time then set_value r value else pure tt

  -- The end of parse: the new value is taken over if it differs, and if the interval has passed.
  unfoldable pub publish : ℕ → Text → M Text
  publish r value = do
    s ← deref r
    if is_zero (strcmp s.value value) then pure tt else when_due r s value
    s' ← deref r
    pure s'.value

module _ (env : Env) (enc : Encoder) (fmts : Formats) where
  unfoldable pub publish_leaf : ℕ → Option Text → M Text
  publish_leaf r none = pure []
  publish_leaf r (some value) = publish env r value

  -- The loop over the children, where `deeper` is parse of a child; its error is not looked at.
  unfoldable pub parse_childs : (ℕ → List ℕ → ℕ → M Text) → List ℕ → References → M (Unit {0})
  parse_childs deeper bytes [] = pure tt
  parse_childs deeper bytes ((key, q) ∷ more) = do
    s ← deref q
    (λ c. ignored (deeper q bytes s.offset c))
    parse_childs deeper bytes more

  unfoldable pub parse_struct : (ℕ → List ℕ → ℕ → M Text) → ℕ → Symbol → List ℕ → ℕ → M Text
  parse_struct deeper r s bytes start = do
    part ← lift (slice start (stop_of s.length start bytes) bytes)
    parse_childs deeper part s.childs
    store ← gets (λ c. c.store)
    json ← lift (or_panic (get_json enc (suc (length store)) false store r))
    publish env r json

  unfoldable pub parse_value : ℕ → List ℕ → ℕ → Symbol → M Text
  parse_value r bytes start s = do
    value ← lift (parse_leaf fmts s.data_type s.length bytes start)
    publish_leaf r value

  -- symbol.parse(data, offset), of the symbol at a reference
  unfoldable pub parse : ℕ → ℕ → List ℕ → ℕ → M Text
  parse zero r bytes start = lift panic
  parse (suc depth) r bytes start = do
    s ← deref r
    if length s.childs == 0
        then parse_value r bytes start s
        else parse_struct (parse depth) r s bytes start

-- ===== src/Connection/Invariant.antt =====
-- What it takes for a property of the store to hold through every method of a connection.
use go_adstc.Prelude.{ℕ, ◌<◌, ◌≡◌, List, [], ◌∷◌, ◌++◌, length, none, some, false}
use go_adstc.Symbol.{Symbol}
use go_adstc.Symbol.Store.{change_at}
use go_adstc.Conn.{Env, Conn}
use go_adstc.SymbolTable.Json.{Encoder}
use go_adstc.Value.{Formats}
use go_adstc.Value.Update.{parse}

-- A symbol without what requests, notifications and the building of its children set.
abbrev pub core : Symbol → Symbol
core s = record s {
  handle = 0;
  notification = none;
  childs = [];
  last_update_time = 0;
  value = [];
  valid = false;
}

pub record Invariant (env : Env) (P : List Symbol → Type 0) : Type 0 where
  -- a change of one symbol that leaves its core as it is
  pub change :
      (r : ℕ) (f : Symbol → Symbol) (ss : List Symbol)
      → ((s : Symbol) → core (f s) ≡ core s)
      → P ss
      → P (change_at r f ss)
  -- a new object without a mark, whose parent is there
  pub extend :
      (ss : List Symbol) (s : Symbol)
      → s.changed ≡ false
      → ((p : ℕ) → s.parent ≡ some p → p < length ss)
      → P ss
      → P (ss ++ (s ∷ []))
  pub parsed :
      (enc : Encoder) (fmts : Formats) (depth r : ℕ) (bytes : List ℕ) (start : ℕ) (c : Conn)
      → P c.store
      → P (parse env enc fmts depth r bytes start c).1.store

-- ===== src/SymbolTable/Cyclic.antt =====
-- Data types that contain themselves, through any number of others.
use go_adstc.Prelude.{
  ℕ, zero, suc, ◌≡◌, ap, ◌∙◌, List, [], ◌∷◌, length, Option, none, some, ◌⊎◌, inl, inr, All,
}
use go_adstc.Go.Result.{Result, ok, err, panic, ◌>>=◌}
use go_adstc.Symbol.{
  Text, UploadType, UploadChilds, no_childs, child, name_of, data_type_of, childs_of, lookup,
}
use go_adstc.Conn.{Env, Conn}
use go_adstc.SymbolTable.{
  Types, UploadSymbol, References, path_of, add_symbol, enter, parse_symbols,
}
use go_adstc.SymbolTable.Trees.{
  Tree, Trees, expand_below, expand_member, expand_members, expand, expand_top,
}
use go_adstc.SymbolTable.Builds.{BuiltOne, continue_panic}
use go_adstc.SymbolTable.Refines.{add_symbol-BuiltOne}
use go_adstc.SymbolTable.Written.{Written, symbols_bytes, IsWritten, as_read}
use go_adstc.SymbolTable.RoundTrip.{parse_symbols-symbols_bytes}

abbrev pub HasMember : (Text → Type 0) → UploadChilds → Type 0
HasMember C no_childs = ⊥
HasMember C (child key segment more) = C (data_type_of segment) ⊎ HasMember C more

-- Each type of the set is there, and has a member of a type of the set.
abbrev pub IsCyclic : Types → (Text → Type 0) → Type 0
IsCyclic types C =
    (d : Text) → C d → (dt : UploadType) × (lookup d types ≡ some dt) × HasMember C (childs_of dt)

abbrev IsNot : {A : Type 0} → Result A → Type 0
IsNot (ok a) = ⊥
IsNot _ = Unit {0}

IsNot->>= : {A B : Type 0} (r : Result A) (f : A → Result B) → IsNot r → IsNot (r >>= f)
IsNot->>= (ok a) f h = absurd h
IsNot->>= (err e) f h = tt
IsNot->>= panic f h = tt

after-IsNot :
    {A B : Type 0} (r : Result A) (f : A → Result B) → ((a : A) → IsNot (f a)) → IsNot (r >>= f)
after-IsNot (ok a) f h = h a
after-IsNot (err e) f h = tt
after-IsNot panic f h = tt

module _ (types : Types) (C : Text → Type 0) (cyclic : IsCyclic types C) (group : ℕ) where
  -- A builder that fails on the types of the set.
  abbrev Fails : (Text → Text → UploadType → Result Trees) → Type 0
  Fails deeper =
      (full name d : Text) (dt : UploadType)
      → C d
      → lookup d types ≡ some dt
      → IsNot (deeper full name dt)

  expand_below-IsNot :
      (deeper : Text → Text → UploadType → Result Trees) (full name d : Text)
      → Fails deeper
      → C d
      → IsNot (expand_below deeper full name (lookup d types))
  unfolding expand_below
  expand_below-IsNot deeper full name d fails c =
      let (dt, at, _) = cyclic d c in rw at (fails full name d dt c at)

  expand_members-IsNot :
      (deeper : Text → Text → UploadType → Result Trees) (full name : Text) (cs : UploadChilds)
      → Fails deeper
      → HasMember C cs
      → IsNot (expand_members deeper types group full name cs)
  unfolding expand_members expand_member
  expand_members-IsNot deeper full name no_childs fails h = absurd h
  expand_members-IsNot deeper full name (child key segment more) fails (inl c) =
      IsNot->>= (expand_member deeper types group full name segment) _ (
        after-IsNot (path_of full name (name_of segment)) _ (λ path.
          IsNot->>=
            (expand_below deeper path (name_of segment) (lookup (data_type_of segment) types)) _
            (expand_below-IsNot deeper path (name_of segment) (data_type_of segment) fails c)))
  expand_members-IsNot deeper full name (child key segment more) fails (inr h) =
      after-IsNot (expand_member deeper types group full name segment) _ (λ t.
        IsNot->>= (expand_members deeper types group full name more) _
          (expand_members-IsNot deeper full name more fails h))

  expand-Fails : (depth : ℕ) → Fails (expand depth types group)
  unfolding expand
  expand-Fails zero full name d dt c at = tt
  expand-Fails (suc depth) full name d dt c at =
      let (dt', at', has) = cyclic d c in
      let same : dt' ≡ dt = cc (at, at') in
      rw (← same) (
        expand_members-IsNot (expand depth types group) full name (childs_of dt')
          (expand-Fails depth) has)

module _ (env : Env) (types : Types) (C : Text → Type 0) (cyclic : IsCyclic types C) where
  BuiltOne-panic :
      (r : Result Tree) (c : Conn) (run : Result ℕ × Conn)
      → IsNot r
      → BuiltOne r none c run
      → run.0 ≡ panic
  BuiltOne-panic (ok t) c run h b = absurd h
  BuiltOne-panic (err e) c run h b = absurd b
  BuiltOne-panic panic c run h b = b

  add_symbol_cyclic :
      (item : UploadSymbol)
      → C item.data_type
      → (depth : ℕ) (c : Conn) → (add_symbol env depth types item c).0 ≡ panic
  unfolding expand_top
  add_symbol_cyclic item h depth c =
      BuiltOne-panic (expand_top depth types item) c (add_symbol env depth types item c)
        (IsNot->>=
          (expand_below (expand depth types item.entry.group) item.name item.name
            (lookup item.data_type types))
          _
          (expand_below-IsNot types C cyclic item.entry.group (expand depth types item.entry.group)
            item.name item.name item.data_type (expand-Fails types C cyclic item.entry.group depth)
            h))
        (add_symbol-BuiltOne env depth types item c)

  -- For a set of data types each of which has a member of a type of the set, and a symbol whose
  -- type, as it is read, with STRING for a type that begins with it, is in the set: addSymbol
  -- panics on the symbol as it is read at every depth of the stack, and so does
  -- ParseUploadSymbolInfoSymbols on an upload that begins with the symbol and whose entries have
  -- numbers that fit their fields and give the true lengths.
  pub parse_symbols_cyclic :
      (item : UploadSymbol) (extra : List ℕ) (ws : List Written) (c : Conn)
      → C (as_read item).data_type
      → All IsWritten ((item, extra) ∷ ws)
      → ((depth : ℕ) → (add_symbol env depth types (as_read item) c).0 ≡ panic)
        × ((parse_symbols env types (symbols_bytes ((item, extra) ∷ ws)) c).0 ≡ panic)
  unfolding enter
  parse_symbols_cyclic item extra ws c h written = (
    λ depth. add_symbol_cyclic (as_read item) h depth c,
    ap (λ (x : Result (Option References) × Conn). x.0)
          (parse_symbols-symbols_bytes env types ((item, extra) ∷ ws) c written)
        ∙ continue_panic (enter env types (as_read item) [] c) _ (
            continue_panic (add_symbol env (suc (length types)) types (as_read item) c) _
              (add_symbol_cyclic (as_read item) h (suc (length types)) c)),
  )

-- ===== src/Connection/Uploads.antt =====
-- The upload of symbols keeps what every new object and every change of children keeps.
use go_adstc.Prelude.{ℕ, zero, suc, ◌-◌, ◌≤◌, ◌<◌, ◌≡◌, refl, arith, List, [], ◌∷◌}
use go_adstc.Prelude.{length, length-append, Option, none, some, false}
use go_adstc.Go.Result.{Result, ok, err, panic}
use go_adstc.Symbol.{
  Text, UploadType, UploadChilds, no_childs, child, Symbol, name_of, data_type_of,
}
use go_adstc.Symbol.{childs_of, lookup}
use go_adstc.Symbol.Store.{with_childs, length-change_at}
use go_adstc.Conn.{Env, Conn, M, continue, pure, lift, now}
use go_adstc.SymbolTable.{
  Types, References, UploadSymbol, path_of, member, top, alloc, Builder, attach,
}
use go_adstc.SymbolTable.{add_member, add_members, add_offset, add_symbol, enter, parse_round}
use go_adstc.SymbolTable.{parse_symbols_loop, parse_symbols}
use go_adstc.SymbolTable.{read_symbol, skip_entry}
use go_adstc.SymbolTable.Builds.{made}
use go_adstc.Connection.Invariant.{Invariant}

module _ (env : Env) (P : List Symbol → Type 0) (inv : Invariant env P) where
  -- The property holds before and after, and no object is lost.
  abbrev Safe : Conn → Conn → Type 0
  Safe c d = P c.store → P d.store × (length c.store ≤ length d.store)

  Safe-refl : (c : Conn) → Safe c c
  Safe-refl c h = (h, omega arith)

  continue-Safe :
      {A B : Type 0} (c : Conn) (r : Result A × Conn) (f : A → M B)
      → Safe c r.1
      → ((a : A) → length c.store ≤ length r.1.store → Safe r.1 (f a r.1).1)
      → Safe c (continue r f).1
  continue-Safe c (ok a, d) f h k sound =
      let (s, le) = h sound in let (s', le') = k a le s in (s', omega arith)
  continue-Safe c (err e, d) f h k sound = h sound
  continue-Safe c (panic, d) f h k sound = h sound

  Safe-trans : (c d e : Conn) → Safe c d → Safe d e → Safe c e
  Safe-trans c d e f g sound = let (s, le) = f sound in let (s', le') = g s in (s', omega arith)

  -- The state with a new object, made at a tick of the clock.
  made-Safe :
      (s : Symbol) (c : Conn)
      → s.changed ≡ false
      → ((p : ℕ) → s.parent ≡ some p → p < length c.store)
      → Safe c (made c s)
  made-Safe s c calm below sound =
      (inv.extend c.store s calm below sound, omega (arith, length-append c.store (s ∷ [])))

  -- A builder that is safe at every object that is there.
  abbrev SafeBuilder : Builder → Type 0
  SafeBuilder build =
      (r : ℕ) (full name : Text) (dt : UploadType) (c : Conn)
      → r < length c.store
      → Safe c (build r full name dt c).1

  attach-Safe :
      (build : Builder) (r : ℕ) (path name : Text) (o : Option UploadType) (c : Conn)
      → SafeBuilder build
      → r < length c.store
      → Safe c (attach build r path name o c).1
  unfolding attach
  attach-Safe build r path name none c safe there = Safe-refl c
  attach-Safe build r path name (some dt) c safe there =
      continue-Safe c (build r path name dt c) _ (safe r path name dt c there) (λ cs le sound.
        let d : Conn = (build r path name dt c).1 in
        (
          inv.change r (with_childs cs) d.store (λ _. refl) sound,
          omega (arith, length-change_at r (with_childs cs) d.store),
        ))

  -- A new object, and its children.
  attached-Safe :
      (build : Builder) (path name : Text) (o : Option UploadType) (s : Symbol) (c : Conn)
      → SafeBuilder build
      → s.changed ≡ false
      → ((p : ℕ) → s.parent ≡ some p → p < length c.store)
      → Safe c
          (continue
            (attach build (length c.store) path name o (made c s))
            (λ _. pure (length c.store))).1
  attached-Safe build path name o s c safe calm below =
      let d : Conn = made c s in
      continue-Safe c (attach build (length c.store) path name o d) _
        (Safe-trans c d (attach build (length c.store) path name o d).1 (made-Safe s c calm below) (
          attach-Safe build (length c.store) path name o d safe
            (omega (arith, length-append c.store (s ∷ [])))))
        (λ _ _. Safe-refl (attach build (length c.store) path name o d).1)

  add_member-Safe :
      (build : Builder) (types : Types) (group p : ℕ) (full name : Text) (segment : UploadType)
      (c : Conn)
      → SafeBuilder build
      → p < length c.store
      → Safe c (add_member env build types group p full name segment c).1
  unfolding add_member now alloc
  add_member-Safe build types group p full name segment c safe there =
      continue-Safe c (lift (path_of full name (name_of segment)) c) _ (Safe-refl c) (λ path _.
        attached-Safe build path (name_of segment) (lookup (data_type_of segment) types)
          (member p path (env.clock c.clock_reads) group segment) c safe refl
          (λ q e. let same : p ≡ q = cc in rw (← same) there))

  add_members-Safe :
      (build : Builder) (types : Types) (group p : ℕ) (full name : Text) (cs : UploadChilds)
      (c : Conn)
      → SafeBuilder build
      → p < length c.store
      → Safe c (add_members env build types group p full name cs c).1
  unfolding add_members
  add_members-Safe build types group p full name no_childs c safe there = Safe-refl c
  add_members-Safe build types group p full name (child key segment more) c safe there =
      continue-Safe c (add_member env build types group p full name segment c) _
        (add_member-Safe build types group p full name segment c safe there)
        (λ r le.
          let d : Conn = (add_member env build types group p full name segment c).1 in
          continue-Safe d (add_members env build types group p full name more d) _
            (add_members-Safe build types group p full name more d safe (omega arith))
            (λ rest _. Safe-refl (add_members env build types group p full name more d).1))

  add_offset-Safe :
      (depth : ℕ) (types : Types) (group : ℕ) → SafeBuilder (add_offset env depth types group)
  unfolding add_offset
  add_offset-Safe zero types group p full name dt c there = Safe-refl c
  add_offset-Safe (suc depth) types group p full name dt c there =
      add_members-Safe (add_offset env depth types group) types group p full name (childs_of dt) c
        (add_offset-Safe depth types group) there

  add_symbol-Safe :
      (depth : ℕ) (types : Types) (item : UploadSymbol) (c : Conn)
      → Safe c (add_symbol env depth types item c).1
  unfolding add_symbol now alloc
  add_symbol-Safe depth types item c =
      attached-Safe (add_offset env depth types item.entry.group) item.name item.name
        (lookup item.data_type types) (top item (env.clock c.clock_reads)) c
        (add_offset-Safe depth types item.entry.group) refl (λ q e. cc)

  enter-Safe :
      (types : Types) (item : UploadSymbol) (symbols : References) (c : Conn)
      → Safe c (enter env types item symbols c).1
  unfolding enter
  enter-Safe types item symbols c =
      let d : Conn = (add_symbol env (suc (length types)) types item c).1 in
      continue-Safe c (add_symbol env (suc (length types)) types item c) _
        (add_symbol-Safe (suc (length types)) types item c) (λ r _. Safe-refl d)

  parse_round-Safe :
      (types : Types) (buf : List ℕ) (symbols : References) (c : Conn)
      → Safe c (parse_round env types buf symbols c).1
  unfolding parse_round
  parse_round-Safe types buf symbols c =
      let (item, behind) = read_symbol buf in
      let d : Conn = (enter env types item symbols c).1 in
      continue-Safe c (enter env types item symbols c) _ (enter-Safe types item symbols c) (λ m _.
        continue-Safe d
          (lift (skip_entry item.entry.entry_length (length buf - length behind) behind) d)
          (λ rest. pure (m, rest)) (Safe-refl d) (λ rest _. Safe-refl d))

  parse_symbols_loop-Safe :
      (types : Types) (fuel : ℕ) (buf : List ℕ) (symbols : References) (c : Conn)
      → Safe c (parse_symbols_loop env types fuel buf symbols c).1
  unfolding parse_symbols_loop
  parse_symbols_loop-Safe types zero buf symbols c = Safe-refl c
  parse_symbols_loop-Safe types (suc fuel) [] symbols c = Safe-refl c
  parse_symbols_loop-Safe types (suc fuel) (b ∷ bs) symbols c =
      let d : Conn = (parse_round env types (b ∷ bs) symbols c).1 in
      continue-Safe c (parse_round env types (b ∷ bs) symbols c) _
        (parse_round-Safe types (b ∷ bs) symbols c)
        (λ r _. parse_symbols_loop-Safe types fuel r.1 r.0 d)

  pub parse_symbols-Keeps :
      (types : Types) (bytes : List ℕ) (c : Conn)
      → P c.store
      → P (parse_symbols env types bytes c).1.store
  unfolding parse_symbols
  parse_symbols-Keeps types bytes c sound =
      (parse_symbols_loop-Safe types (suc (length bytes)) bytes [] c sound).0

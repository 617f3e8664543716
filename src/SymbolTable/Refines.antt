-- ===== src/SymbolTable/Refines.antt =====
-- addOffset and addSymbol build exactly the trees that the data types stand for.
use go_adstc.Prelude.{ℕ, zero, suc, ◌<◌, ◌≡◌, refl, arith, [], ◌∷◌}
use go_adstc.Prelude.{◌++◌, length, length-append, ◌==◌, if◌then◌else◌, none, some, ◌⊎◌, inl, inr}
use go_adstc.Go.Result.{Result, ok, err, panic, ◌>>=◌}
use go_adstc.Symbol.{Text, UploadType, UploadChilds, no_childs, child, Symbol, name_of}
use go_adstc.Symbol.{data_type_of, childs_of, lookup}
use go_adstc.Conn.{Env, Conn, M, continue, pure, now}
use go_adstc.SymbolTable.{
  Types, References, UploadSymbol, path_of, member, top, alloc, Builder, attach,
}
use go_adstc.SymbolTable.{add_member, add_members, add_offset, add_symbol}
use go_adstc.SymbolTable.Trees.{Tree, Trees, tree, member_facts, top_facts, expand_below}
use go_adstc.SymbolTable.Trees.{expand_member, expand_members, expand, expand_top}
use go_adstc.SymbolTable.Trees.{IsTree-keeps}
use go_adstc.SymbolTable.Builds.{Grows-trans, Built, BuiltOne, made, continue_panic, attach_below}
use go_adstc.SymbolTable.Builds.{Attached-BuiltOne}

path_of_cases :
    (full name segment : Text)
    → ((path : Text) × (path_of full name segment ≡ ok path)) ⊎ (path_of full name segment ≡ panic)
unfolding path_of
path_of_cases full name [] = inr refl
path_of_cases full name (b ∷ bs) =
    inl (if b == b'[' then name ++ (b ∷ bs) else full ++ (b'.' ∷ (b ∷ bs)), ground arith)

made_room : (c : Conn) (s : Symbol) → length c.store < length (made c s).store
made_room c s = omega (arith, length-append c.store (s ∷ []))

-- What is built for the members, one after another.
Built-cons :
    (one : Result Tree) (others : Result Trees) (key : Text) (p : ℕ) (c : Conn)
    (run : Result ℕ × Conn) (more : M References)
    → p < length c.store
    → BuiltOne one (some p) c run
    → ((d : Conn) → p < length d.store → Built others p d (more d))
    → Built
        (one >>= λ t. others >>= λ ts. ok (tree key t ts))
        p
        c
        (continue run (λ q d. continue (more d) (λ rest. pure ((key, q) ∷ rest))))
Built-cons (ok t) (ok ts) key p c run more room (d, e, g, is) h =
    let (cs, f, e', g', are) = h d (omega (arith, g.1)) in
    (
      (key, length c.store) ∷ cs,
      f,
      rw e (rw e'),
      Grows-trans c d f g g',
      (
        length c.store,
        cs,
        refl,
        room,
        IsTree-keeps p d.store f.store (some p) (length c.store) t (λ q s _ at. g'.0 q s at) room
            is,
        are,
      ),
    )
Built-cons (ok t) (err x) key p c run more room (d, e, g, is) h = absurd (h d (omega (arith, g.1)))
Built-cons (ok t) panic key p c run more room (d, e, g, is) h =
    rw e (continue_panic (more d) _ (h d (omega (arith, g.1))))
Built-cons (err x) others key p c run more room one h = absurd one
Built-cons panic others key p c run more room one h = continue_panic run _ one

module _ (env : Env) (types : Types) (group : ℕ) where
  -- The builder that runs below is right about every type.
  abbrev IsRight : Builder → (Text → Text → UploadType → Result Trees) → Type 0
  IsRight build deeper =
      (r : ℕ) (full name : Text) (dt : UploadType) (c : Conn)
      → r < length c.store
      → Built (deeper full name dt) r c (build r full name dt c)

  add_member-BuiltOne :
      (build : Builder) (deeper : Text → Text → UploadType → Result Trees) (p : ℕ)
      (full name : Text) (segment : UploadType) (c : Conn)
      → IsRight build deeper
      → BuiltOne
          (expand_member deeper types group full name segment)
          (some p)
          c
          (add_member env build types group p full name segment c)
  unfolding expand_member add_member now alloc
  add_member-BuiltOne build deeper p full name segment c right =
      elim (path_of_cases full name (name_of segment)) [
        | inl (path, e) ↦
            let s : Symbol = member p path (env.clock c.clock_reads) group segment in
            rw e (
              Attached-BuiltOne
                (expand_below deeper path (name_of segment) (lookup (data_type_of segment) types))
                (member_facts path group segment) (some p) s c
                (attach build (length c.store) path (name_of segment)
                  (lookup (data_type_of segment) types) (made c s))
                refl refl
                (attach_below build deeper path (name_of segment)
                  (lookup (data_type_of segment) types) c s refl
                  (λ dt.
                    right (length c.store) path (name_of segment) dt (made c s) (made_room c s))))
        | inr e ↦ rw e refl
      ]

  add_members-Built :
      (build : Builder) (deeper : Text → Text → UploadType → Result Trees) (p : ℕ)
      (full name : Text) (cs : UploadChilds) (c : Conn)
      → IsRight build deeper
      → p < length c.store
      → Built
          (expand_members deeper types group full name cs)
          p
          c
          (add_members env build types group p full name cs c)
  unfolding expand_members add_members
  add_members-Built build deeper p full name no_childs c right room =
      ([], c, refl, ((λ q s at. at), omega arith, refl), refl)
  add_members-Built build deeper p full name (child key segment more) c right room =
      Built-cons (expand_member deeper types group full name segment)
        (expand_members deeper types group full name more) key p c
        (add_member env build types group p full name segment c)
        (add_members env build types group p full name more) room
        (add_member-BuiltOne build deeper p full name segment c right)
        (λ d room'. add_members-Built build deeper p full name more d right room')

  add_offset-Built :
      (depth p : ℕ) (full name : Text) (dt : UploadType) (c : Conn)
      → p < length c.store
      → Built
          (expand depth types group full name dt)
          p
          c
          (add_offset env depth types group p full name dt c)
  unfolding expand add_offset
  add_offset-Built zero p full name dt c room = refl
  add_offset-Built (suc depth) p full name dt c room =
      add_members-Built (add_offset env depth types group) (expand depth types group) p full name
        (childs_of dt) c (add_offset-Built depth) room

-- addSymbol refines the expansion of a data type into a tree: if the expansion, to the depth of the
-- stack, is a tree, then addSymbol returns a new object, and the objects of the store form that
-- tree at it, with parents, full names, groups, offsets and lengths as in the tree, and every
-- earlier object is as it was; if the expansion panics, so does addSymbol.
pub add_symbol-BuiltOne :
    (env : Env) (depth : ℕ) (types : Types) (item : UploadSymbol) (c : Conn)
    → BuiltOne (expand_top depth types item) none c (add_symbol env depth types item c)
unfolding expand_top add_symbol now alloc
add_symbol-BuiltOne env depth types item c =
    let s : Symbol = top item (env.clock c.clock_reads) in
    let build : Builder = add_offset env depth types item.entry.group in
    Attached-BuiltOne
      (expand_below (expand depth types item.entry.group) item.name item.name
        (lookup item.data_type types))
      (top_facts item) none s c
      (attach build (length c.store) item.name item.name (lookup item.data_type types) (made c s))
      refl refl
      (attach_below build (expand depth types item.entry.group) item.name item.name
        (lookup item.data_type types) c s refl
        (λ dt.
          add_offset-Built env types item.entry.group depth (length c.store) item.name item.name dt
            (made c s) (made_room c s)))

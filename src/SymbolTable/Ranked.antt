-- ===== src/SymbolTable/Ranked.antt =====
-- Where no data type contains itself, addSymbol ends and builds a tree.
use go_adstc.Prelude.{ℕ, zero, suc, ◌<◌, ◌≡◌, ◌≢◌, refl, arith, [], ◌∷◌, ◌++◌, length, Option, none}
use go_adstc.Prelude.{some, ◌==◌, if◌then◌else◌}
use go_adstc.Go.Result.{Result, ok}
use go_adstc.Symbol.{Text, UploadType, UploadChilds, no_childs, child, name_of, data_type_of}
use go_adstc.Symbol.{childs_of, lookup}
use go_adstc.Conn.{Env, Conn}
use go_adstc.SymbolTable.{Types, UploadSymbol, path_of, add_symbol}
use go_adstc.SymbolTable.Trees.{Tree, Trees, node, no_trees, tree, member_facts, top_facts}
use go_adstc.SymbolTable.Trees.{
  expand_below, expand_member, expand_members, expand, expand_top, IsTree,
}
use go_adstc.SymbolTable.Builds.{Grows, BuiltOne}
use go_adstc.SymbolTable.Refines.{add_symbol-BuiltOne}

-- A type that is there has a rank below the bound.
abbrev pub RankBelow : (Text → ℕ) → Types → ℕ → Text → Type 0
RankBelow rank types bound d = (dt : UploadType) → lookup d types ≡ some dt → rank d < bound

-- The members have names, and types of a lower rank.
abbrev pub MembersBelow : (Text → ℕ) → Types → ℕ → UploadChilds → Type 0
MembersBelow rank types bound no_childs = Unit {0}
MembersBelow rank types bound (child key segment more) =
    (name_of segment ≢ [])
    × RankBelow rank types bound (data_type_of segment)
    × MembersBelow rank types bound more

-- No type contains itself, at any depth.
abbrev pub IsRanked : (Text → ℕ) → Types → Type 0
IsRanked rank types =
    (d : Text) (dt : UploadType)
    → lookup d types ≡ some dt
    → MembersBelow rank types (rank d) (childs_of dt)

path_of_named :
    (full name segment : Text)
    → segment ≢ []
    → (path : Text) × (path_of full name segment ≡ ok path)
unfolding path_of
path_of_named full name [] h = absurd (h refl)
path_of_named full name (b ∷ bs) h =
    (if b == b'[' then name ++ (b ∷ bs) else full ++ (b'.' ∷ (b ∷ bs)), ground arith)

expand_below_total :
    (deeper : Text → Text → UploadType → Result Trees) (path name : Text) (o : Option UploadType)
    → ((dt : UploadType) → o ≡ some dt → (ts : Trees) × (deeper path name dt ≡ ok ts))
    → (ts : Trees) × (expand_below deeper path name o ≡ ok ts)
unfolding expand_below
expand_below_total deeper path name none h = (no_trees, refl)
expand_below_total deeper path name (some dt) h = h dt refl

module _ (rank : Text → ℕ) (types : Types) (ranked : IsRanked rank types) (group : ℕ) where
  expand_members_total :
      (depth bound : ℕ) (full name : Text) (cs : UploadChilds)
      → MembersBelow rank types bound cs
      → ((full name d : Text) (dt : UploadType)
          → lookup d types ≡ some dt
          → rank d < bound
          → (ts : Trees) × (expand depth types group full name dt ≡ ok ts))
      → (ts : Trees) × (expand_members (expand depth types group) types group full name cs ≡ ok ts)
  unfolding expand_members expand_member
  expand_members_total depth bound full name no_childs h deeper = (no_trees, refl)
  expand_members_total depth bound full name (child key segment more) h deeper =
      let (path, e) = path_of_named full name (name_of segment) h.0 in
      let (below, f) =
        expand_below_total (expand depth types group) path (name_of segment)
          (lookup (data_type_of segment) types)
          (λ dt at. deeper path (name_of segment) (data_type_of segment) dt at (h.1 dt at)) in
      let (rest, g) = expand_members_total depth bound full name more h.2 deeper in
      (tree key (node (member_facts path group segment) below) rest, rw e (rw f (rw g)))

  expand_total :
      (depth : ℕ) (full name d : Text) (dt : UploadType)
      → lookup d types ≡ some dt
      → rank d < depth
      → (ts : Trees) × (expand depth types group full name dt ≡ ok ts)
  unfolding expand
  expand_total zero full name d dt at h = absurd (omega arith)
  expand_total (suc depth) full name d dt at h =
      expand_members_total depth (rank d) full name (childs_of dt) (ranked d dt at)
        (λ full' name' d' dt' at' lt. expand_total depth full' name' d' dt' at' (omega arith))

pub add_symbol_total :
    (env : Env) (rank : Text → ℕ) (depth : ℕ) (types : Types) (item : UploadSymbol) (c : Conn)
    → IsRanked rank types
    → RankBelow rank types depth item.data_type
    → (t : Tree) × (d : Conn) × (expand_top depth types item ≡ ok t)
      × (add_symbol env depth types item c ≡ (ok (length c.store), d))
      × Grows c d
      × IsTree d.store none (length c.store) t
add_symbol_total env rank depth types item c ranked low =
    let (below, e) =
      expand_below_total (expand depth types item.entry.group) item.name item.name
        (lookup item.data_type types)
        (λ dt at.
          expand_total rank types ranked item.entry.group depth item.name item.name item.data_type
            dt at (low dt at)) in
    let t : Tree = node (top_facts item) below in
    let whole : expand_top depth types item ≡ ok t = unfold expand_top in rw e in
    let (d, run, g, is) : BuiltOne (ok t) none c (add_symbol env depth types item c) =
      rw whole at (add_symbol-BuiltOne env depth types item c) in
    (t, d, whole, run, g, is)

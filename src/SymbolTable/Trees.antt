-- ===== src/SymbolTable/Trees.antt =====
-- What a data type stands for: a tree of members, and when the objects of a store form such a tree.
use go_adstc.Prelude.{ℕ, zero, suc, ◌<◌, ◌≡◌, List, [], ◌∷◌, Option, none, some, arith}
use go_adstc.Go.Result.{Result, ok, panic, ◌>>=◌}
use go_adstc.Symbol.{Text, UploadType, UploadChilds, no_childs, child, Symbol, entry_of, name_of}
use go_adstc.Symbol.{data_type_of, comment_of, childs_of, lookup}
use go_adstc.Symbol.Store.{symbol_at}
use go_adstc.SymbolTable.{Types, References, UploadSymbol, path_of}

-- What a symbol is about, and stays: no values, times or handles.
pub record Facts : Type 0 where
  pub full_name : Text
  pub name : Text
  pub data_type : Text
  pub comment : Text
  pub group : ℕ
  pub offset : ℕ
  pub length : ℕ

abbrev pub facts_of : Symbol → Facts
facts_of s = record {
  full_name = s.full_name;
  name = s.name;
  data_type = s.data_type;
  comment = s.comment;
  group = s.group;
  offset = s.offset;
  length = s.length;
}

mutual
  pub data Tree : Type 0 where
    node : Facts → Trees → Tree

  pub data Trees : Type 0 where
    no_trees : Trees
    tree : Text → Tree → Trees → Trees

abbrev pub member_facts : Text → ℕ → UploadType → Facts
member_facts path group segment = record {
  full_name = path;
  name = name_of segment;
  data_type = data_type_of segment;
  comment = comment_of segment;
  group = group;
  offset = (entry_of segment).offs;
  length = (entry_of segment).size;
}

abbrev pub top_facts : UploadSymbol → Facts
top_facts item = record {
  full_name = item.name;
  name = item.name;
  data_type = item.data_type;
  comment = item.comment;
  group = item.entry.group;
  offset = item.entry.offset;
  length = item.entry.size;
}

-- The members of a type, of the types of its members, and so on: `panic` if a name is empty or if
-- the types nest deeper than `depth`.
unfoldable pub expand_below :
    (Text → Text → UploadType → Result Trees) → Text → Text → Option UploadType → Result Trees
expand_below deeper path name none = ok no_trees
expand_below deeper path name (some dt) = deeper path name dt

unfoldable pub expand_member :
    (Text → Text → UploadType → Result Trees) → Types → ℕ → Text → Text → UploadType → Result Tree
expand_member deeper types group full name segment = do
  path ← path_of full name (name_of segment)
  below ← expand_below deeper path (name_of segment) (lookup (data_type_of segment) types)
  ok (node (member_facts path group segment) below)

unfoldable pub expand_members :
    (Text → Text → UploadType → Result Trees)
    → Types
    → ℕ
    → Text
    → Text
    → UploadChilds
    → Result Trees
expand_members deeper types group full name no_childs = ok no_trees
expand_members deeper types group full name (child key segment more) = do
  t ← expand_member deeper types group full name segment
  rest ← expand_members deeper types group full name more
  ok (tree key t rest)

unfoldable pub expand : ℕ → Types → ℕ → Text → Text → UploadType → Result Trees
expand zero types group full name dt = panic
expand (suc depth) types group full name dt =
    expand_members (expand depth types group) types group full name (childs_of dt)

unfoldable pub expand_top : ℕ → Types → UploadSymbol → Result Tree
expand_top depth types item = do
  below ←
      expand_below (expand depth types item.entry.group) item.name item.name
        (lookup item.data_type types)
  ok (node (top_facts item) below)

-- The object at a reference and those below it are a tree: each knows its parent, its facts and its
-- children, whose references are larger than its own. `AreTrees` is the same of a map of children.
abbrev mutual
  pub IsTree : List Symbol → Option ℕ → ℕ → Tree → Type 0
  IsTree store parent r (node facts kids) =
      (s : Symbol) × (symbol_at r store ≡ some s)
      × (facts_of s ≡ facts)
      × (s.parent ≡ parent)
      × AreTrees store r s.childs kids

  pub AreTrees : List Symbol → ℕ → References → Trees → Type 0
  AreTrees store p cs no_trees = cs ≡ []
  AreTrees store p cs (tree key t ts) =
      (q : ℕ) × (rest : References) × (cs ≡ ((key, q) ∷ rest))
      × (p < q)
      × IsTree store (some p) q t
      × AreTrees store p rest ts

-- Behind the reference `p`, the second store has all that the first has.
abbrev pub KeepsBehind : ℕ → List Symbol → List Symbol → Type 0
KeepsBehind p old new =
    (q : ℕ) (s : Symbol) → p < q → symbol_at q old ≡ some s → symbol_at q new ≡ some s

-- Trees depend on nothing else.
mutual
  pub IsTree-keeps :
      (p : ℕ) (old new : List Symbol) (parent : Option ℕ) (r : ℕ) (t : Tree)
      → KeepsBehind p old new
      → p < r
      → IsTree old parent r t
      → IsTree new parent r t
  IsTree-keeps p old new parent r (node facts kids) keep lt (s, at, same, up, below) = (
    s,
    keep r s lt at,
    same,
    up,
    AreTrees-keeps p old new r s.childs kids keep (omega arith) below,
  )

  pub AreTrees-keeps :
      (p : ℕ) (old new : List Symbol) (r : ℕ) (cs : References) (ts : Trees)
      → KeepsBehind p old new
      → p < suc r
      → AreTrees old r cs ts
      → AreTrees new r cs ts
  AreTrees-keeps p old new r cs no_trees keep le e = e
  AreTrees-keeps p old new r cs (tree key t ts) keep le (q, rest, e, lt, one, more) = (
    q,
    rest,
    e,
    lt,
    IsTree-keeps p old new (some r) q t keep (omega arith) one,
    AreTrees-keeps p old new r rest ts keep le more,
  )

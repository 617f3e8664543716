-- ===== src/SymbolTable.antt =====
-- The symbols of a controller as objects: addSymbol, addOffset, addChilds and
-- ParseUploadSymbolInfoSymbols of symbols.go. A stack of `depth` frames stands for Go's; a recursion
-- that goes deeper is a panic.
pub mod Trees
pub mod Builds
pub mod Refines
pub mod Ranked
pub mod Written
pub mod Visits
pub mod RoundTrip
pub mod Total
pub mod Flat
pub mod Cyclic
pub mod Json
use go_adstc.Prelude.{ℕ, zero, suc, ◌+◌, ◌-◌, ◌*◌, ◌^◌, Bool, ltb, leb, ◌==◌, if◌then◌else◌}
use go_adstc.Prelude.{List, [], ◌∷◌, ◌++◌, length, take, drop, Option, none, some}
use go_adstc.Go.Result.{Result, ok, err, panic}
use go_adstc.Go.Bytes.{codes}
use go_adstc.Go.Binary.{Layout, field, read_over}
use go_adstc.Go.Strconv.{text_eq}
use go_adstc.Symbol.{Text, DatatypeEntry, UploadType, UploadChilds, upload_type, no_childs, child}
use go_adstc.Symbol.{Symbol, entry_of, name_of, data_type_of, comment_of, childs_of, lookup, insert}
use go_adstc.Symbol.Store.{symbol_at, change_at, with_childs}
use go_adstc.Symbol.Upload.{read_terminated}
use go_adstc.Conn.{Env, Conn, M, ◌>>=◌, ◌>>◌, pure, lift, gets, modify, now}

abbrev pub Types : Type 0
Types = List (Text × UploadType)

abbrev pub References : Type 0
References = List (Text × ℕ)

-- symbolEntry
pub record SymbolEntry : Type 0 where
  pub entry_length : ℕ
  pub group : ℕ
  pub offset : ℕ
  pub size : ℕ
  pub data_type : ℕ
  pub flags : ℕ
  pub name_length : ℕ
  pub type_length : ℕ
  pub comment_length : ℕ

abbrev pub symbol_layout : Layout
symbol_layout = 4 ∷ 4 ∷ 4 ∷ 4 ∷ 4 ∷ 4 ∷ 2 ∷ 2 ∷ 2 ∷ []

abbrev pub symbol_entry_of : List ℕ → SymbolEntry
symbol_entry_of vs = record {
  entry_length = field vs 0;
  group = field vs 1;
  offset = field vs 2;
  size = field vs 3;
  data_type = field vs 4;
  flags = field vs 5;
  name_length = field vs 6;
  type_length = field vs 7;
  comment_length = field vs 8;
}

-- symbolUploadSymbol; its Childs are never set.
pub record UploadSymbol : Type 0 where
  pub entry : SymbolEntry
  pub name : Text
  pub data_type : Text
  pub comment : Text

-- 50 * time.Millisecond
abbrev pub update_interval : ℕ
update_interval = 50 * 10 ^ 6

-- The path of a member: an index is hung on the name of its parent, any other name on its full name.
-- segment.Name[0:1] panics on an empty name.
unfoldable pub path_of : Text → Text → Text → Result Text
path_of full name [] = panic
path_of full name (b ∷ bs) =
    if b == b'[' then ok (name ++ (b ∷ bs)) else ok (full ++ (b'.' ∷ (b ∷ bs)))

-- The Symbol of a member, before its children are there.
abbrev pub member : ℕ → Text → ℕ → ℕ → UploadType → Symbol
member parent path time group segment = record {
  full_name = path;
  last_update_time = time;
  min_update_interval = update_interval;
  name = name_of segment;
  data_type = data_type_of segment;
  comment = comment_of segment;
  handle = 0;
  group = group;
  offset = (entry_of segment).offs;
  length = (entry_of segment).size;
  changed = Bool.false;
  value = [];
  valid = Bool.false;
  notification = none;
  parent = some parent;
  childs = [];
}

abbrev pub top : UploadSymbol → ℕ → Symbol
top item time = record {
  full_name = item.name;
  last_update_time = time;
  min_update_interval = update_interval;
  name = item.name;
  data_type = item.data_type;
  comment = item.comment;
  handle = 0;
  group = item.entry.group;
  offset = item.entry.offset;
  length = item.entry.size;
  changed = Bool.false;
  value = [];
  valid = Bool.false;
  notification = none;
  parent = none;
  childs = [];
}

-- &Symbol{…}
unfoldable pub alloc : Symbol → M ℕ
alloc s c = (ok (length c.store), record c { store = c.store ++ (s ∷ []) })

-- What builds the children of a symbol, given its place, its full name, its name and its type.
abbrev pub Builder : Type 0
Builder = ℕ → Text → Text → UploadType → M References

-- symbol.Childs = dt.addOffset(symbol, …), if the type is there
unfoldable pub attach : Builder → ℕ → Text → Text → Option UploadType → M (Unit {0})
attach build r full name none = pure tt
attach build r full name (some dt) = do
  cs ← build r full name dt
  modify (λ c. record c { store = change_at r (with_childs cs) c.store })

module _ (env : Env) where
  -- One round of the loop of addOffset.
  unfoldable pub add_member : Builder → Types → ℕ → ℕ → Text → Text → UploadType → M ℕ
  add_member build types group p full name segment = do
    path ← lift (path_of full name (name_of segment))
    time ← now env
    r ← alloc (member p path time group segment)
    attach build r path (name_of segment) (lookup (data_type_of segment) types)
    pure r

  -- The loop; the keys of a map are all different. Its order is that of the list.
  unfoldable pub add_members : Builder → Types → ℕ → ℕ → Text → Text → UploadChilds → M References
  add_members build types group p full name no_childs = pure []
  add_members build types group p full name (child key segment more) = do
    r ← add_member build types group p full name segment
    rest ← add_members build types group p full name more
    pure ((key, r) ∷ rest)

  -- addOffset; its parameter offset is not used.
  unfoldable pub add_offset : ℕ → Types → ℕ → Builder
  add_offset zero types group p full name dt = lift panic
  add_offset (suc depth) types group p full name dt =
      add_members (add_offset depth types group) types group p full name (childs_of dt)

  unfoldable pub add_symbol : ℕ → Types → UploadSymbol → M ℕ
  add_symbol depth types item = do
    time ← now env
    r ← alloc (top item time)
    attach (add_offset depth types item.entry.group) r item.name item.name
        (lookup item.data_type types)
    pure r

-- addChilds, on a map that grows: a name that is there keeps its symbol, and its children are not
-- visited.
abbrev pub Visit : Type 0
Visit = References → References → Result References

unfoldable pub add_child : Visit → Option Symbol → ℕ → References → Result References
add_child deeper none q symbols = panic
add_child deeper (some s) q symbols = elim (lookup s.full_name symbols) [
  | some _ ↦ ok symbols
  | none ↦ deeper s.childs (insert s.full_name q symbols)
]

unfoldable pub add_childs_loop : Visit → List Symbol → Visit
add_childs_loop deeper store [] symbols = ok symbols
add_childs_loop deeper store ((key, q) ∷ more) symbols =
    elim (add_child deeper (symbol_at q store) q symbols) [
      | ok m ↦ add_childs_loop deeper store more m
      | err e ↦ err e
      | panic ↦ panic
    ]

unfoldable pub add_childs : ℕ → List Symbol → Visit
add_childs zero store childs symbols = panic
add_childs (suc depth) store childs symbols =
    add_childs_loop (add_childs depth store) store childs symbols

-- Any type that begins with STRING is a STRING.
unfoldable pub plain_symbol_type : Text → Text
plain_symbol_type dt =
    if leb 6 (length dt)
    then (if text_eq (take 6 dt) (codes "STRING") then codes "STRING" else dt)
    else dt

abbrev pub zero_symbol_entry : SymbolEntry
zero_symbol_entry = symbol_entry_of []

unfoldable pub symbol_after : SymbolEntry × List ℕ → UploadSymbol × List ℕ
symbol_after (entry, b1) =
    let (name, b2) = read_terminated entry.name_length b1 in
    let (dt, b3) = read_terminated entry.type_length b2 in
    let (comment, b4) = read_terminated entry.comment_length b3 in
    (record { entry = entry; name = name; data_type = plain_symbol_type dt; comment = comment }, b4)

-- A symbol of the upload, and the buffer behind its texts.
unfoldable pub read_symbol : List ℕ → UploadSymbol × List ℕ
read_symbol buf = symbol_after (read_over symbol_layout symbol_entry_of zero_symbol_entry buf)

-- buff.Next(EntryLength - consumed): a negative count panics.
unfoldable pub skip_entry : ℕ → ℕ → List ℕ → Result (List ℕ)
skip_entry entry_length consumed rest =
    if ltb entry_length consumed then panic else ok (drop (entry_length - consumed) rest)

abbrev pub childs_at : Option Symbol → References
childs_at none = []
childs_at (some s) = s.childs

module _ (env : Env) (types : Types) where
  -- symbols[item.Name] = symbol; addChilds(symbol, symbols)
  unfoldable pub enter : UploadSymbol → References → M References
  enter item symbols = do
    r ← add_symbol env (suc (length types)) types item
    store ← gets (λ c. c.store)
    lift (
        add_childs (suc (length store)) store (childs_at (symbol_at r store))
          (insert item.name r symbols))

  unfoldable pub parse_round : List ℕ → References → M (References × List ℕ)
  parse_round buf symbols = do
    let (item, behind) = read_symbol buf
    symbols' ← enter item symbols
    rest ← lift (skip_entry item.entry.entry_length (length buf - length behind) behind)
    pure (symbols', rest)

  -- The loop over the buffer; `none`: the fuel ran out.
  unfoldable pub parse_symbols_loop : ℕ → List ℕ → References → M (Option References)
  parse_symbols_loop zero buf symbols = pure none
  parse_symbols_loop (suc fuel) [] symbols = pure (some symbols)
  parse_symbols_loop (suc fuel) (b ∷ bs) symbols = do
    (symbols', rest) ← parse_round (b ∷ bs) symbols
    parse_symbols_loop fuel rest symbols'

  -- ParseUploadSymbolInfoSymbols
  unfoldable pub parse_symbols : List ℕ → M (Option References)
  parse_symbols bytes = parse_symbols_loop (suc (length bytes)) bytes []

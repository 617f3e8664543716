-- ===== src/SymbolTable/Total.antt =====
-- The upload of symbols ends, and every symbol is found under its name.
use go_adstc.Prelude.{ℕ, suc, ◌≡◌, refl, ◌∙◌, arith, List, [], ◌∷◌, length}
use go_adstc.Prelude.{Option, none, some, All, inl, inr, Bool-cases}
use go_adstc.Go.Result.{ok}
use go_adstc.Go.Strconv.{text_eq}
use go_adstc.Go.Strconv.Laws.{text_eq_iff}
use go_adstc.Symbol.{Text, Symbol, lookup, insert}
use go_adstc.Symbol.Store.{symbol_at}
use go_adstc.Conn.{Env, Conn}
use go_adstc.SymbolTable.{Types, References, UploadSymbol, childs_at, enter, parse_symbols}
use go_adstc.SymbolTable.Trees.{Tree, Trees, node, IsTree, AreTrees}
use go_adstc.SymbolTable.Builds.{Grows, Grows-trans}
use go_adstc.SymbolTable.Ranked.{IsRanked, RankBelow, add_symbol_total}
use go_adstc.SymbolTable.Visits.{lookup-insert_other, Keeps, add_childs_total}
use go_adstc.SymbolTable.Written.{Written, symbols_bytes, IsWritten, as_read, enter_all}
use go_adstc.SymbolTable.RoundTrip.{parse_symbols-symbols_bytes}

-- The children of a tree in the store.
tree_childs :
    (store : List Symbol) (parent : Option ℕ) (r : ℕ) (t : Tree)
    → IsTree store parent r t
    → (ts : Trees) × AreTrees store r (childs_at (symbol_at r store)) ts
tree_childs store parent r (node facts kids) (s, at, _, _, below) = (kids, rw at below)

lookup-insert_self : (k : Text) (q : ℕ) (m : References) → lookup k (insert k q m) ≡ some q
unfolding lookup insert
lookup-insert_self k q [] = ground (arith, text_eq_iff k k)
lookup-insert_self k q ((j, p) ∷ m) =
    ground (arith, text_eq_iff k k, text_eq_iff j k, lookup-insert_self k q m)

module _ (env : Env) (rank : Text → ℕ) (types : Types) (ranked : IsRanked rank types) where
  -- The types below a symbol are few enough for the stack.
  abbrev pub IsShallow : Written → Type 0
  IsShallow (item, extra) = RankBelow rank types (suc (length types)) (as_read item).data_type

  abbrev pub IsFound : References → Written → Type 0
  IsFound m (item, extra) = (q : ℕ) × (lookup item.name m ≡ some q)

  enter_total :
      (item : UploadSymbol) (symbols : References) (c : Conn)
      → RankBelow rank types (suc (length types)) item.data_type
      → (m : References) × (d : Conn) × (enter env types item symbols c ≡ (ok m, d))
        × Keeps (insert item.name (length c.store) symbols) m
        × Grows c d
  unfolding enter
  enter_total item symbols c low =
      let (t, d, _, run, g, is) =
        add_symbol_total env rank (suc (length types)) types item c ranked low in
      let (ts, are) = tree_childs d.store none (length c.store) t is in
      let (m, e, keep) =
        add_childs_total d.store ts (length d.store) (length c.store)
          (childs_at (symbol_at (length c.store) d.store))
          (insert item.name (length c.store) symbols) are (omega arith) in
      (m, d, rw run (rw e), keep, g)

  abbrev Known : References → Text → Type 0
  Known m k = (q : ℕ) × (lookup k m ≡ some q)

  -- What was known stays known, though a later symbol of the same name takes its place.
  Known-insert : (k j : Text) (q : ℕ) (m : References) → Known m j → Known (insert k q m) j
  Known-insert k j q m (p, at) = elim (Bool-cases (text_eq k j)) [
    | inl same ↦ (q, rw (← (text_eq_iff k j).0 same) (lookup-insert_self k q m))
    | inr other ↦ (p, lookup-insert_other k j q m other ∙ at)
  ]

  enter_all_total :
      (ws : List Written) (symbols : References) (c : Conn)
      → All IsShallow ws
      → (m : References) × (d : Conn) × (enter_all env types ws symbols c ≡ (ok (some m), d))
        × All (IsFound m) ws
        × ((k : Text) → Known symbols k → Known m k)
        × Grows c d
  enter_all_total [] symbols c low =
      (symbols, c, refl, tt, (λ k h. h), ((λ q s at. at), omega arith, refl))
  enter_all_total ((item, extra) ∷ ws) symbols c low =
      let (m1, d1, run1, keep, g1) = enter_total (as_read item) symbols c low.0 in
      let (m2, d2, run2, found, stay, g2) = enter_all_total ws m1 d1 low.1 in
      let r : ℕ = length c.store in
      (
        m2,
        d2,
        rw run1 run2,
        (stay item.name (r, keep item.name r (lookup-insert_self item.name r symbols)), found),
        (λ k h. let (q, at) = Known-insert item.name k r symbols h in stay k (q, keep k q at)),
        Grows-trans c d1 d2 g1 g2,
      )

  -- Where each data type has a higher rank than the types of its members, the members have names,
  -- and the types of the symbols, as they are read, with STRING for a type that begins with it,
  -- have ranks up to the number of types, ParseUploadSymbolInfoSymbols ends without a panic on an
  -- upload whose entries have numbers that fit their fields and give the true lengths; the map has
  -- the name of every symbol of it, and every object that was there is as it was.
  pub parse_symbols_total :
      (ws : List Written) (c : Conn)
      → All IsWritten ws
      → All IsShallow ws
      → (m : References) × (d : Conn) × (parse_symbols env types (symbols_bytes ws) c
          ≡ (ok (some m), d))
        × All (IsFound m) ws
        × Grows c d
  parse_symbols_total ws c written low =
      let (m, d, run, found, _, g) = enter_all_total ws [] c low in
      (m, d, parse_symbols-symbols_bytes env types ws c written ∙ run, found, g)

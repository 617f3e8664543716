-- ===== src/Value/Update/Structs.antt =====
-- parse of a symbol with children ends, and gives every leaf the text in its window.
use go_adstc.Prelude.{
  ℕ, zero, suc, ◌+◌, ◌≤◌, ◌<◌, ◌≡◌, ◌≢◌, refl, ap, ◌∙◌, arith, true, false, ◌==◌,
}
use go_adstc.Prelude.{List, [], ◌∷◌, length, Option, none, some, ◌⊎◌, inl, inr}
use go_adstc.Go.Result.{Result, ok}
use go_adstc.Symbol.{Text, Symbol}
use go_adstc.Symbol.Store.{symbol_at, symbol_at-lt-length}
use go_adstc.Conn.{Env, Conn, M}
use go_adstc.SymbolTable.{References, childs_at}
use go_adstc.SymbolTable.Trees.{Facts, Tree, Trees, node, no_trees, tree, IsTree, AreTrees}
use go_adstc.SymbolTable.Json.{Json, Encoder, get_json, marshaled}
use go_adstc.SymbolTable.Json.Ends.{child_there, view_tree}
use go_adstc.Value.{Formats, parse_leaf}
use go_adstc.Value.Update.{publish_leaf, parse_childs, parse_struct}
use go_adstc.Value.Update.{parse_value, parse}
use go_adstc.Value.Update.Frame.{still}
use go_adstc.Value.Update.Changed.{IsSound, parse-IsSound}
use go_adstc.Value.Update.Moves.{Moves, Moves-refl, Moves-trans, IsDue, publish-Moves}
use go_adstc.Value.Update.Windows.{window, slice-window, parse_leaf-window}
use go_adstc.Value.Update.Layouts.{IsTree-Moves, AreTrees-Moves, AllLeaves, AllBelow, AllLeaves-map}
use go_adstc.Value.Update.Layouts.{AllBelow-map, IsLaid, AreLaid, offset_of, IsReady, HasValue}

-- Every reference below the length of a store is that of a symbol.
symbol_there : (q : ℕ) (ss : List Symbol) → q < length ss → (s : Symbol) × (symbol_at q ss ≡ some s)
symbol_there q [] h = absurd (omega arith)
symbol_there zero (s ∷ ss) h = (s, refl)
symbol_there (suc q) (s ∷ ss) h = symbol_there q ss (omega arith)

abbrev text_or_empty : Option Text → Option Text
text_or_empty o = elim o [ none ↦ some [] | some t ↦ some t ]

text_or_empty_total : (o : Option Text) → (text : Text) × (text_or_empty o ≡ some text)
text_or_empty_total none = ([], refl)
text_or_empty_total (some t) = (t, refl)

marshaled_total : (enc : Encoder) (j : Json) → (text : Text) × (marshaled enc (some j) ≡ some text)
unfolding marshaled
marshaled_total enc j = text_or_empty_total (enc.marshal j)

-- GetJSON of a tree comes to an end.
get_json_total :
    (enc : Encoder) (store : List Symbol) (parent : Option ℕ) (r : ℕ) (t : Tree)
    → IsTree store parent r t
    → (text : Text) × (get_json enc (suc (length store)) false store r ≡ some text)
unfolding get_json
get_json_total enc store parent r t is =
    let (j, e) = view_tree enc false store t (suc (length store)) parent r is (omega arith) in
    let (text, f) = marshaled_total enc j in (text, rw e f)

module _ (env : Env) (enc : Encoder) (fmts : Formats) (kids : ℕ → References)
    (text_at : ℕ → Text) where
  -- A symbol with children may get any value, and a leaf its text.
  abbrev May : ℕ → Text → Type 0
  May q x = (kids q ≢ []) ⊎ (x ≡ text_at q)

  -- The references of a store have these children.
  abbrev pub KidsAre : Conn → Type 0
  KidsAre c = (q : ℕ) (s : Symbol) → symbol_at q c.store ≡ some s → s.childs ≡ kids q

  KidsAre-Moves : (c d : Conn) → Moves May c d → KidsAre c → KidsAre d
  KidsAre-Moves c d (_, l, move) are q t at =
      let (s, s_at) =
        symbol_there q c.store (omega (arith, l, symbol_at-lt-length q d.store t at)) in
      let (u, u_at, (calm, _)) = move q s s_at in
      let same : u ≡ t = cc (u_at, at) in
      rw (← same) (ap (λ (x : Symbol). x.childs) calm ∙ are q s s_at)

  IsReady-Moves :
      (c d : Conn)
      → Moves May c d
      → (q : ℕ) → IsReady kids text_at env c q
      → IsReady kids text_at env d q
  IsReady-Moves c d (later, _, move) q (s, at, leaf, ready) =
      let (t, t_at, (calm, change)) = move q s at in (t, t_at, leaf, after t calm change ready)
    where
      after :
          (t : Symbol)
          → still t ≡ still s
          → ((t.value ≡ s.value) × (t.last_update_time ≡ s.last_update_time)) ⊎ May q t.value
          → (s.value ≡ text_at q) ⊎ IsDue env c s
          → (t.value ≡ text_at q) ⊎ IsDue env d t
      after t calm (inl (v, l)) (inl e) = inl (v ∙ e)
      after t calm (inl (v, l)) (inr due) = inr (λ n le.
          let interval : t.min_update_interval ≡ s.min_update_interval =
            ap (λ (x : Symbol). x.min_update_interval) calm in
          omega (arith, l, interval, due n (omega arith)))
      after t calm (inr (inl inner)) ready = absurd (inner leaf)
      after t calm (inr (inr e)) ready = inl e

  HasValue-Moves :
      (c d : Conn) → Moves May c d → (q : ℕ) → HasValue kids text_at c q → HasValue kids text_at d q
  HasValue-Moves c d (later, _, move) q (s, at, leaf, has) =
      let (t, t_at, (calm, change)) = move q s at in (t, t_at, leaf, after t change)
    where
      after :
          (t : Symbol)
          → ((t.value ≡ s.value) × (t.last_update_time ≡ s.last_update_time)) ⊎ May q t.value
          → t.value ≡ text_at q
      after t (inl (v, l)) = v ∙ has
      after t (inr (inl inner)) = absurd (inner leaf)
      after t (inr (inr e)) = e

  -- What parse does to the symbol at the root of a tree, and to those below it.
  abbrev Parses : ℕ → Tree → Conn → Result Text × Conn → Type 0
  Parses r t c run =
      (text : Text) × (d : Conn) × (run ≡ (ok text, d))
      × Moves May c d
      × AllLeaves kids (HasValue kids text_at d) r t
      × IsSound d

  abbrev ParsesAll : References → Trees → Conn → Result (Unit {0}) × Conn → Type 0
  ParsesAll cs ts c run =
      (d : Conn) × (run ≡ (ok tt, d))
      × Moves May c d
      × AllBelow kids (HasValue kids text_at d) cs ts
      × IsSound d

  parse_value_takes :
      (r : ℕ) (bytes : List ℕ) (start : ℕ) (s : Symbol) (c : Conn)
      → symbol_at r c.store ≡ some s
      → IsSound c
      → parse_leaf fmts s.data_type s.length bytes start ≡ ok (some (text_at r))
      → IsReady kids text_at env c r
      → (text : Text) × (d : Conn) × (parse_value env enc fmts r bytes start s c ≡ (ok text, d))
        × Moves May c d
        × HasValue kids text_at d r
  unfolding parse_value publish_leaf
  parse_value_takes r bytes start s c at sound laid (x, x_at, leaf, ready) =
      let same : x ≡ s = cc (x_at, at) in
      let (text, d, run, moves, takes) =
        publish-Moves env May r (text_at r) s c at sound (inr refl) in
      let (t, t_at, has) = takes (rw same at ready) in
      (text, d, rw laid run, moves, (t, t_at, leaf, has))

  parse_struct_takes :
      (deeper : ℕ → List ℕ → ℕ → M Text) (r : ℕ) (s : Symbol) (bytes : List ℕ) (start : ℕ)
      (c d : Conn) (parent : Option ℕ) (t : Tree)
      → start + s.length ≤ length bytes
      → kids r ≢ []
      → parse_childs env enc fmts deeper (window s.length start bytes) s.childs c ≡ (ok tt, d)
      → IsTree d.store parent r t
      → IsSound d
      → (text : Text) × (e : Conn) × (parse_struct env enc fmts deeper r s bytes start c
          ≡ (ok text, e))
        × Moves May d e
  unfolding parse_struct
  parse_struct_takes deeper r s bytes start c d parent t room inner run is sound =
      let (json, j) = get_json_total enc d.store parent r t is in
      let (x, x_at) = child_there enc false d.store t r parent is in
      let (text, e, last, moves, _) = publish-Moves env May r json x d x_at sound (inl inner) in
      (text, e, rw (slice-window s.length start bytes room) (rw run (rw j last)), moves)

  -- A child whose parse comes to an end is passed in the loop.
  parse_childs_passes :
      (deeper : ℕ → List ℕ → ℕ → M Text) (part : List ℕ) (key : Text) (q : ℕ) (more : References)
      (s : Symbol) (text : Text) (c d e : Conn)
      → symbol_at q c.store ≡ some s
      → deeper q part s.offset c ≡ (ok text, d)
      → parse_childs env enc fmts deeper part more d ≡ (ok tt, e)
      → parse_childs env enc fmts deeper part ((key, q) ∷ more) c ≡ (ok tt, e)
  unfolding parse_childs
  parse_childs_passes deeper part key q more s text c d e at run rest = rw at (rw run rest)

  nothing_left :
      (deeper : ℕ → List ℕ → ℕ → M Text) (part : List ℕ) (c : Conn)
      → parse_childs env enc fmts deeper part [] c ≡ (ok tt, c)
  unfolding parse_childs
  nothing_left deeper part c = refl

  parse-parse_value :
      (depth r : ℕ) (bytes : List ℕ) (start : ℕ) (s : Symbol) (c : Conn)
      → symbol_at r c.store ≡ some s
      → s.childs ≡ []
      → parse env enc fmts (suc depth) r bytes start c ≡ parse_value env enc fmts r bytes start s c
  unfolding parse
  parse-parse_value depth r bytes start s c at leaf =
      let none_below : (length s.childs == 0) ≡ true = rw leaf refl in rw at (rw none_below refl)

  parse-parse_struct :
      (depth r : ℕ) (bytes : List ℕ) (start : ℕ) (s : Symbol) (c : Conn)
      → symbol_at r c.store ≡ some s
      → s.childs ≢ []
      → parse env enc fmts (suc depth) r bytes start c
        ≡ parse_struct env enc fmts (parse env enc fmts depth) r s bytes start c
  unfolding parse
  parse-parse_struct depth r bytes start s c at inner =
      let some_below : (length s.childs == 0) ≡ false = longer s.childs inner in
      rw at (rw some_below refl)
    where
      longer : (cs : References) → cs ≢ [] → (length cs == 0) ≡ false
      longer [] h = absurd (h refl)
      longer (x ∷ cs) h = ground arith

  offset_there :
      (store : List Symbol) (parent : Option ℕ) (q : ℕ) (t : Tree) (s : Symbol)
      → IsTree store parent q t
      → symbol_at q store ≡ some s
      → s.offset ≡ offset_of t
  offset_there store parent q (node facts kids) s (x, x_at, same, _, _) at =
      let one : s ≡ x = cc (x_at, at) in rw one (ap (λ (f : Facts). f.offset) same)

  mutual
    parse_tree :
        (t : Tree) (depth : ℕ) (parent : Option ℕ) (r : ℕ) (bytes : List ℕ) (start : ℕ) (c : Conn)
        → IsTree c.store parent r t
        → length c.store ≤ depth + r
        → IsSound c
        → KidsAre c
        → IsLaid kids fmts text_at r bytes start t
        → AllLeaves kids (IsReady kids text_at env c) r t
        → Parses r t c (parse env enc fmts depth r bytes start c)
    parse_tree (node facts below) zero parent r bytes start c (s, at, _, _, _) room sound are laid
          ready =
        absurd (omega (arith, symbol_at-lt-length r c.store s at))
    parse_tree (node facts no_trees) (suc depth) parent r bytes start c (s, at, same, up, leaf) room
          sound are (fit, has, _) (ready, _) =
        let size : s.length ≡ facts.length = ap (λ (f : Facts). f.length) same in
        let fits : start + s.length ≤ length bytes = rw size fit in
        let has_text : parse_leaf fmts s.data_type s.length (window s.length start bytes) 0
            ≡ ok (some (text_at r)) =
          rw (size, ap (λ (f : Facts). f.data_type) same) has in
        let (text, d, run, moves, value) =
          parse_value_takes r bytes start s c at sound
            (parse_leaf-window fmts s.data_type s.length start bytes fits ∙ has_text) ready in
        let whole : parse env enc fmts (suc depth) r bytes start c ≡ (ok text, d) =
          parse-parse_value depth r bytes start s c at leaf ∙ run in
        (
          text,
          d,
          whole,
          moves,
          (value, tt),
          rw whole at (parse-IsSound env enc fmts (suc depth) r bytes start c sound),
        )
    parse_tree (node facts (tree key t ts)) (suc depth) parent r bytes start c
          (s, at, same, up, below) room sound are (fit, _, laid) (_, ready) =
        let size : s.length ≡ facts.length = ap (λ (f : Facts). f.length) same in
        let fits : start + s.length ≤ length bytes = rw size fit in
        let kids_same : s.childs ≡ kids r = are r s at in
        let (q, rest, first, _, _, _) = below in
        let inner : s.childs ≢ [] = λ e. cc (e, first) in
        let part : List ℕ = window s.length start bytes in
        let laid_all : AreLaid kids fmts text_at s.childs part (tree key t ts) =
          rw (kids_same, size) laid in
        let ready_all : AllBelow kids (IsReady kids text_at env c) s.childs (tree key t ts) =
          rw kids_same ready in
        let (d, run, moves, values, sound_d) =
          parse_trees (tree key t ts) depth r s.childs part c below (omega arith) sound are laid_all
            ready_all in
        let is_d : IsTree d.store parent r (node facts (tree key t ts)) =
          IsTree-Moves May c d parent r (node facts (tree key t ts)) moves
            (s, at, same, up, below) in
        let (text, e, last, moves') =
          parse_struct_takes (parse env enc fmts depth) r s bytes start c d parent
            (node facts (tree key t ts)) fits (rw (← kids_same) inner) run is_d sound_d in
        let whole : parse env enc fmts (suc depth) r bytes start c ≡ (ok text, e) =
          rw (parse-parse_struct depth r bytes start s c at inner) last in
        let kept : AllBelow kids (HasValue kids text_at e) s.childs (tree key t ts) =
          AllBelow-map kids (HasValue kids text_at d) (HasValue kids text_at e) s.childs
            (tree key t ts) (HasValue-Moves d e moves') values in
        (
          text,
          e,
          whole,
          Moves-trans May c d e moves moves',
          (tt, rw (← kids_same) kept),
          rw whole at (parse-IsSound env enc fmts (suc depth) r bytes start c sound),
        )

    parse_trees :
        (ts : Trees) (depth p : ℕ) (cs : References) (part : List ℕ) (c : Conn)
        → AreTrees c.store p cs ts
        → length c.store ≤ depth + suc p
        → IsSound c
        → KidsAre c
        → AreLaid kids fmts text_at cs part ts
        → AllBelow kids (IsReady kids text_at env c) cs ts
        → ParsesAll cs ts c (parse_childs env enc fmts (parse env enc fmts depth) part cs c)
    parse_trees no_trees depth p cs part c e room sound are laid ready =
        (c, rw e (nothing_left (parse env enc fmts depth) part c), Moves-refl May c, tt, sound)
    parse_trees (tree key t ts) depth p [] part c (q, rest, e, lt, one, more) room sound are laid
          ready =
        absurd laid
    parse_trees (tree key t ts) depth p ((k, q') ∷ cs) part c (q, rest, e, lt, one, more) room sound
          are (laid, laid_more) (ready, ready_more) =
        let same_q : q' ≡ q = cc in
        let same_rest : cs ≡ rest = cc in
        let is : IsTree c.store (some p) q' t = rw same_q one in
        let are_more : AreTrees c.store p cs ts = rw same_rest more in
        let (s, at) = child_there enc false c.store t q' (some p) is in
        let offset : s.offset ≡ offset_of t = offset_there c.store (some p) q' t s is at in
        let (text, d, run, moves, values, sound_d) =
          parse_tree t depth (some p) q' part (offset_of t) c is (rw same_q (omega arith)) sound are
            laid ready in
        let (e, run', moves', values', sound_e) =
          parse_trees ts depth p cs part d (AreTrees-Moves May c d p cs ts moves are_more)
            (omega (arith, moves.1)) sound_d (KidsAre-Moves c d moves are) laid_more
            (AllBelow-map kids (IsReady kids text_at env c) (IsReady kids text_at env d) cs ts
              (IsReady-Moves c d moves) ready_more) in
        (
          e,
          parse_childs_passes (parse env enc fmts depth) part k q' cs s text c d e at
              (rw offset run) run',
          Moves-trans May c d e moves moves',
          (
            AllLeaves-map kids (HasValue kids text_at d) (HasValue kids text_at e) q' t
                (HasValue-Moves d e moves') values,
            values',
          ),
          sound_e,
        )

-- The children of the symbols of a store.
abbrev pub kids_in : List Symbol → ℕ → References
kids_in store q = childs_at (symbol_at q store)

pub parse_leaves :
    (env : Env) (enc : Encoder) (fmts : Formats) (text_at : ℕ → Text) (t : Tree) (parent : Option ℕ)
    (r : ℕ) (bytes : List ℕ) (c : Conn)
    → IsTree c.store parent r t
    → IsSound c
    → IsLaid (kids_in c.store) fmts text_at r bytes 0 t
    → AllLeaves (kids_in c.store) (IsReady (kids_in c.store) text_at env c) r t
    → (text : Text) × (d : Conn) × (parse env enc fmts (suc (length c.store)) r bytes 0 c
        ≡ (ok text, d))
      × (length d.store ≡ length c.store)
      × AllLeaves (kids_in c.store) (HasValue (kids_in c.store) text_at d) r t
parse_leaves env enc fmts text_at t parent r bytes c is sound laid ready =
    let (text, d, run, moves, values, _) =
      parse_tree env enc fmts (kids_in c.store) text_at t (suc (length c.store)) parent r bytes 0 c
        is (omega arith) sound (λ q s at. rw at refl) laid ready in
    (text, d, run, moves.1, values)

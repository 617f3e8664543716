-- ===== src/SymbolTable/Json/Fields.antt =====
-- The fields of the JSON view of a symbol with children.
use go_adstc.Prelude.{ℕ, ◌≡◌, ◌≢◌, refl, sym, ◌∙◌, arith, Bool, not, ◌&&◌}
use go_adstc.Prelude.{List, [], ◌∷◌, Option, none, some, ◌⊎◌, inl, inr, if◌then◌else◌, Bool-cases}
use go_adstc.Go.Strconv.{text_eq}
use go_adstc.Go.Strconv.Laws.{text_eq_iff}
use go_adstc.Symbol.{Text, Symbol}
use go_adstc.Symbol.Store.{symbol_at}
use go_adstc.SymbolTable.{References}
use go_adstc.SymbolTable.Json.{Json, Members, no_members, member_of, Encoder, quote_brackets}
use go_adstc.SymbolTable.Json.{put_member, add_json, json_loop}

unfoldable pub field_in : Text → Members → Option Json
field_in k no_members = none
field_in k (member_of n j ms) = if text_eq n k then some j else field_in k ms

field_in-put_member : (k : Text) (j : Json) (ms : Members) → field_in k (put_member k j ms) ≡ some j
unfolding field_in put_member
field_in-put_member k j no_members = ground (arith, text_eq_iff k k)
field_in-put_member k j (member_of n i ms) =
    ground (arith, text_eq_iff k k, text_eq_iff n k, field_in-put_member k j ms)

field_in-put_member_other :
    (k n : Text) (j : Json) (ms : Members) → n ≢ k → field_in k (put_member n j ms) ≡ field_in k ms
unfolding field_in put_member
field_in-put_member_other k n j no_members h = ground (arith, text_eq_iff n k)
field_in-put_member_other k n j (member_of m i ms) h =
    grind (
      arith,
      text_eq_iff n k,
      text_eq_iff m k,
      text_eq_iff m n,
      field_in-put_member_other k n j ms h,
    )

-- No child has this name in the view.
abbrev pub Absent : List Symbol → Text → References → Type 0
Absent store k [] = Unit {0}
Absent store k ((key, q) ∷ more) =
    ((s : Symbol) → symbol_at q store ≡ some s → quote_brackets s.name ≢ k) × Absent store k more

abbrev pub HasChild : ℕ → References → Type 0
HasChild q [] = ⊥
HasChild q ((key, p) ∷ more) = (p ≡ q) ⊎ HasChild q more

-- The names of the children differ in the view.
abbrev pub Differ : List Symbol → References → Type 0
Differ store [] = Unit {0}
Differ store ((key, q) ∷ more) =
    ((s : Symbol) → symbol_at q store ≡ some s → Absent store (quote_brackets s.name) more)
    × Differ store more

Absent-HasChild :
    (store : List Symbol) (k : Text) (q : ℕ) (s : Symbol) (cs : References)
    → Absent store k cs
    → HasChild q cs
    → symbol_at q store ≡ some s
    → quote_brackets s.name ≢ k
Absent-HasChild store k q s [] a h at = absurd h
Absent-HasChild store k q s ((key, p) ∷ more) a (inl e) at = a.0 s (rw e at)
Absent-HasChild store k q s ((key, p) ∷ more) a (inr h) at =
    Absent-HasChild store k q s more a.1 h at

abbrev entered : Text → Members → Option Json → Option Members
entered k ms o = elim o [ none ↦ none | some j ↦ some (put_member k j ms) ]

some_same : {ms m : Members} → some ms ≡ some m → m ≡ ms
some_same e = cc

entered-field_in :
    (k : Text) (ms m : Members) (o : Option Json) → entered k ms o ≡ some m → field_in k m ≡ o
entered-field_in k ms m none e = cc
entered-field_in k ms m (some j) e = rw (some_same e) (field_in-put_member k j ms)

entered-field_in_other :
    (n k : Text) (ms m : Members) (o : Option Json)
    → entered n ms o ≡ some m
    → n ≢ k
    → field_in k m ≡ field_in k ms
entered-field_in_other n k ms m none e h = cc
entered-field_in_other n k ms m (some j) e h =
    rw (some_same e) (field_in-put_member_other k n j ms h)

module _ (enc : Encoder) (deeper : ℕ → Option Json) (only_changed : Bool) where
  -- What the view has for a child: nothing when it is left out.
  abbrev pub shown : Symbol → ℕ → Option Json
  shown s q = if only_changed && not s.changed then none else deeper q

  add_json-field_in :
      (s : Symbol) (q : ℕ) (ms m : Members)
      → add_json enc deeper only_changed (some s) q ms ≡ some m
      → field_in (quote_brackets s.name) ms ≡ none
      → field_in (quote_brackets s.name) m ≡ shown s q
  unfolding add_json
  add_json-field_in s q ms m e free = elim (Bool-cases (only_changed && not s.changed)) [
    | inl out ↦ rw out (rw (some_same (rw out at e)) free)
    | inr in_view ↦
        rw in_view (entered-field_in (quote_brackets s.name) ms m (deeper q) (rw in_view at e))
  ]

  add_json-field_in_other :
      (s : Symbol) (q : ℕ) (ms m : Members) (k : Text)
      → add_json enc deeper only_changed (some s) q ms ≡ some m
      → quote_brackets s.name ≢ k
      → field_in k m ≡ field_in k ms
  unfolding add_json
  add_json-field_in_other s q ms m k e differs = elim (Bool-cases (only_changed && not s.changed)) [
    | inl out ↦ rw (some_same (rw out at e)) refl
    | inr in_view ↦
        entered-field_in_other (quote_brackets s.name) k ms m (deeper q) (rw in_view at e) differs
  ]

  module _ (store : List Symbol) where
    abbrev looped : References → Option Members → Option Members
    looped more o = elim o [ none ↦ none | some m ↦ json_loop enc deeper only_changed store more m ]

    -- A round of the loop that comes to an end.
    json_loop_step :
        (q : ℕ) (more : References) (ms all : Members) (o : Option Symbol)
        → looped more (add_json enc deeper only_changed o q ms) ≡ some all
        → (s : Symbol) × (m : Members) × (o ≡ some s)
          × (add_json enc deeper only_changed (some s) q ms ≡ some m)
          × (json_loop enc deeper only_changed store more m ≡ some all)
    unfolding add_json
    json_loop_step q more ms all none e = cc
    json_loop_step q more ms all (some s) e =
        let (m, f, g) = reached (add_json enc deeper only_changed (some s) q ms) e in
        (s, m, refl, f, g)
      where
        reached :
            (r : Option Members)
            → looped more r ≡ some all
            → (m : Members) × (r ≡ some m)
              × (json_loop enc deeper only_changed store more m ≡ some all)
        reached none f = cc
        reached (some m) f = (m, refl, f)

    json_loop-Absent :
        (cs : References) (ms all : Members) (k : Text)
        → json_loop enc deeper only_changed store cs ms ≡ some all
        → Absent store k cs
        → field_in k all ≡ field_in k ms
    unfolding json_loop
    json_loop-Absent [] ms all k e a = rw (some_same e) refl
    json_loop-Absent ((key, q) ∷ more) ms all k e a =
        let (s, m, at, f, g) = json_loop_step q more ms all (symbol_at q store) e in
        json_loop-Absent more m all k g a.1 ∙ add_json-field_in_other s q ms m k f (a.0 s at)

    pub json_loop-shown :
        (cs : References) (ms all : Members) (q : ℕ) (s : Symbol)
        → json_loop enc deeper only_changed store cs ms ≡ some all
        → Differ store cs
        → HasChild q cs
        → symbol_at q store ≡ some s
        → field_in (quote_brackets s.name) ms ≡ none
        → field_in (quote_brackets s.name) all ≡ shown s q
    unfolding json_loop
    json_loop-shown [] ms all q s e d h at free = absurd h
    json_loop-shown ((key, p) ∷ more) ms all q s e d h at free =
        let (t, m, t_at, f, g) = json_loop_step p more ms all (symbol_at p store) e in
        elim h [
          | inl same ↦
              let one : t ≡ s = cc in
              let free_t : field_in (quote_brackets t.name) ms ≡ none = rw one free in
              let there : field_in (quote_brackets t.name) all ≡ shown t p =
                json_loop-Absent more m all (quote_brackets t.name) g (d.0 t t_at)
                ∙ add_json-field_in t p ms m f free_t in
              rw (one, same) at there
          | inr later ↦ json_loop-shown more m all q s g d.1 later at (
              add_json-field_in_other t p ms m (quote_brackets s.name) f (λ n.
                Absent-HasChild store (quote_brackets t.name) q s more (d.0 t t_at) later at
                  (sym n))
              ∙ free)
        ]

-- ===== src/Symbol/Arrays.antt =====
-- makeArrayChilds of symbols.go: the elements of an array as children.
use go_adstc.Prelude.{
  ℕ, zero, suc, ◌+◌, ◌-◌, ◌*◌, ◌/◌, ◌%◌, ◌^◌, ◌≤◌, ◌<◌, ◌≡◌, refl, ap, ◌∙◌, arith,
}
use go_adstc.Prelude.{List, [], ◌∷◌, ◌++◌, Option, none, some}
use mathlib.Core.Path.{ap₂}
use native.Mathlib.Nat.{le_trans, mod-eq_of_lt, div-add-mod}
use go_adstc.Go.Strconv.{format_uint}
use go_adstc.Symbol.{Text, DatatypeEntry, UploadType, UploadChilds, upload_type, no_childs, child}

-- datatypeArrayInfo
pub record ArrayInfo : Type 0 where
  pub l_bound : ℕ
  pub elements : ℕ

abbrev pub zero_entry : DatatypeEntry
zero_entry = record {
  entry_length = 0;
  version = 0;
  hash_value = 0;
  type_hash_value = 0;
  size = 0;
  offs = 0;
  data_type = 0;
  flags = 0;
  name_length = 0;
  type_length = 0;
  comment_length = 0;
  array_dim = 0;
  sub_items = 0;
}

-- fmt.Sprint("[", i, "]")
abbrev pub bracketed : ℕ → Text
bracketed i = b'[' ∷ (format_uint i ++ (b']' ∷ []))

abbrev pub element : Text → ℕ → UploadChilds → ℕ → ℕ → UploadType
element dt step sub i offset =
    upload_type (record zero_entry { offs = offset; size = step }) (bracketed i) dt [] sub

-- The loop, with the rounds that are left. The keys are all different, so each is a new entry.
unfoldable pub array_loop : ℕ → Text → ℕ → UploadChilds → ℕ → ℕ → UploadChilds
array_loop zero dt step sub i offset = no_childs
array_loop (suc left) dt step sub i offset =
    child (bracketed i) (element dt step sub i offset)
      (array_loop left dt step sub (i + 1) ((offset + step) % 2 ^ 32))

-- `for i := LBound; i < LBound+Elements; i++` in uint32: the sum wraps.
abbrev pub rounds : ArrayInfo → ℕ
rounds level = (level.l_bound + level.elements) % 2 ^ 32 - level.l_bound

unfoldable pub make_array_childs : List ArrayInfo → Text → ℕ → UploadChilds
make_array_childs [] dt size = no_childs
make_array_childs (level ∷ more) dt size =
    array_loop (rounds level) dt (size / level.elements) (make_array_childs more dt size)
      level.l_bound 0

abbrev pub nth_child : ℕ → UploadChilds → Option (Text × UploadType)
nth_child k no_childs = none
nth_child zero (child n t cs) = some (n, t)
nth_child (suc k) (child n t cs) = nth_child k cs

abbrev pub count_childs : UploadChilds → ℕ
count_childs no_childs = 0
count_childs (child n t cs) = suc (count_childs cs)

array_loop-count :
    (left : ℕ) (dt : Text) (step : ℕ) (sub : UploadChilds) (i offset : ℕ)
    → count_childs (array_loop left dt step sub i offset) ≡ left
unfolding array_loop
array_loop-count zero dt step sub i offset = refl
array_loop-count (suc left) dt step sub i offset =
    ap suc (array_loop-count left dt step sub (i + 1) ((offset + step) % 2 ^ 32))

array_loop-nth :
    (k left : ℕ) (dt : Text) (step : ℕ) (sub : UploadChilds) (i offset : ℕ)
    → k < left
    → offset + left * step < 2 ^ 32
    → nth_child k (array_loop left dt step sub i offset)
      ≡ some (bracketed (i + k), element dt step sub (i + k) (offset + k * step))
unfolding array_loop
array_loop-nth k zero dt step sub i offset h fits = absurd (omega arith)
array_loop-nth zero (suc left) dt step sub i offset h fits =
    let e : i + 0 ≡ i = omega arith in let o : offset + 0 * step ≡ offset = omega arith in rw (e, o)
array_loop-nth (suc k) (suc left) dt step sub i offset h fits =
    let o : (offset + step) % 2 ^ 32 ≡ offset + step = mod-eq_of_lt (grind arith) in
    rw o (
      array_loop-nth k left dt step sub (i + 1) (offset + step) (omega arith) (grind arith)
      ∙ ap₂ (λ (j o : ℕ). some (bracketed j, element dt step sub j o)) (omega arith) (omega arith))

suc_mul : (k n step : ℕ) → k < n → k * step + step ≤ n * step
suc_mul k n step h = grind arith

-- An array whose bounds do not pass 2^32 has as many children as elements; the k-th bears the index
-- lower bound + k, has the size of the array divided by the number of elements, stands at k such
-- sizes, and ends within the array.
pub make_array_childs-nth :
    (level : ArrayInfo) (more : List ArrayInfo) (dt : Text) (size k : ℕ)
    → level.l_bound + level.elements < 2 ^ 32
    → size < 2 ^ 32
    → k < level.elements
    → (count_childs (make_array_childs (level ∷ more) dt size) ≡ level.elements)
      × (nth_child k (make_array_childs (level ∷ more) dt size)
          ≡ some (
            bracketed (level.l_bound + k),
            element dt
                (size / level.elements)
                (make_array_childs more dt size)
                (level.l_bound + k)
                (k * (size / level.elements)),
          ))
      × (k * (size / level.elements) + size / level.elements ≤ size)
make_array_childs-nth level more dt size k room fits h =
    let step : ℕ = size / level.elements in
    let sub : UploadChilds = make_array_childs more dt size in
    let whole : rounds level ≡ level.elements = omega arith in
    let total : level.elements * step ≤ size = omega (arith, div-add-mod size level.elements) in
    (
      unfold make_array_childs in
          array_loop-count (rounds level) dt step sub level.l_bound 0 ∙ whole,
      unfold make_array_childs in
          ap (λ (n : ℕ). nth_child k (array_loop n dt step sub level.l_bound 0)) whole
          ∙ array_loop-nth k level.elements dt step sub level.l_bound 0 h (omega arith)
          ∙ ap
              (λ (o : ℕ).
                some (bracketed (level.l_bound + k), element dt step sub (level.l_bound + k) o))
              (omega arith),
      le_trans (suc_mul k level.elements step h) total,
    )

-- An array whose lower bound and number of elements add up to 2^32 or more, as for a negative lower
-- bound whose range reaches 0, gets no children.
pub make_array_childs_wrap :
    (level : ArrayInfo) (more : List ArrayInfo) (dt : Text) (size : ℕ)
    → level.l_bound < 2 ^ 32
    → level.elements < 2 ^ 32
    → 2 ^ 32 ≤ level.l_bound + level.elements
    → make_array_childs (level ∷ more) dt size ≡ no_childs
unfolding make_array_childs
make_array_childs_wrap level more dt size hl he wraps =
    let none_left : rounds level ≡ 0 = omega arith in rw none_left (unfold array_loop in refl)

-- ===== src/Value/Update/Windows.antt =====
-- The part of the data that belongs to a symbol, and what parse makes of it.
use go_adstc.Prelude.{Option, sym, ℕ, ◌+◌, ◌≤◌, ◌≡◌, refl, ap, ◌∙◌, arith, le→ltb, List}
use go_adstc.Prelude.{length, take, drop, length-take, length-drop, take_all, none, some}
use go_adstc.Go.Result.{Result, ok, ◌>>=◌}
use go_adstc.Symbol.{Text}
use go_adstc.Value.{
  Kind, string, Formats, kind_of, parse_leaf, parse_known, parse_kind, sliced, stop_of,
}
use go_adstc.Value.Update.{slice}

-- data[start : start + size]
abbrev pub window : ℕ → ℕ → List ℕ → List ℕ
window size start bytes = take size (drop start bytes)

pub length-window :
    (size start : ℕ) (bytes : List ℕ)
    → start + size ≤ length bytes
    → length (window size start bytes) ≡ size
length-window size start bytes room =
    omega (arith, length-take size (drop start bytes), length-drop start bytes)

stop_within :
    (size start : ℕ) (bytes : List ℕ)
    → start + size ≤ length bytes
    → stop_of size start bytes ≡ start + size
stop_within size start bytes room = rw (le→ltb (length bytes) (start + size) room)

pub slice-window :
    (size start : ℕ) (bytes : List ℕ)
    → start + size ≤ length bytes
    → slice start (stop_of size start bytes) bytes ≡ ok (window size start bytes)
unfolding slice
slice-window size start bytes room = rw (stop_within size start bytes room) (
    rw (le→ltb (start + size) start (omega arith))
      (ap (λ (n : ℕ). ok (take n (drop start bytes))) (omega arith)))

sliced-window :
    (k : Kind) (size start : ℕ) (bytes : List ℕ) (f : List ℕ → Result Text)
    → sliced k start (start + size) bytes f ≡ f (window size start bytes)
sliced-window string size start bytes f =
    rw (le→ltb (start + size) start (omega arith))
      (ap (λ (n : ℕ). f (take n (drop start bytes))) (omega arith))
sliced-window k size start bytes f = ap (λ (n : ℕ). f (take n (drop start bytes))) (omega arith)

parse_known-window :
    (fmts : Formats) (o : Option Kind) (size start : ℕ) (bytes : List ℕ)
    → start + size ≤ length bytes
    → parse_known fmts o size bytes start ≡ parse_known fmts o size (window size start bytes) 0
unfolding parse_known
parse_known-window fmts none size start bytes room = refl
parse_known-window fmts (some k) size start bytes room =
    let w : List ℕ = window size start bytes in
    let long : length w ≡ size = length-window size start bytes room in
    let short : window size 0 w ≡ w = take_all size w (omega (arith, long)) in
    rw (stop_within size start bytes room) (
      rw (stop_within size 0 w (omega (arith, long))) (
        ap (λ (r : Result Text). r >>= λ v. ok (some v))
          (sliced-window k size start bytes (parse_kind fmts k)
            ∙ ap (parse_kind fmts k) (sym short)
            ∙ sym (sliced-window k size 0 w (parse_kind fmts k)))))

-- What parse makes of a symbol that lies within the data depends on its window only.
pub parse_leaf-window :
    (fmts : Formats) (data_type : Text) (size start : ℕ) (bytes : List ℕ)
    → start + size ≤ length bytes
    → parse_leaf fmts data_type size bytes start
      ≡ parse_leaf fmts data_type size (window size start bytes) 0
unfolding parse_leaf
parse_leaf-window fmts data_type size start bytes room =
    let w : List ℕ = window size start bytes in
    let long : length w ≡ size = length-window size start bytes room in
    rw (le→ltb (length bytes) size (omega arith)) (
      rw (le→ltb (length w) size (omega (arith, long)))
        (parse_known-window fmts (kind_of data_type) size start bytes room))

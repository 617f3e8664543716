-- ===== src/Value/RoundTrip.antt =====
-- What `writeToNode` writes is what `parse` reads.
use go_adstc.Prelude.{ℕ, ◌-◌, ◌*◌, ◌^◌, ◌<◌, ◌≡◌, refl, ap, ◌∙◌, sym, arith}
use go_adstc.Prelude.{Bool, true, false, List, [], ◌∷◌, length, Option, none, some}
use go_adstc.Prelude.{if◌then◌else◌}
use go_adstc.Go.Result.{Error, Result, ok, err, panic, ◌>>=◌}
use go_adstc.Go.Bytes.{codes, to_le, of_le, of_le-to_le, length-to_le}
use go_adstc.Go.Int.{ℤ, signed, unsigned, InRange, signed-unsigned, unsigned-lt}
use go_adstc.Go.Strconv.{text_eq, includes, truths, parse_uint, parse_int, parse_bool}
use go_adstc.Go.Strconv.{checked, format_uint, format_int}
use go_adstc.Go.Strconv.Laws.{parse_uint_lt, parse_int-InRange, parse_uint-format_uint}
use go_adstc.Go.Strconv.Laws.{parse_int-format_int}
use go_adstc.Symbol.{Text}
use go_adstc.Value.{Kind, bool, byte, sint, uint, udint, int, dint, real, lreal, string, time, tod}
use go_adstc.Value.{date, dt, Formats, sized, parse_kind}
use go_adstc.Value.{write_kind}

-- The kinds whose values are truth values or integers.
abbrev pub IsExact : Kind → Type 0
IsExact bool = Unit
IsExact byte = Unit
IsExact sint = Unit
IsExact uint = Unit
IsExact udint = Unit
IsExact int = Unit
IsExact dint = Unit
IsExact _ = ⊥

-- The bytes of a value.
abbrev pub width : Kind → ℕ
width bool = 1
width byte = 1
width sint = 1
width uint = 2
width udint = 4
width int = 2
width dint = 4
width real = 4
width lreal = 8
width string = 0
width _ = 4

abbrev number_text : Result ℤ → Text
number_text (ok z) = format_int z
number_text (err e) = []
number_text panic = []

-- The text that stands for an accepted text: `True` or `False`, or the number in decimal.
abbrev pub canonical : Kind → Text → Text
canonical bool v = if includes truths v then codes "True" else codes "False"
canonical byte v = format_uint (parse_uint 8 v).0
canonical uint v = format_uint (parse_uint 16 v).0
canonical udint v = format_uint (parse_uint 32 v).0
canonical sint v = number_text (parse_int 8 v)
canonical int v = number_text (parse_int 16 v)
canonical dint v = number_text (parse_int 32 v)
canonical _ v = v

sized_lem : (w n : ℕ) (t : Text) → sized w (to_le w n) t ≡ ok t
sized_lem w n t = ground (arith, length-to_le w n)

-- What an unsigned write that succeeds has read and written.
unsigned_write :
    (w : ℕ) (r : ℕ × Option Error) (bytes : List ℕ)
    → (checked r >>= λ (v : ℕ). ok (to_le w v)) ≡ ok bytes
    → (r ≡ (r.0, none)) × (bytes ≡ to_le w r.0)
unsigned_write w (v, none) bytes e = (refl, cc)
unsigned_write w (v, some x) bytes e = cc

-- What a signed write that succeeds has read and written.
signed_write :
    (w half : ℕ) (r : Result ℤ) (bytes : List ℕ)
    → (r >>= λ (v : ℤ). ok (to_le w (unsigned half v))) ≡ ok bytes
    → (z : ℤ) × (r ≡ ok z) × (bytes ≡ to_le w (unsigned half z))
signed_write w half (ok z) bytes e = (z, refl, cc)
signed_write w half (err x) bytes e = cc
signed_write w half panic bytes e = cc

-- Bytes written of a value, their length, and the text that a reading `show` makes of them.
abbrev ReadsBack : ℕ → List ℕ → (ℕ → Text) → Text → Type 0
ReadsBack w bytes show t = (length bytes ≡ w) × (sized w bytes (show (of_le bytes)) ≡ ok t)

reads_back :
    (w n : ℕ) (bytes : List ℕ) (show : ℕ → Text) (t : Text)
    → bytes ≡ to_le w n
    → n < 256 ^ w
    → show n ≡ t
    → ReadsBack w bytes show t
reads_back w n bytes show t e h s =
    rw e (length-to_le w n, rw (of_le-to_le w n h, s) (sized_lem w n t))

unsigned_back :
    (w bits : ℕ) (v : Text) (bytes : List ℕ)
    → 256 ^ w ≡ 2 ^ bits
    → 0 < 2 ^ bits
    → 2 ^ bits < 10 ^ 20
    → (checked (parse_uint bits v) >>= λ (n : ℕ). ok (to_le w n)) ≡ ok bytes
    → ReadsBack w bytes format_uint (format_uint (parse_uint bits v).0)
      × ((checked (parse_uint bits (format_uint (parse_uint bits v).0)) >>= λ (n : ℕ).
            ok (to_le w n))
          ≡ ok bytes)
unsigned_back w bits v bytes same pos20 lt20 e =
    let (p, d) = unsigned_write w (parse_uint bits v) bytes e in
    let n : ℕ = (parse_uint bits v).0 in
    let small : n < 2 ^ bits = parse_uint_lt bits v n pos20 p in
    (
      reads_back w n bytes format_uint (format_uint n) d (omega arith) refl,
      rw (parse_uint-format_uint bits n small (omega arith)) (ap ok (sym d)),
    )

signed_back :
    (w bits : ℕ) (v : Text) (bytes : List ℕ)
    → 256 ^ w ≡ 2 * 2 ^ (bits - 1)
    → 0 < 2 ^ (bits - 1)
    → 2 ^ (bits - 1) < 2 ^ bits
    → 2 ^ bits < 10 ^ 20
    → (parse_int bits v >>= λ (z : ℤ). ok (to_le w (unsigned (2 ^ (bits - 1)) z))) ≡ ok bytes
    → ReadsBack w bytes
        (λ n. format_int (signed (2 ^ (bits - 1)) n))
        (number_text (parse_int bits v))
      × ((parse_int bits (number_text (parse_int bits v)) >>= λ (z : ℤ).
            ok (to_le w (unsigned (2 ^ (bits - 1)) z)))
          ≡ ok bytes)
signed_back w bits v bytes same some_half wide lt20 e =
    let half : ℕ = 2 ^ (bits - 1) in
    let (z, p, d) = signed_write w half (parse_int bits v) bytes e in
    let range : InRange half z = parse_int-InRange bits v z some_half p in
    (
      reads_back w (unsigned half z) bytes (λ n. format_int (signed half n))
          (number_text (parse_int bits v)) d (rw same (unsigned-lt half z some_half))
          (ap format_int (signed-unsigned half z range) ∙ ap number_text (sym p)),
      rw (p, parse_int-format_int bits z range wide lt20) (ap ok (sym d)),
    )

parse_bool_canonical :
    (parse_bool (codes "True") ≡ ok true) × (parse_bool (codes "False") ≡ ok false)
unfolding parse_bool includes text_eq
parse_bool_canonical = (refl, refl)

-- What an accepted truth value is written as, and read as.
parse_bool-ok : (v : Text) (b : Bool) → parse_bool v ≡ ok b → includes truths v ≡ b
unfolding parse_bool
parse_bool-ok v b e = ground arith

write_bool :
    (fmts : Formats) (size : ℕ) (v : Text) (b : Bool)
    → parse_bool v ≡ ok b
    → write_kind fmts bool size v ≡ ok (if b then 1 ∷ [] else 0 ∷ [])
unfolding write_kind
write_bool fmts size v b e = rw e

write_bool-ok :
    (r : Result Bool) (bytes : List ℕ)
    → (r >>= λ (v : Bool). ok (if v then 1 ∷ [] else 0 ∷ [])) ≡ ok bytes
    → (b : Bool) × (r ≡ ok b) × (bytes ≡ (if b then 1 ∷ [] else 0 ∷ []))
write_bool-ok (ok b) bytes e = (b, refl, cc)
write_bool-ok (err x) bytes e = cc
write_bool-ok panic bytes e = cc

read_bool :
    (fmts : Formats) (size : ℕ) (b : Bool)
    → (length {A = ℕ} (if b then 1 ∷ [] else 0 ∷ []) ≡ 1)
      × (parse_kind fmts bool (if b then 1 ∷ [] else 0 ∷ [])
          ≡ ok (if b then codes "True" else codes "False"))
      × (parse_bool (if b then codes "True" else codes "False") ≡ ok b)
unfolding parse_kind of_le
read_bool fmts size true = (refl, refl, parse_bool_canonical.0)
read_bool fmts size false = (refl, refl, parse_bool_canonical.1)

bool_back :
    (fmts : Formats) (size : ℕ) (v : Text) (bytes : List ℕ)
    → write_kind fmts bool size v ≡ ok bytes
    → (length bytes ≡ 1)
      × (parse_kind fmts bool bytes ≡ ok (canonical bool v))
      × (write_kind fmts bool size (canonical bool v) ≡ ok bytes)
bool_back fmts size v bytes e =
    let (b, p, d) = write_bool-ok (parse_bool v) bytes (unfold write_kind in e) in
    let (l, r, again) = read_bool fmts size b in
    rw (d, parse_bool-ok v b p)
      (l, r, write_bool fmts size (if b then codes "True" else codes "False") b again)

-- A text that writeToNode accepts for a BOOL or integer type is written in as many bytes as the
-- type has; parse reads them as the canonical text of the same value, and writing that text gives
-- the same bytes.
pub parse-write :
    (fmts : Formats) (k : Kind) (size : ℕ) (v : Text) (bytes : List ℕ)
    → IsExact k
    → write_kind fmts k size v ≡ ok bytes
    → (length bytes ≡ width k)
      × (parse_kind fmts k bytes ≡ ok (canonical k v))
      × (write_kind fmts k size (canonical k v) ≡ ok bytes)
unfolding write_kind parse_kind format_int
parse-write fmts bool size v bytes h e = bool_back fmts size v bytes e
parse-write fmts byte size v bytes h e =
    let (r, w) = unsigned_back 1 8 v bytes refl (omega arith) (omega arith) e in (r.0, r.1, w)
parse-write fmts uint size v bytes h e =
    let (r, w) = unsigned_back 2 16 v bytes refl (omega arith) (omega arith) e in (r.0, r.1, w)
parse-write fmts udint size v bytes h e =
    let (r, w) = unsigned_back 4 32 v bytes refl (omega arith) (omega arith) e in (r.0, r.1, w)
parse-write fmts sint size v bytes h e =
    let (r, w) = signed_back 1 8 v bytes refl (omega arith) (omega arith) (omega arith) e in
    (r.0, r.1, w)
parse-write fmts int size v bytes h e =
    let (r, w) = signed_back 2 16 v bytes refl (omega arith) (omega arith) (omega arith) e in
    (r.0, r.1, w)
parse-write fmts dint size v bytes h e =
    let (r, w) = signed_back 4 32 v bytes refl (omega arith) (omega arith) (omega arith) e in
    (r.0, r.1, w)
parse-write fmts real size v bytes h e = elim h [ ]
parse-write fmts lreal size v bytes h e = elim h [ ]
parse-write fmts string size v bytes h e = elim h [ ]
parse-write fmts time size v bytes h e = elim h [ ]
parse-write fmts tod size v bytes h e = elim h [ ]
parse-write fmts date size v bytes h e = elim h [ ]
parse-write fmts dt size v bytes h e = elim h [ ]

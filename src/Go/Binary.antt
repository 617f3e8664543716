-- ===== src/Go/Binary.antt =====
-- encoding/binary on structs of fixed size. A struct is laid out as its fields' widths in bytes;
-- an array `[n]byte` is n fields of width 1.
use go_adstc.Prelude.{ℕ, zero, suc, ◌+◌, ◌-◌, ◌^◌, ◌≤◌, ◌<◌, ◌≡◌, refl, ap, ◌∙◌, arith}
use go_adstc.Prelude.{List, [], ◌∷◌, ◌++◌, length, take, drop, append_assoc, replicate, append-nil}
use go_adstc.Prelude.{length-append, length-drop, take-append_exact, drop-append_exact}
use go_adstc.Prelude.{false, ltb, ◌==◌, if◌then◌else◌}
use go_adstc.Go.Result.{eof, unexpected_eof, Result, ok, err, panic, ◌>>=◌}
use go_adstc.Go.Bytes.{to_le, of_le, length-to_le, of_le-to_le}

-- The widths of a struct's fields.
abbrev pub Layout : Type 0
Layout = List ℕ

abbrev pub size : Layout → ℕ
size [] = 0
size (w ∷ ws) = w + size ws

-- binary.Write of a struct, its fields given as numbers.
unfoldable pub pack : Layout → List ℕ → List ℕ
pack [] vs = []
pack (w ∷ ws) [] = to_le w 0 ++ pack ws []
pack (w ∷ ws) (v ∷ vs) = to_le w v ++ pack ws vs

-- The fields of a struct, from bytes enough.
unfoldable pub unpack : Layout → List ℕ → List ℕ
unpack [] bs = []
unpack (w ∷ ws) bs = of_le (take w bs) ∷ unpack ws (drop w bs)

-- io.ReadFull of `n` bytes from a buffer: what is read, with the rest of the buffer. A short buffer
-- is used up.
unfoldable pub read_full : ℕ → List ℕ → Result (List ℕ) × List ℕ
read_full n buf =
    if ltb (length buf) n
    then (if length buf == 0 then err eof else err unexpected_eof, [])
    else (ok (take n buf), drop n buf)

-- Each value fits its field.
abbrev pub Fits : Layout → List ℕ → Type 0
Fits [] [] = Unit
Fits [] (v ∷ vs) = ⊥
Fits (w ∷ ws) [] = ⊥
Fits (w ∷ ws) (v ∷ vs) = (v < 256 ^ w) × Fits ws vs

pub length-pack : (ws : Layout) (vs : List ℕ) → length (pack ws vs) ≡ size ws
unfolding pack
length-pack [] vs = refl
length-pack (w ∷ ws) [] =
    omega (arith, length-append (to_le w 0) (pack ws []), length-to_le w 0, length-pack ws [])
length-pack (w ∷ ws) (v ∷ vs) =
    omega (arith, length-append (to_le w v) (pack ws vs), length-to_le w v, length-pack ws vs)

take-to_le : (w v : ℕ) (rest : List ℕ) → take w (to_le w v ++ rest) ≡ to_le w v
take-to_le w v rest =
    ap (λ (n : ℕ). take n (to_le w v ++ rest)) (omega (arith, length-to_le w v))
    ∙ take-append_exact (to_le w v) rest

drop-to_le : (w v : ℕ) (rest : List ℕ) → drop w (to_le w v ++ rest) ≡ rest
drop-to_le w v rest =
    ap (λ (n : ℕ). drop n (to_le w v ++ rest)) (omega (arith, length-to_le w v))
    ∙ drop-append_exact (to_le w v) rest

-- What is read of the bytes that were written is what was written, whatever follows.
pub unpack-pack :
    (ws : Layout) (vs rest : List ℕ) → Fits ws vs → unpack ws (pack ws vs ++ rest) ≡ vs
unfolding pack unpack
unpack-pack [] [] rest h = refl
unpack-pack [] (v ∷ vs) rest h = elim h [ ]
unpack-pack (w ∷ ws) [] rest h = elim h [ ]
unpack-pack (w ∷ ws) (v ∷ vs) rest h =
    rw (append_assoc, take-to_le, drop-to_le, of_le-to_le w v h.0, unpack-pack ws vs rest h.1)

-- A read of exactly what stands in front.
pub read_full-append : (bs rest : List ℕ) → read_full (length bs) (bs ++ rest) ≡ (ok bs, rest)
unfolding read_full
read_full-append bs rest = rw (long, take-append_exact, drop-append_exact)
  where
    long : ltb (length (bs ++ rest)) (length bs) ≡ false
    long = ground (arith, length-append bs rest)

pub read_full-pack :
    (ws : Layout) (vs rest : List ℕ)
    → read_full (size ws) (pack ws vs ++ rest) ≡ (ok (pack ws vs), rest)
read_full-pack ws vs rest =
    ap (λ (n : ℕ). read_full n (pack ws vs ++ rest)) (omega (arith, length-pack ws vs))
    ∙ read_full-append (pack ws vs) rest

-- binary.Read of a struct: its value, made of the fields, and the rest of the buffer.
unfoldable pub read_struct {ℓ} : {A : Type ℓ} → Layout → (List ℕ → A) → List ℕ → Result A × List ℕ
unfolding read_full
read_struct ws make buf =
    let (r, rest) = read_full (size ws) buf in (r >>= λ bs. ok (make (unpack ws bs)), rest)

-- What a variable holds after a binary.Read whose error is not looked at.
unfoldable pub read_over {ℓ} : {A : Type ℓ} → Layout → (List ℕ → A) → A → List ℕ → A × List ℕ
unfolding read_struct
read_over ws make old buf =
    let (r, rest) = read_struct ws make buf in
    (elim r [ ok a ↦ a | err _ ↦ old | panic ↦ old ], rest)

-- A slice made with `n` zeros and then read into: a short read leaves the zeros at its end.
unfoldable pub read_padded : ℕ → List ℕ → List ℕ × List ℕ
read_padded n buf = (take n buf ++ replicate (n - length buf) 0, drop n buf)

-- The `i`th field of a struct that was read.
abbrev pub field : List ℕ → ℕ → ℕ
field [] i = 0
field (v ∷ vs) zero = v
field (v ∷ vs) (suc i) = field vs i

unpack-pack_exact : (ws : Layout) (vs : List ℕ) → Fits ws vs → unpack ws (pack ws vs) ≡ vs
unpack-pack_exact ws vs h = rw append-nil at (unpack-pack ws vs [] h)

-- A struct that was written is read back, whatever follows it.
pub read_struct-pack {ℓ} :
    {A : Type ℓ} (ws : Layout) (make : List ℕ → A) (vs rest : List ℕ)
    → Fits ws vs
    → read_struct ws make (pack ws vs ++ rest) ≡ (ok (make vs), rest)
unfolding read_struct
read_struct-pack ws make vs rest h = rw (read_full-pack, unpack-pack_exact ws vs h)

pub read_over-pack {ℓ} :
    {A : Type ℓ} (ws : Layout) (make : List ℕ → A) (old : A) (vs rest : List ℕ)
    → Fits ws vs
    → read_over ws make old (pack ws vs ++ rest) ≡ (make vs, rest)
unfolding read_over
read_over-pack ws make old vs rest h = rw (read_full-pack, unpack-pack_exact ws vs h)

pub read_padded-append : (bs rest : List ℕ) → read_padded (length bs) (bs ++ rest) ≡ (bs, rest)
unfolding read_padded
read_padded-append bs rest = rw (take-append_exact, drop-append_exact, none_missing, append-nil)
  where
    none_missing : length bs - length (bs ++ rest) ≡ 0
    none_missing = omega (arith, length-append bs rest)

-- A short buffer: the read fails, uses it up, and the variable keeps its value.
pub read_over_short {ℓ} :
    {A : Type ℓ} (ws : Layout) (make : List ℕ → A) (old : A) (buf : List ℕ)
    → length buf < size ws
    → read_over ws make old buf ≡ (old, [])
unfolding read_over read_struct read_full
read_over_short ws make old buf h = ground arith

-- A read that succeeds takes its size from the buffer.
pub read_struct_takes {ℓ} :
    {A : Type ℓ} (ws : Layout) (make : List ℕ → A) (buf rest : List ℕ) (a : A)
    → read_struct ws make buf ≡ (ok a, rest)
    → length rest + size ws ≡ length buf
unfolding read_struct read_full
read_struct_takes ws make buf rest a e = ground (arith, length-drop (size ws) buf)

-- What is left after any read is no longer.
pub read_over_le {ℓ} :
    {A : Type ℓ} (ws : Layout) (make : List ℕ → A) (old : A) (buf : List ℕ)
    → length (read_over ws make old buf).1 ≤ length buf
unfolding read_over read_struct read_full
read_over_le ws make old buf = ground (arith, length-drop (size ws) buf)

pub read_struct_le {ℓ} :
    {A : Type ℓ} (ws : Layout) (make : List ℕ → A) (buf : List ℕ)
    → length (read_struct ws make buf).1 ≤ length buf
unfolding read_struct read_full
read_struct_le ws make buf = ground (arith, length-drop (size ws) buf)

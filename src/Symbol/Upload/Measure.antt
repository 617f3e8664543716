-- ===== src/Symbol/Upload/Measure.antt =====
-- What the parse of a data type takes from its buffer: bytes, and bytes that are not zero.
use go_adstc.Prelude.{ℕ, zero, suc, ◌+◌, ◌-◌, ◌≤◌, ◌<◌, ◌≡◌, inl, inr, refl, ap, arith}
use go_adstc.Prelude.{List, [], ◌∷◌, ◌++◌, length, take, drop, replicate}
use go_adstc.Prelude.{ltb, if◌then◌else◌, Bool-cases, le→ltb}
use go_adstc.Prelude.{length-drop}
use go_adstc.Go.Bytes.{of_le}
use go_adstc.Go.Binary.{unpack, read_over, read_struct, read_full, read_padded, read_over_short}
use go_adstc.Symbol.{DatatypeEntry}
use go_adstc.Symbol.Arrays.{zero_entry}
use go_adstc.Symbol.Upload.{entry_layout, entry_of, read_text, read_terminated}
use go_adstc.Symbol.Upload.{Head, head_after, read_head, child_length}

-- The bytes that are not zero.
abbrev pub nonzero : List ℕ → ℕ
nonzero [] = 0
nonzero (b ∷ bs) = if ltb 0 b then suc (nonzero bs) else nonzero bs

nonzero-append : (s t : List ℕ) → nonzero (s ++ t) ≡ nonzero s + nonzero t
nonzero-append [] t = omega arith
nonzero-append (b ∷ s) t = ground (arith, nonzero-append s t)

nonzero-replicate : (n : ℕ) → nonzero (replicate n 0) ≡ 0
nonzero-replicate zero = refl
nonzero-replicate (suc n) = nonzero-replicate n

nonzero-take-drop : (n : ℕ) (s : List ℕ) → nonzero (take n s) + nonzero (drop n s) ≡ nonzero s
nonzero-take-drop zero s = omega arith
nonzero-take-drop (suc n) [] = omega arith
nonzero-take-drop (suc n) (b ∷ s) = ground (arith, nonzero-take-drop n s)

pub nonzero-le-length : (s : List ℕ) → nonzero s ≤ length s
nonzero-le-length [] = omega arith
nonzero-le-length (b ∷ s) = ground (arith, nonzero-le-length s)

nonzero-of_le : (s : List ℕ) → 0 < of_le s → 0 < nonzero s
unfolding of_le
nonzero-of_le [] h = h
nonzero-of_le (b ∷ s) h = ground (arith, nonzero-of_le s)

-- The rest of a read has no more bytes, and no more that are not zero.
abbrev pub Shrinks : List ℕ → List ℕ → Type 0
Shrinks rest buf = (nonzero rest ≤ nonzero buf) × (length rest ≤ length buf)

drop-Shrinks : (n : ℕ) (s : List ℕ) → Shrinks (drop n s) s
drop-Shrinks n s = omega (arith, nonzero-take-drop n s, length-drop n s)

pub Shrinks-trans : (a b c : List ℕ) → Shrinks a b → Shrinks b c → Shrinks a c
Shrinks-trans a b c h k = (omega arith, omega arith)

read_terminated-Shrinks : (n : ℕ) (buf : List ℕ) → Shrinks (read_terminated n buf).1 buf
unfolding read_terminated read_text
read_terminated-Shrinks n buf = elim (Bool-cases (ltb (length buf) n)) [
  | inl short ↦ rw short (omega arith)
  | inr long ↦ rw long (
      Shrinks-trans (drop 1 (drop n buf)) (drop n buf) buf (drop-Shrinks 1 (drop n buf))
        (drop-Shrinks n buf))
]

-- The entry in front of a buffer that has one.
entry_in : List ℕ → DatatypeEntry
entry_in buf = entry_of (unpack entry_layout (take 42 buf))

read_entry_long :
    (buf : List ℕ)
    → 42 ≤ length buf
    → read_over entry_layout entry_of zero_entry buf ≡ (entry_in buf, drop 42 buf)
unfolding read_over read_struct read_full entry_in
read_entry_long buf h = rw (le→ltb (length buf) 42 h)

nonzero_entry :
    (buf : List ℕ) → 0 < (entry_in buf).entry_length → nonzero (drop 42 buf) < nonzero buf
unfolding entry_in unpack
nonzero_entry buf h = omega (
  arith,
  nonzero-of_le (take 4 (take 42 buf)) h,
  nonzero-take-drop 4 (take 42 buf),
  nonzero-take-drop 42 buf,
)

-- What is behind the entry and the three texts.
behind_entry : DatatypeEntry → List ℕ → List ℕ
behind_entry e b1 =
    (read_terminated e.comment_length
      (read_terminated e.type_length (read_terminated e.name_length b1).1).1).1

behind_entry-Shrinks : (e : DatatypeEntry) (b1 : List ℕ) → Shrinks (behind_entry e b1) b1
unfolding behind_entry
behind_entry-Shrinks e b1 = Shrinks-trans _ _ b1 (read_terminated-Shrinks e.comment_length _) (
    Shrinks-trans _ _ b1 (read_terminated-Shrinks e.type_length _)
      (read_terminated-Shrinks e.name_length b1))

-- What a head leaves: fewer bytes, and fewer bytes that are not zero if the entry claims a length.
pub record Progress (buf : List ℕ) (h : Head) : Type 0 where
  pub fewer : Shrinks h.rest buf
  pub nonempty : 0 < length buf → length h.rest < length buf
  pub claimed : 0 < h.entry.entry_length → nonzero h.rest < nonzero buf

head_entry :
    (buf b1 : List ℕ) (e : DatatypeEntry)
    → read_over entry_layout entry_of zero_entry buf ≡ (e, b1)
    → ((read_head buf).entry ≡ e) × ((read_head buf).rest ≡ behind_entry e b1)
unfolding read_head head_after behind_entry
head_entry buf b1 e p = (
  ap (λ (r : DatatypeEntry × List ℕ). (head_after r).entry) p,
  ap (λ (r : DatatypeEntry × List ℕ). (head_after r).rest) p,
)

pub read_head-Progress : (buf : List ℕ) → Progress buf (read_head buf)
read_head-Progress buf = elim (Bool-cases (ltb (length buf) 42)) [
  | inl short ↦
      let (he, hr) =
        head_entry buf [] zero_entry
          (read_over_short entry_layout entry_of zero_entry buf (ground arith)) in
      let s : Shrinks (behind_entry zero_entry []) [] = behind_entry-Shrinks zero_entry [] in
      record {
        fewer = rw hr (omega arith);
        nonempty = λ p. rw hr (omega arith);
        claimed = λ p. absurd (omega (arith, ap (λ (d : DatatypeEntry). d.entry_length) he));
      }
  | inr long ↦
      let (he, hr) =
        head_entry buf (drop 42 buf) (entry_in buf) (read_entry_long buf (ground arith)) in
      let s : Shrinks (behind_entry (entry_in buf) (drop 42 buf)) (drop 42 buf) =
        behind_entry-Shrinks (entry_in buf) (drop 42 buf) in
      let d : Shrinks (drop 42 buf) buf = drop-Shrinks 42 buf in
      record {
        fewer = rw hr (omega arith);
        nonempty = λ p. rw hr (ground (arith, length-drop 42 buf));
        claimed = λ p. rw hr (omega (arith, nonzero_entry buf (rw he at p)));
      }
]

unfoldable pub nested : Head → List ℕ → List ℕ
nested h buf = (read_padded (child_length h buf) h.rest).0

pub nested-nonzero : (k : ℕ) (rest : List ℕ) → nonzero (read_padded k rest).0 ≤ nonzero rest
unfolding read_padded
nested-nonzero k rest = omega (
  arith,
  nonzero-append (take k rest) (replicate (k - length rest) 0),
  nonzero-replicate (k - length rest),
  nonzero-take-drop k rest,
)

pub behind_nested : (k : ℕ) (rest : List ℕ) → Shrinks (read_padded k rest).1 rest
unfolding read_padded
behind_nested k rest = drop-Shrinks k rest

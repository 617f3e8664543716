-- ===== src/Symbol/Upload/Written.antt =====
-- How a controller writes data types for the upload: an entry, its texts, and its members.
use go_adstc.Prelude.{ℕ, suc, ◌+◌, ◌≡◌, arith}
use go_adstc.Prelude.{List, [], ◌∷◌, ◌++◌, length, append_assoc}
use go_adstc.Prelude.{Bool, true, false, if◌then◌else◌, length-append}
use go_adstc.Go.Binary.{pack, Fits, length-pack}
use go_adstc.Go.Strconv.{text_eq}
use go_adstc.Symbol.{Text, DatatypeEntry, UploadType, UploadChilds, upload_type, no_childs, child}
use go_adstc.Symbol.{name_of}
use go_adstc.Symbol.Arrays.{count_childs}
use go_adstc.Symbol.Upload.{entry_layout, plain_type}

abbrev pub entry_values : DatatypeEntry → List ℕ
entry_values e =
    e.entry_length ∷ e.version ∷ e.hash_value ∷ e.type_hash_value ∷ e.size ∷ e.offs ∷ e.data_type
    ∷ e.flags ∷ e.name_length ∷ e.type_length ∷ e.comment_length ∷ e.array_dim ∷ e.sub_items ∷ []

-- An entry and its texts, each with a zero behind it.
unfoldable pub head_bytes : DatatypeEntry → Text → Text → Text → List ℕ → List ℕ
head_bytes e n d c rest =
    pack entry_layout (entry_values e) ++ (n ++ (0 ∷ (d ++ (0 ∷ (c ++ (0 ∷ rest))))))

-- A data type as the controller uploads it.
unfoldable mutual
  pub type_bytes : UploadType → List ℕ
  type_bytes (upload_type e n d c cs) = head_bytes e n d c (childs_bytes cs)

  pub childs_bytes : UploadChilds → List ℕ
  childs_bytes no_childs = []
  childs_bytes (child k t cs) = type_bytes t ++ childs_bytes cs

-- The data type as it is read: any type that begins with STRING and goes on is a STRING.
abbrev mutual
  pub plained : UploadType → UploadType
  plained (upload_type e n d c cs) = upload_type e n (plain_type d) c (plained_childs cs)

  pub plained_childs : UploadChilds → UploadChilds
  plained_childs no_childs = no_childs
  plained_childs (child k t cs) = child k (plained t) (plained_childs cs)

abbrev pub append_childs : UploadChilds → UploadChilds → UploadChilds
append_childs no_childs ds = ds
append_childs (child k t cs) ds = child k t (append_childs cs ds)

abbrev pub has_child : Text → UploadChilds → Bool
has_child name no_childs = false
has_child name (child k t cs) = if text_eq k name then true else has_child name cs

-- No key of the second children is among those before it.
abbrev pub Distinct : UploadChilds → UploadChilds → Type 0
Distinct before no_childs = Unit
Distinct before (child k t cs) =
    (has_child k before ≡ false) × Distinct (append_childs before (child k t no_childs)) cs

-- The entry of a structure says how long its parts are, and its numbers fit their fields.
abbrev pub IsEntry : DatatypeEntry → Text → Text → Text → UploadChilds → Type 0
IsEntry e n d c cs =
    Fits entry_layout (entry_values e)
    × (e.name_length ≡ length n)
    × (e.type_length ≡ length d)
    × (e.comment_length ≡ length c)
    × (e.array_dim ≡ 0)
    × (e.sub_items ≡ count_childs cs)
    × (e.entry_length ≡ length (head_bytes e n d c (childs_bytes cs)))

-- A structure that is uploaded whole, with its members.
abbrev mutual
  pub IsStruct : UploadType → Type 0
  IsStruct (upload_type e n d c cs) = IsEntry e n d c cs × Distinct no_childs cs × AreStructs cs

  pub AreStructs : UploadChilds → Type 0
  AreStructs no_childs = Unit
  AreStructs (child k t cs) = (k ≡ name_of t) × IsStruct t × AreStructs cs

abbrev mutual
  pub depth : UploadType → ℕ
  depth (upload_type e n d c cs) = suc (depth_childs cs)

  pub depth_childs : UploadChilds → ℕ
  depth_childs no_childs = 0
  depth_childs (child k t cs) = depth t + depth_childs cs

pub head_bytes-append :
    (e : DatatypeEntry) (n d c rest tail : List ℕ)
    → head_bytes e n d c rest ++ tail ≡ head_bytes e n d c (rest ++ tail)
unfolding head_bytes
head_bytes-append e n d c rest tail = simp append_assoc

pub length-head_bytes :
    (e : DatatypeEntry) (n d c r : List ℕ)
    → length (head_bytes e n d c r) ≡ 45 + length n + length d + length c + length r
unfolding head_bytes
length-head_bytes e n d c r = omega (
  arith,
  length-append (pack entry_layout (entry_values e)) (n ++ (0 ∷ (d ++ (0 ∷ (c ++ (0 ∷ r)))))),
  length-append n (0 ∷ (d ++ (0 ∷ (c ++ (0 ∷ r))))),
  length-append d (0 ∷ (c ++ (0 ∷ r))),
  length-append c (0 ∷ r),
  length-pack entry_layout (entry_values e),
)

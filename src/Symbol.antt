-- ===== src/Symbol.antt =====
-- The records of symbols.go: the uploaded data types, and the symbols as objects of a store.
pub mod Store
pub mod Arrays
pub mod Upload
use go_adstc.Prelude.{ℕ, Bool, Option, none, some, List, [], ◌∷◌, if◌then◌else◌}
use go_adstc.Go.Strconv.{text_eq}

-- Strings are lists of bytes.
abbrev pub Text : Type 0
Text = List ℕ

-- The fixed part of an uploaded data type.
pub record DatatypeEntry : Type 0 where
  pub entry_length : ℕ
  pub version : ℕ
  pub hash_value : ℕ
  pub type_hash_value : ℕ
  pub size : ℕ
  pub offs : ℕ
  pub data_type : ℕ
  pub flags : ℕ
  pub name_length : ℕ
  pub type_length : ℕ
  pub comment_length : ℕ
  pub array_dim : ℕ
  pub sub_items : ℕ

-- SymbolUploadDataType: the entry, name, data type, comment and children. The map of children is
-- a list of keys and values; nothing in the program depends on its order.
mutual
  pub data UploadType : Type 0 where
    upload_type : DatatypeEntry → Text → Text → Text → UploadChilds → UploadType

  pub data UploadChilds : Type 0 where
    no_childs : UploadChilds
    child : Text → UploadType → UploadChilds → UploadChilds

abbrev pub entry_of : UploadType → DatatypeEntry
entry_of (upload_type e n d c cs) = e

abbrev pub name_of : UploadType → Text
name_of (upload_type e n d c cs) = n

abbrev pub data_type_of : UploadType → Text
data_type_of (upload_type e n d c cs) = d

abbrev pub comment_of : UploadType → Text
comment_of (upload_type e n d c cs) = c

abbrev pub childs_of : UploadType → UploadChilds
childs_of (upload_type e n d c cs) = cs

-- A Symbol. Objects stand in a store; `parent` and `childs` are references into it. `notification`
-- is the channel that updates are sent to.
pub record Symbol : Type 0 where
  pub full_name : Text
  pub last_update_time : ℕ
  pub min_update_interval : ℕ
  pub name : Text
  pub data_type : Text
  pub comment : Text
  pub handle : ℕ
  pub group : ℕ
  pub offset : ℕ
  pub length : ℕ
  pub changed : Bool
  pub value : Text
  pub valid : Bool
  pub notification : Option ℕ
  pub parent : Option ℕ
  pub childs : List (Text × ℕ)

-- Go maps with string keys, as lists of keys and values without a repeated key.
module _ {ℓ} {V : Type ℓ} where
  unfoldable pub lookup : Text → List (Text × V) → Option V
  lookup k [] = none
  lookup k ((j, v) ∷ m) = if text_eq j k then some v else lookup k m

  -- m[k] = v
  unfoldable pub insert : Text → V → List (Text × V) → List (Text × V)
  insert k v [] = (k, v) ∷ []
  insert k v ((j, w) ∷ m) = if text_eq j k then (k, v) ∷ m else (j, w) ∷ insert k v m

-- ===== src/Value.antt =====
-- readWriter.go: the value of a symbol, between its bytes and its text.
pub mod Compare
pub mod RoundTrip
pub mod Strings
pub mod Node
pub mod Update
use go_adstc.Prelude.{ℕ, zero, suc, ◌+◌, ◌-◌, ◌*◌, ◌%◌, ◌^◌, Bool, true, false, ltb, ◌==◌, not}
use go_adstc.Prelude.{List, [], ◌∷◌, ◌++◌, length, take, drop, replicate, Option, none, some}
use go_adstc.Prelude.{if◌then◌else◌}
use go_adstc.Go.Result.{
  Error, Result, ok, err, panic, ◌>>=◌, wrong_size, unknown_format, whole_struct,
}
use go_adstc.Go.Result.{not_parseable, not_implemented}
use go_adstc.Go.Bytes.{codes, to_le, of_le}
use go_adstc.Go.Int.{ℤ, pos, is_zero, signed, unsigned, minus}
use go_adstc.Go.Strconv.{
  includes, parse_uint, parse_int, parse_bool, checked, format_uint, format_int,
}
use go_adstc.Go.Space.{trim_space, before_zero}
use go_adstc.Symbol.{Text, UploadType, data_type_of, lookup}

-- The types that `parse` has a case for, one for each list of case labels.
pub data Kind : Type 0 where
  bool byte sint uint udint int dint real lreal string time tod date dt : Kind

-- The case labels of `parse`.
abbrev pub kinds : List (Text × Kind)
kinds =
    (codes "BOOL", bool)
    ∷ (codes "BYTE", byte)
    ∷ (codes "USINT", byte)
    ∷ (codes "SINT", sint)
    ∷ (codes "UINT", uint)
    ∷ (codes "WORD", uint)
    ∷ (codes "UDINT", udint)
    ∷ (codes "DWORD", udint)
    ∷ (codes "INT", int)
    ∷ (codes "DINT", dint)
    ∷ (codes "REAL", real)
    ∷ (codes "LREAL", lreal)
    ∷ (codes "STRING", string)
    ∷ (codes "TIME", time)
    ∷ (codes "TOD", tod)
    ∷ (codes "DATE", date)
    ∷ (codes "DT", dt)
    ∷ []

-- `switch symbol.DataType`
unfoldable pub kind_of : Text → Option Kind
kind_of data_type = lookup data_type kinds

-- Floating point and the local time zone, which the model leaves to whoever runs it.
pub record Formats : Type 0 where
  -- strconv.FormatFloat(…, 'f', -1, 32) and 64, of the bits of a float
  pub float32 : ℕ → Text
  pub float64 : ℕ → Text
  -- the bits of the float that strconv.ParseFloat(…, 32) and 64 give
  pub parse_float32 : Text → Result ℕ
  pub parse_float64 : Text → Result ℕ
  -- time.Unix(0, nanoseconds).Format(layout)
  pub local_time : ℤ → Text → Text

-- time.Hour in nanoseconds
abbrev pub hour : ℕ
hour = 3600 * 10 ^ 9

-- `if stop-start != n { return "", fmt.Errorf(… Size Wrong) }`, then the value.
abbrev pub sized : ℕ → List ℕ → Text → Result Text
sized n bytes v = if not (length bytes == n) then err wrong_size else ok v

-- The switch of `parse`, on data[start:stop]. Times are whole milliseconds, so Truncate changes
-- nothing; a uint32 of milliseconds or seconds does not overflow an int64 of nanoseconds.
unfoldable pub parse_kind : Formats → Kind → List ℕ → Result Text
parse_kind fmts bool bytes =
    sized 1 bytes (if ltb 0 (of_le bytes) then codes "True" else codes "False")
parse_kind fmts byte bytes = sized 1 bytes (format_int (pos (of_le bytes)))
parse_kind fmts sint bytes = sized 1 bytes (format_int (signed (2 ^ 7) (of_le bytes)))
parse_kind fmts uint bytes = sized 2 bytes (format_uint (of_le bytes))
parse_kind fmts udint bytes = sized 4 bytes (format_uint (of_le bytes))
parse_kind fmts int bytes = sized 2 bytes (format_int (signed (2 ^ 15) (of_le bytes)))
parse_kind fmts dint bytes = sized 4 bytes (format_int (signed (2 ^ 31) (of_le bytes)))
parse_kind fmts real bytes = sized 4 bytes (fmts.float32 (of_le bytes))
parse_kind fmts lreal bytes = sized 8 bytes (fmts.float64 (of_le bytes))
parse_kind fmts string bytes = ok (before_zero (trim_space bytes))
parse_kind fmts time bytes =
    sized 4 bytes
      (fmts.local_time (minus (pos (of_le bytes * 10 ^ 6)) hour) (codes "15:04:05.999999999"))
parse_kind fmts tod bytes =
    sized 4 bytes (fmts.local_time (minus (pos (of_le bytes * 10 ^ 6)) hour) (codes "15:04"))
parse_kind fmts date bytes =
    sized 4 bytes (fmts.local_time (pos (of_le bytes * 10 ^ 9)) (codes "2006-01-02"))
parse_kind fmts dt bytes =
    sized 4 bytes
      (fmts.local_time (minus (pos (of_le bytes * 10 ^ 9)) hour) (codes "2006-01-02 15:04:05"))

-- stop of `parse`, for a symbol of `size` bytes at `start`.
abbrev pub stop_of : ℕ → ℕ → List ℕ → ℕ
stop_of size start bytes = if ltb (length bytes) (start + size) then length bytes else start + size

-- data[start:stop] panics if start lies behind stop, and only STRING comes to it without a check of
-- stop-start first: the other cases fail that check.
abbrev pub sliced : Kind → ℕ → ℕ → List ℕ → (List ℕ → Result Text) → Result Text
sliced string start stop bytes f =
    if ltb stop start then panic else f (take (stop - start) (drop start bytes))
sliced k start stop bytes f = f (take (stop - start) (drop start bytes))

-- The switch on the type of the symbol.
unfoldable pub parse_known : Formats → Option Kind → ℕ → List ℕ → ℕ → Result (Option Text)
parse_known fmts none size bytes start = err unknown_format
parse_known fmts (some k) size bytes start =
    sliced k start (stop_of size start bytes) bytes (parse_kind fmts k) >>= λ v. ok (some v)

-- The new value of a symbol without children: `none` when the data are too small, on which `parse`
-- returns an empty text and no error.
unfoldable pub parse_leaf : Formats → Text → ℕ → List ℕ → ℕ → Result (Option Text)
parse_leaf fmts data_type size bytes start =
    if ltb (length bytes) size
    then ok none
    else parse_known fmts (kind_of data_type) size bytes start

abbrev pub parseable_types : List Text
parseable_types =
    codes "BOOL"
    ∷ codes "BYTE"
    ∷ codes "USINT"
    ∷ codes "UINT"
    ∷ codes "WORD"
    ∷ codes "UDINT"
    ∷ codes "DWORD"
    ∷ codes "SINT"
    ∷ codes "INT"
    ∷ codes "DINT"
    ∷ codes "REAL"
    ∷ codes "LREAL"
    ∷ codes "STRING"
    ∷ []

-- datatypes[dt].DataType: empty for a type that is not there.
abbrev pub base_type : List (Text × UploadType) → Text → Text
base_type datatypes data_type = elim (lookup data_type datatypes) [
  | none ↦ []
  | some u ↦ data_type_of u
]

-- The type that writeToNode writes as: the symbol's own, or else what its data type stands for.
unfoldable pub write_type : List (Text × UploadType) → Text → Result Text
write_type datatypes data_type =
    if includes parseable_types data_type
    then ok data_type
    else if includes parseable_types (base_type datatypes data_type)
    then ok (base_type datatypes data_type)
    else err not_parseable

-- make([]byte, size) and copy
abbrev pub fixed : ℕ → Text → List ℕ
fixed size value = take size value ++ replicate (size - length value) 0

-- The switch of writeToNode: a case for each type but those of time.
unfoldable pub write_kind : Formats → Kind → ℕ → Text → Result (List ℕ)
write_kind fmts bool size value =
    parse_bool value >>= λ (v : Bool). ok (if v then 1 ∷ [] else 0 ∷ [])
write_kind fmts byte size value = checked (parse_uint 8 value) >>= λ v. ok (to_le 1 v)
write_kind fmts uint size value = checked (parse_uint 16 value) >>= λ v. ok (to_le 2 v)
write_kind fmts udint size value = checked (parse_uint 32 value) >>= λ v. ok (to_le 4 v)
write_kind fmts sint size value = parse_int 8 value >>= λ v. ok (to_le 1 (unsigned (2 ^ 7) v))
write_kind fmts int size value = parse_int 16 value >>= λ v. ok (to_le 2 (unsigned (2 ^ 15) v))
write_kind fmts dint size value = parse_int 32 value >>= λ v. ok (to_le 4 (unsigned (2 ^ 31) v))
write_kind fmts real size value = fmts.parse_float32 value >>= λ v. ok (to_le 4 v)
write_kind fmts lreal size value = fmts.parse_float64 value >>= λ v. ok (to_le 8 v)
write_kind fmts string size value = ok (fixed size value)
write_kind fmts k size value = err not_implemented

unfoldable pub write_known : Formats → Option Kind → ℕ → Text → Result (List ℕ)
write_known fmts none size value = err not_implemented
write_known fmts (some k) size value = write_kind fmts k size value

-- writeToNode, for a symbol with or without children.
unfoldable pub write_to_node :
    Formats → List (Text × UploadType) → Bool → Text → ℕ → Text → Result (List ℕ)
write_to_node fmts datatypes has_childs data_type size value =
    if has_childs
    then err whole_struct
    else write_type datatypes data_type >>= λ (d : Text). write_known fmts (kind_of d) size value

-- The loop of strcmp: the difference of the first bytes that differ.
unfoldable pub first_diff : List ℕ → List ℕ → ℤ
first_diff [] bs = pos 0
first_diff (a ∷ more) [] = pos 0
first_diff (a ∷ more) (b ∷ bs) =
    let later = first_diff more bs in if a == b then later else minus (pos a) b

unfoldable pub strcmp : List ℕ → List ℕ → ℤ
unfolding first_diff minus
strcmp s t = if is_zero (first_diff s t) then minus (pos (length s)) (length t) else first_diff s t

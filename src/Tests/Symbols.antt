-- ===== src/Tests/Symbols.antt =====
-- Uploads of data types: a structure, an array, and array bounds that are negative.
use go_adstc.Prelude.{◌+◌, ◌*◌, ◌/◌, ◌≤◌, ◌≡◌, refl, arith, List, [], ◌∷◌, some}
use go_adstc.Prelude.{map}
use go_adstc.Go.Bytes.{codes}
use go_adstc.Symbol.{Text, UploadType, entry_of, upload_type, no_childs, child}
use go_adstc.Symbol.Arrays.{ArrayInfo, zero_entry, bracketed, element, make_array_childs, nth_child}
use go_adstc.Symbol.Arrays.{count_childs, make_array_childs-nth, make_array_childs_wrap}
use go_adstc.Symbol.Upload.{parse_data_types, plain_type}
use go_adstc.Go.Binary.{pack}
use go_adstc.Go.Bytes.{to_le}
use go_adstc.Symbol.Upload.Written.{IsEntry, plained, head_bytes, type_bytes, childs_bytes}
use go_adstc.Symbol.Upload.Ends.{parse_data_types_ends}
use go_adstc.Symbol.Upload.RoundTrip.{types_bytes, filed, parse_data_types-types_bytes}

-- A member x : INT, and a structure that holds it.
abbrev pub member : UploadType
member =
    upload_type
      (record zero_entry { entry_length = 49; size = 2; name_length = 1; type_length = 3 })
      (codes "x") (codes "INT") [] no_childs

abbrev pub point : UploadType
point =
    upload_type
      (record zero_entry {
        entry_length = 101;
        size = 2;
        name_length = 5;
        type_length = 1;
        comment_length = 1;
        sub_items = 1;
      })
      (codes "Point") (codes "T") (codes "c") (child (codes "x") member no_childs)

pub member-IsEntry : IsEntry (entry_of member) (codes "x") (codes "INT") [] no_childs
unfolding head_bytes childs_bytes plain_type pack to_le
member-IsEntry = (
  (
    omega arith,
    (
      omega arith,
      (
        omega arith,
        (
          omega arith,
          (
            omega arith,
            (
              omega arith,
              (
                omega arith,
                (
                  omega arith,
                  (omega arith, (omega arith, (omega arith, (omega arith, (omega arith, tt))))),
                ),
              ),
            ),
          ),
        ),
      ),
    ),
  ),
  refl,
  refl,
  refl,
  refl,
  refl,
  refl,
)

pub point-IsEntry :
    IsEntry
      (entry_of point)
      (codes "Point")
      (codes "T")
      (codes "c")
      (child (codes "x") member no_childs)
unfolding head_bytes type_bytes childs_bytes plain_type pack to_le
point-IsEntry = (
  (
    omega arith,
    (
      omega arith,
      (
        omega arith,
        (
          omega arith,
          (
            omega arith,
            (
              omega arith,
              (
                omega arith,
                (
                  omega arith,
                  (omega arith, (omega arith, (omega arith, (omega arith, (omega arith, tt))))),
                ),
              ),
            ),
          ),
        ),
      ),
    ),
  ),
  refl,
  refl,
  refl,
  refl,
  refl,
  refl,
)

-- A type that stands for a string.
abbrev label : UploadType
label =
    upload_type
      (record zero_entry { entry_length = 60; size = 81; name_length = 5; type_length = 10 })
      (codes "Label") (codes "STRING(80)") [] no_childs

label-IsEntry : IsEntry (entry_of label) (codes "Label") (codes "STRING(80)") [] no_childs
unfolding head_bytes childs_bytes pack to_le
label-IsEntry = (
  (
    omega arith,
    (
      omega arith,
      (
        omega arith,
        (
          omega arith,
          (
            omega arith,
            (
              omega arith,
              (
                omega arith,
                (
                  omega arith,
                  (omega arith, (omega arith, (omega arith, (omega arith, (omega arith, tt))))),
                ),
              ),
            ),
          ),
        ),
      ),
    ),
  ),
  refl,
  refl,
  refl,
  refl,
  refl,
  refl,
)

parse_data_types-types_bytes_example :
    parse_data_types (types_bytes (point ∷ label ∷ []))
    ≡ some (filed (map plained (point ∷ label ∷ [])) [])
parse_data_types-types_bytes_example = parse_data_types-types_bytes (point ∷ label ∷ []) (
  (point-IsEntry, (refl, tt), (refl, (member-IsEntry, tt, tt), tt)),
  ((label-IsEntry, tt, tt), tt),
)

-- Three elements from -1 on.
abbrev wrapping : ArrayInfo
wrapping = record { l_bound = 4294967295; elements = 3 }

abbrev plain_bounds : ArrayInfo
plain_bounds = record { l_bound = 1; elements = 3 }

make_array_childs-nth_example :
    (count_childs (make_array_childs (plain_bounds ∷ []) (codes "INT") 6) ≡ 3)
    × (nth_child 2 (make_array_childs (plain_bounds ∷ []) (codes "INT") 6)
        ≡ some (
          bracketed (1 + 2),
          element
              (codes "INT")
              (6 / 3)
              (make_array_childs [] (codes "INT") 6)
              (1 + 2)
              (2 * (6 / 3)),
        ))
    × (2 * (6 / 3) + 6 / 3 ≤ 6)
make_array_childs-nth_example =
    make_array_childs-nth plain_bounds [] (codes "INT") 6 2 (omega arith) (omega arith)
      (omega arith)

make_array_childs_wrap_example : make_array_childs (wrapping ∷ []) (codes "INT") 6 ≡ no_childs
make_array_childs_wrap_example =
    make_array_childs_wrap wrapping [] (codes "INT") 6 (omega arith) (omega arith) (omega arith)

-- Two bytes that are no entry.
parse_data_types_ends_example :
    (types : List (Text × UploadType)) × (parse_data_types (7 ∷ 0 ∷ []) ≡ some types)
parse_data_types_ends_example = parse_data_types_ends (7 ∷ 0 ∷ [])

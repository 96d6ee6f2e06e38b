-- ===== src/Tests/Numbers.antt =====
-- The properties of the numeric supertypes, at concrete types.
use chgen.Base.{
  ◌≡◌, refl, ◌≤◌, ◌*◌, ◌↔◌, true, some, List, [], ◌∷◌, ok, err, arith, fold_switch, fold_eq,
}
use mathlib.Core.List.{Permᴰ}
use chgen.ChType.{ChType, named, wrap, size, unwrap_as}
use chgen.Wrappers.{split_ch_wrappers, peel}
use chgen.LowCardinality.{
  strip_deep, strip_deep_fuel, map_params, map_types, unwrap_low_cardinality,
}
use chgen.Numeric.{
  unsigned, signed, float, info, numeric_info_for_type, no_common_type, common_numeric, join_info,
  candidates, numeric_type_name,
}
use chgen.Numeric.Join.{common_numeric-Joins}
use chgen.Numeric.Widening.{Joins}
use chgen.Numeric.Refusal.{
  refuses, common_numeric-refuses, common_numeric_comm, common_numeric-least,
}
use chgen.MixedSign.{
  mixed_sign_integer_ch_types, found, collect, branch_info, integer_base, tally, count_bits,
  conclude, outcome_of, first_width,
}
use chgen.MixedSign.Order.{mixed_sign-perm}
use chgen.MixedSign.Pairs.{Agrees, mixed_sign-Agrees}

reads_uint32 : numeric_info_for_type (named "UInt32") ≡ some (info unsigned 32)
unfolding numeric_info_for_type fold_switch fold_eq
reads_uint32 = refl

reads_int8 : numeric_info_for_type (named "Int8") ≡ some (info signed 8)
unfolding numeric_info_for_type fold_switch fold_eq
reads_int8 = refl

reads_int64 : numeric_info_for_type (named "Int64") ≡ some (info signed 64)
unfolding numeric_info_for_type fold_switch fold_eq
reads_int64 = refl

reads_float32 : numeric_info_for_type (named "Float32") ≡ some (info float 32)
unfolding numeric_info_for_type fold_switch fold_eq
reads_float32 = refl

uint32_int8 : common_numeric (named "UInt32") (named "Int8") ≡ ok (named "Int64")
unfolding common_numeric numeric_info_for_type fold_switch fold_eq join_info
uint32_int8 = refl

common_numeric-Joins_example : Joins unsigned signed 32 8 (named "Int64")
common_numeric-Joins_example =
    common_numeric-Joins (named "UInt32") (named "Int8") (named "Int64") (info unsigned 32)
      (info signed 8) reads_uint32 reads_int8 uint32_int8

common_numeric-refuses_example :
    (common_numeric (named "Float32") (named "Int64")
      ≡ err (no_common_type (named "Float32") (named "Int64")))
    ↔ (refuses float signed 32 64 ≡ true)
common_numeric-refuses_example =
    common_numeric-refuses (named "Float32") (named "Int64") (info float 32) (info signed 64)
      reads_float32 reads_int64

common_numeric_comm_example : common_numeric (named "Int8") (named "UInt32") ≡ ok (named "Int64")
common_numeric_comm_example =
    common_numeric_comm (named "UInt32") (named "Int8") (named "Int64") uint32_int8

common_numeric-least_example : (signed ≡ signed) × (32 * 2 ≤ 64) × (8 ≤ 64) × (64 ≤ 128)
common_numeric-least_example =
    common_numeric-least (named "UInt32") (named "Int8") (named "Int64") 32 8 128 (info signed 64)
      reads_uint32 reads_int8 uint32_int8 reads_int64 (omega arith) (omega arith) (omega arith)

abbrev three : List ChType
three = named "Int8" ∷ wrap "Nullable" (named "UInt16") ∷ named "Int64" ∷ []

three_run : mixed_sign_integer_ch_types three ≡ found (named "Int64") true
unfolding mixed_sign_integer_ch_types collect branch_info integer_base split_ch_wrappers peel
    unwrap_as strip_deep strip_deep_fuel map_params map_types unwrap_low_cardinality size
    numeric_info_for_type fold_switch fold_eq tally count_bits conclude outcome_of first_width
    candidates numeric_type_name
three_run = refl

mixed_sign-perm_example :
    mixed_sign_integer_ch_types three
    ≡ mixed_sign_integer_ch_types
        (wrap "Nullable" (named "UInt16") ∷ named "Int8" ∷ named "Int64" ∷ [])
mixed_sign-perm_example = mixed_sign-perm (Permᴰ.swap refl refl)

mixed_sign-Agrees_example :
    Agrees
      (integer_base (named "Int8")).0
      (integer_base (wrap "Nullable" (named "UInt16"))).0
      (mixed_sign_integer_ch_types (named "Int8" ∷ wrap "Nullable" (named "UInt16") ∷ []))
      (common_numeric
        (integer_base (named "Int8")).0
        (integer_base (wrap "Nullable" (named "UInt16"))).0)
mixed_sign-Agrees_example = mixed_sign-Agrees (named "Int8") (wrap "Nullable" (named "UInt16"))

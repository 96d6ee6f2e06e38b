-- ===== src/Arithmetic/Operands.antt =====
-- The tests that arithmetic makes on one operand, of internal/engine/arithmetic.go, with
-- `wideIntegerCHType` of internal/engine/resolver.go and `dateTime64Precision` of
-- internal/engine/temporal.go.
use chgen.Base.{
  ℕ, ◌*◌, String, Bool, true, false, not, ◌&&◌, ◌||◌, Option, none, some, List, [], ◌∷◌, ◌==◌, leb,
  ltb, if◌then◌else◌, fold_eq, fold_in, fold_switch,
}
use chgen.Base.Integers.{ℤ, pos, atoi, itoa_int, max_int}
use chgen.ChType.{ChType, ch_type, nil, name, params, literal_params}
use chgen.Transport.Marker.{simple_aggregate_wrapper_inner}
use chgen.Supertype.Shapes.{no_params, is_empty}
use chgen.GoType.Names.{canonical_ch_type_name}

-- `arithmeticIntegerClass`: the sign, and the size in bytes.
pub data IntegerClass : Type 0 where
  integer_class : Bool → ℕ → IntegerClass

abbrev pub is_signed : IntegerClass → Bool
is_signed (integer_class s b) = s

abbrev pub bytes : IntegerClass → ℕ
bytes (integer_class s b) = b

-- `CHType.normalizedName`, where it is compared with names without case.
abbrev pub normal : ChType → String
normal operand = canonical_ch_type_name (name operand)

abbrev pub integer_classes : List (String × IntegerClass)
integer_classes =
    ("uint8", integer_class false 1)
    ∷ ("bool", integer_class false 1)
    ∷ ("uint16", integer_class false 2)
    ∷ ("uint32", integer_class false 4)
    ∷ ("uint64", integer_class false 8)
    ∷ ("int8", integer_class true 1)
    ∷ ("int16", integer_class true 2)
    ∷ ("int32", integer_class true 4)
    ∷ ("int64", integer_class true 8)
    ∷ ("int", integer_class true 8)
    ∷ ("uint128", integer_class false 16)
    ∷ ("uint256", integer_class false 32)
    ∷ ("int128", integer_class true 16)
    ∷ ("int256", integer_class true 32)
    ∷ []

-- `arithmeticIntegerClassOf`
unfoldable pub integer_class_of : ChType → Option IntegerClass
integer_class_of operand =
    if no_params (params operand) && is_empty (literal_params operand)
    then fold_switch (normal operand) integer_classes
    else none

-- `arithmeticIntegerTypeNames`, empty where the map has no key.
unfoldable pub class_name : IntegerClass → String
class_name (integer_class signed size) =
    if size == 1
    then (if signed then "Int8" else "UInt8")
    else if size == 2
    then (if signed then "Int16" else "UInt16")
    else if size == 4
    then (if signed then "Int32" else "UInt32")
    else if size == 8
    then (if signed then "Int64" else "UInt64")
    else if size == 16
    then (if signed then "Int128" else "UInt128")
    else if size == 32
    then (if signed then "Int256" else "UInt256")
    else ""

-- `promotedArithmeticSize`
unfoldable pub promoted_size : ℕ → ℕ
promoted_size size = if leb 8 size then size else size * 2

-- `maxInt` of two sizes
abbrev pub max_size : ℕ → ℕ → ℕ
max_size a b = if ltb b a then a else b

unfoldable pub is_float_operand : ChType → Bool
is_float_operand operand = fold_in (normal operand) ("float32" ∷ "float64" ∷ [])

unfoldable pub is_decimal_operand : ChType → Bool
is_decimal_operand operand =
    fold_in (normal operand)
      ("decimal" ∷ "decimal32" ∷ "decimal64" ∷ "decimal128" ∷ "decimal256" ∷ [])

unfoldable pub is_date_operand : ChType → Bool
is_date_operand operand =
    fold_in (normal operand) ("date" ∷ "date32" ∷ "datetime" ∷ "datetime64" ∷ [])

-- `wideIntegerCHType`
unfoldable pub is_wide_integer : ChType → Bool
is_wide_integer value =
    fold_in (name value) ("uint128" ∷ "uint256" ∷ "int128" ∷ "int256" ∷ [])
    && no_params (params value)

unfoldable pub has_modulo_rule : ChType → Bool
has_modulo_rule operand = fold_in (normal operand) ("date" ∷ "datetime" ∷ [])

-- One normalized name, which is not Date32.
unfoldable pub same_difference : ChType → ChType → Bool
same_difference left right =
    fold_eq (normal left) (normal right) && not (fold_eq (normal left) "date32")

abbrev or_three : Option ℤ → ℤ
or_three none = pos 3
or_three (some p) = p

abbrev precision_of : List String → ℤ
precision_of [] = pos 3
precision_of (p ∷ rest) = or_three (atoi p)

-- `dateTime64Precision`
unfoldable pub date_time64_precision : ChType → ℤ
date_time64_precision operand = precision_of (literal_params operand)

-- `scaleOf`
unfoldable pub scale_of : ChType → Option ℤ
unfolding date_time64_precision
scale_of operand =
    if fold_eq (normal operand) "datetime64"
    then some (date_time64_precision operand)
    else if fold_eq (normal operand) "datetime"
    then some (pos 0)
    else none

abbrev pub difference_type : Bool → Option ℤ → Option ℤ → Option ChType
difference_type true (some l) (some r) =
    some (ch_type "Decimal" nil ("18" ∷ itoa_int (max_int l r) ∷ []) [])
difference_type false (some l) (some r) = none
difference_type has none r = none
difference_type has (some l) none = none

-- `dateTime64DifferenceType`
unfoldable pub date_time64_difference : ChType → ChType → Option ChType
unfolding scale_of
date_time64_difference left right =
    difference_type (fold_eq (normal left) "datetime64" || fold_eq (normal right) "datetime64")
      (scale_of left) (scale_of right)

-- `simpleAggregateInnerType`
unfoldable pub simple_aggregate_inner_type : ChType → ChType
simple_aggregate_inner_type value = elim (simple_aggregate_wrapper_inner value) [
  | none ↦ value
  | some inner ↦ inner
]

-- ===== src/Supertype/Decimals.antt =====
-- Decimal types in branches: `canonicalDecimalType` of internal/engine/infer_function.go,
-- `decimalPrecisionScale`, `decimalClassPrecision` and `decimalDigitsForInteger` of
-- internal/engine/arithmetic.go, `commonDecimalSupertype` of internal/engine/supertype.go.
use chgen.Base.{
  ℕ, String, Bool, true, false, Option, none, some, List, [], ◌∷◌, leb, ltb, if◌then◌else◌, fold_eq,
  fold_switch,
}
use chgen.Base.Integers.{ℤ, pos, negsuc, atoi, itoa_int, max_int}
use chgen.ChType.{ChType, ch_type, nil, name, params, literal_params}
use chgen.Supertype.Shapes.{no_params}

abbrev decimal_type : String → String → ChType
decimal_type precision scale = ch_type "Decimal" nil (precision ∷ scale ∷ []) []

abbrev sized : ChType → List String → String → ChType
sized value (scale ∷ []) precision = decimal_type precision scale
sized value [] precision = value
sized value (s ∷ t ∷ ts) precision = value

abbrev sized_decimals : List (String × String)
sized_decimals =
    ("decimal32", "9") ∷ ("decimal64", "18") ∷ ("decimal128", "38") ∷ ("decimal256", "76") ∷ []

unfoldable pub canonical_decimal_type : ChType → ChType
canonical_decimal_type value = elim (fold_switch (name value) sized_decimals) [
  | none ↦ value
  | some precision ↦ sized value (literal_params value) precision
]

abbrev both : Option ℤ → Option ℤ → Option (ℤ × ℤ)
both (some p) (some s) = some (p, s)
both (some p) none = none
both none s = none

abbrev read_two : List String → Option (ℤ × ℤ)
read_two (p ∷ s ∷ []) = both (atoi p) (atoi s)
read_two [] = none
read_two (p ∷ []) = none
read_two (p ∷ s ∷ t ∷ ts) = none

unfoldable pub decimal_precision_scale : ChType → Option (ℤ × ℤ)
decimal_precision_scale value =
    let canonical = canonical_decimal_type value in
    if fold_eq (name canonical) "Decimal" then read_two (literal_params canonical) else none

-- `isDecimalWithParams`
unfoldable pub is_decimal_with_params : ChType → Bool
is_decimal_with_params value = elim (decimal_precision_scale value) [ none ↦ false | some d ↦ true ]

unfoldable pub decimal_class_precision : ℤ → ℕ
decimal_class_precision (pos p) =
    if leb p 9 then 9 else if leb p 18 then 18 else if leb p 38 then 38 else 76
decimal_class_precision (negsuc p) = 9

unfoldable pub decimal_digits_for_integer : String → Option ℕ
decimal_digits_for_integer n = fold_switch n (
    ("bool", 1)
    ∷ ("uint8", 3)
    ∷ ("int8", 3)
    ∷ ("uint16", 5)
    ∷ ("int16", 5)
    ∷ ("uint32", 10)
    ∷ ("int32", 10)
    ∷ ("int64", 19)
    ∷ ("int", 19)
    ∷ ("uint64", 20)
    ∷ [])

abbrev integer_class : Bool → Option ℕ → Option (ℕ × ℤ)
integer_class false digits = none
integer_class true none = none
integer_class true (some digits) = some (decimal_class_precision (pos digits), pos 0)

-- `classOf`: the precision of the storage class, and the scale, of a Decimal or of an integer.
unfoldable pub class_of : ChType → Option (ℤ × ℤ) → Option (ℕ × ℤ)
unfolding decimal_class_precision
class_of value (some (precision, scale)) = some (decimal_class_precision precision, scale)
class_of value none =
    integer_class (no_params (params value)) (decimal_digits_for_integer (name value))

abbrev pub widest : Option (ℕ × ℤ) → Option (ℕ × ℤ) → Option ChType
widest (some (l, s)) (some (r, t)) =
    some (decimal_type (itoa_int (pos (if ltb r l then l else r))) (itoa_int (max_int s t)))
widest (some l) none = none
widest none r = none

abbrev pub one_decimal : ChType → ChType → Option (ℤ × ℤ) → Option (ℤ × ℤ) → Option ChType
one_decimal left right none none = none
one_decimal left right (some d) r = widest (class_of left (some d)) (class_of right r)
one_decimal left right none (some d) = widest (class_of left none) (class_of right (some d))

unfoldable pub common_decimal_supertype : ChType → ChType → Option ChType
unfolding class_of
common_decimal_supertype left right =
    one_decimal left right (decimal_precision_scale left) (decimal_precision_scale right)

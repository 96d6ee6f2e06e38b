-- ===== src/Arithmetic.antt =====
-- The result type of the operators +, -, *, / and %: `inferArithmeticResultType` of
-- internal/engine/arithmetic.go and the tests it makes. An operator is its text; the one error of the
-- function is `none`.
pub mod Operands
pub mod Fuel
pub mod Order
pub mod Classes
use chgen.Base.{
  ℕ, zero, suc, ◌+◌, String, Bool, true, false, not, ◌&&◌, ◌||◌, Option, none, some, List, [], ◌∷◌,
  ◌==◌, if◌then◌else◌, str_eq, fold_eq,
}
use chgen.Base.Integers.{ℤ, pos, itoa_int, max_int, add_int}
use chgen.ChType.{ChType, ch_type, nil, cons, name, named, wrap, unwrap_as, size}
use chgen.Wrappers.{wrap_nullable, peel}
use chgen.Supertype.Decimals.{
  canonical_decimal_type, decimal_precision_scale, decimal_class_precision,
}
use Operands.{
  IntegerClass, integer_class, is_signed, bytes, integer_class_of, class_name, promoted_size,
  is_float_operand, is_decimal_operand, is_date_operand, is_wide_integer, has_modulo_rule,
  same_difference, date_time64_difference, simple_aggregate_inner_type, max_size,
}

abbrev pub is_either : String → String → String → Bool
is_either a b operator = str_eq operator a || str_eq operator b

-- `narrowOffset`
abbrev pub narrow_offset : ChType → Option IntegerClass → Bool
narrow_offset operand (some class) = not (is_wide_integer operand)
narrow_offset operand none = is_float_operand operand

abbrev is_some_class : Option IntegerClass → Bool
is_some_class none = false
is_some_class (some class) = true

-- A sum or a difference of which one operand at least is a date.
unfoldable pub date_sum :
    String → ChType → ChType → Option IntegerClass → Option IntegerClass → Option ChType
date_sum operator left right l r =
    if is_date_operand left && is_date_operand right
    then if str_eq operator "-"
      then elim (date_time64_difference left right) [
        | some t ↦ some t
        | none ↦ if same_difference left right then some (named "Int32") else none
      ]
      else none
    else if is_date_operand left && narrow_offset right r
    then some left
    else if str_eq operator "+" && (is_date_operand right && narrow_offset left l)
    then some right
    else none

unfoldable pub date_modulo : ChType → ChType → Option IntegerClass → Option ChType
date_modulo left right r =
    if is_date_operand left && (not (is_date_operand right) && has_modulo_rule left)
    then if is_some_class r && not (is_wide_integer right)
      then some right
      else if is_float_operand right
      then some (named "Float64")
      else none
    else none

unfoldable pub date_arithmetic :
    String → ChType → ChType → Option IntegerClass → Option IntegerClass → Option ChType
unfolding date_sum date_modulo
date_arithmetic operator left right l r =
    if is_either "+" "-" operator
    then date_sum operator left right l r
    else if str_eq operator "%"
    then date_modulo left right r
    else none

abbrev pub decimal_of : ℕ → ℤ → ChType
decimal_of precision scale =
    ch_type "Decimal" nil (itoa_int (pos precision) ∷ itoa_int scale ∷ []) []

unfoldable pub decimal_scale_of : String → ℤ → ℤ → Option ℤ
decimal_scale_of operator left right =
    if is_either "+" "-" operator
    then some (max_int left right)
    else if str_eq operator "*"
    then some (add_int left right)
    else if is_either "/" "%" operator
    then some left
    else none

abbrev pub decimal_with : ℕ → Option ℤ → Option ChType
decimal_with precision none = none
decimal_with precision (some scale) = some (decimal_of precision scale)

-- Two operands of which one at least has a Decimal name, by their precisions and scales.
unfoldable pub decimal_arithmetic :
    String
    → ChType
    → ChType
    → Option (ℤ × ℤ)
    → Option (ℤ × ℤ)
    → Option IntegerClass
    → Option IntegerClass
    → Option ChType
unfolding decimal_scale_of
decimal_arithmetic operator left right (some (p, s)) (some (q, t)) l r =
    decimal_with (decimal_class_precision (max_int p q)) (decimal_scale_of operator s t)
decimal_arithmetic operator left right (some d) none l (some r) = some (canonical_decimal_type left)
decimal_arithmetic operator left right (some d) none l none =
    if is_float_operand right then some (named "Float64") else none
decimal_arithmetic operator left right none (some d) (some l) r =
    some (canonical_decimal_type right)
decimal_arithmetic operator left right none (some d) none r =
    if is_float_operand left then some (named "Float64") else none
decimal_arithmetic operator left right none none l r = none

abbrev pub is_number : ChType → Option IntegerClass → Bool
is_number operand (some class) = true
is_number operand none = is_float_operand operand

unfoldable pub float_arithmetic :
    String → ChType → ChType → Option IntegerClass → Option IntegerClass → Option ChType
float_arithmetic operator left right l r =
    if is_number left l && is_number right r
    then if (is_either "+" "-" operator || str_eq operator "*")
        && (is_wide_integer left || is_wide_integer right)
      then none
      else some (named "Float64")
    else none

unfoldable pub integer_result : String → IntegerClass → IntegerClass → Option IntegerClass
integer_result operator l r =
    if is_either "+" "*" operator
    then some
        (integer_class (is_signed l || is_signed r) (promoted_size (max_size (bytes l) (bytes r))))
    else if str_eq operator "-"
    then some (integer_class true (promoted_size (max_size (bytes l) (bytes r))))
    else if str_eq operator "%"
    then some (
        if is_signed l
        then integer_class true (promoted_size (bytes r))
        else integer_class false (bytes r))
    else none

abbrev pub named_class : Option IntegerClass → Option ChType
named_class none = none
named_class (some class) = some (named (class_name class))

unfoldable pub integer_arithmetic :
    String → Option IntegerClass → Option IntegerClass → Option ChType
unfolding integer_result
integer_arithmetic operator none r = none
integer_arithmetic operator (some l) none = none
integer_arithmetic operator (some l) (some r) =
    if str_eq operator "/"
    then some (named "Float64")
    else named_class (integer_result operator l r)

-- The rules for two operands that are no arrays.
unfoldable pub scalar_arithmetic : String → ChType → ChType → Option ChType
unfolding date_arithmetic decimal_arithmetic float_arithmetic integer_arithmetic
scalar_arithmetic operator left right =
    let l = integer_class_of left in
    let r = integer_class_of right in
    if is_date_operand left || is_date_operand right
    then date_arithmetic operator left right l r
    else if is_decimal_operand left || is_decimal_operand right
    then decimal_arithmetic operator left right (decimal_precision_scale left)
        (decimal_precision_scale right) l r
    else if is_float_operand left || is_float_operand right
    then float_arithmetic operator left right l r
    else integer_arithmetic operator l r

abbrev pub is_scaling : String → Bool
is_scaling operator = str_eq operator "*" || is_either "/" "%" operator

abbrev pub array_of : Option ChType → Option ChType
array_of none = none
array_of (some t) = some (wrap "Array" t)

abbrev pub is_nullable_operand : ChType → Bool
is_nullable_operand t = fold_eq (name t) "Nullable"

-- The elements of which the operator is computed, for the one or two arrays.
abbrev pub array_arithmetic :
    (ChType → ChType → Option ChType) → Bool → Bool → ChType → ChType → Option ChType
array_arithmetic again nullable allowed left right =
    if nullable || not allowed
    then none
    else if is_nullable_operand left || is_nullable_operand right
    then none
    else array_of (again left right)

abbrev pub put_nullable : Bool → Option ChType → Option ChType
put_nullable nullable none = none
put_nullable nullable (some t) = some (if nullable then wrap_nullable t else t)

-- The rules below the wrappers, by the elements of the two operands that are arrays.
abbrev pub by_elements :
    (ChType → ChType → Option ChType)
    → String
    → Bool
    → ChType
    → ChType
    → Option ChType
    → Option ChType
    → Option ChType
by_elements again operator nullable left right (some l) (some r) =
    array_arithmetic again nullable (is_either "+" "-" operator) l r
by_elements again operator nullable left right (some l) none =
    array_arithmetic again nullable (is_scaling operator) l right
by_elements again operator nullable left right none (some r) =
    array_arithmetic again nullable (is_scaling operator) left r
by_elements again operator nullable left right none none =
    put_nullable nullable (scalar_arithmetic operator left right)

abbrev pub below :
    (ChType → ChType → Option ChType) → String → ChType × Bool → ChType × Bool → Option ChType
below again operator (left, l) (right, r) =
    by_elements again operator (l || r) left right (unwrap_as "Array" left)
      (unwrap_as "Array" right)

-- The body of the function, in which `again` is the function itself.
unfoldable pub arithmetic_step :
    (ChType → ChType → Option ChType) → String → ChType → ChType → Option ChType
unfolding scalar_arithmetic
arithmetic_step again operator left right =
    below again operator (peel "Nullable" (simple_aggregate_inner_type left))
      (peel "Nullable" (simple_aggregate_inner_type right))

unfoldable pub arithmetic_fuel : ℕ → String → ChType → ChType → Option ChType
unfolding arithmetic_step
arithmetic_fuel zero operator left right = none
arithmetic_fuel (suc f) operator left right =
    arithmetic_step (arithmetic_fuel f operator) operator left right

-- `inferArithmeticResultType`
unfoldable pub infer_arithmetic_result_type : String → ChType → ChType → Option ChType
unfolding arithmetic_fuel
infer_arithmetic_result_type operator left right =
    arithmetic_fuel (size left + size right) operator left right

-- ===== src/Supertype/Step.antt =====
-- The body of `commonCHType` of internal/engine/supertype.go, in which `again` is the function
-- itself, `commonSimpleAggregateCHType` included.
use chgen.Base.{
  ℕ, zero, suc, ◌+◌, String, Bool, true, false, not, ◌&&◌, ◌||◌, Option, none, some, List, [], ◌∷◌,
  if◌then◌else◌, fold_eq, str_eq, ◌==◌, switch, Result, err, ok, ◌>>=◌,
}
use chgen.ChType.{
  ChType, ch_type, ChTypes, nil, cons, name, params, param_names, named, wrap, size, unwrap_as,
}
use chgen.ChType.{length as count}
use chgen.ChType.Text.{type_text}
use chgen.LowCardinality.{strip_deep}
use chgen.Transport.Marker.{simple_aggregate_wrapper_inner}
use chgen.Numeric.{NumericError, common_numeric}
use chgen.Supertype.Shapes.{
  no_params, is_node, common_with_null_literal, is_string_supertype_family, is_enum,
  enum_storage_integer, is_numeric, bool_as_uint8,
}
use chgen.Supertype.Decimals.{common_decimal_supertype, is_decimal_with_params}
use chgen.Supertype.Temporal.{common_temporal}
use chgen.Supertype.Compatible.{compatible_named_arg_types}

pub data SupertypeError : Type 0 where
  nullable_arguments : SupertypeError
  no_common : ChType → ChType → SupertypeError
  numeric_error : NumericError → SupertypeError
  out_of_fuel : SupertypeError

abbrev pub Common : Type 0
Common = Result SupertypeError ChType

abbrev pub same_text : ChType → ChType → Bool
same_text left right = str_eq (type_text left) (type_text right)

-- What a marker is compared by.
abbrev pub marked_inner : ChType → Option ChType → ChType
marked_inner value none = value
marked_inner value (some inner) = inner

abbrev pub nullable_peer : ChType → Option ChType → Bool
nullable_peer inner none = false
nullable_peer inner (some p) = same_text inner p

-- The rule by what the two markers hold; a marker on the right alone always drops.
abbrev pub marked_join :
    (ChType → ChType → Common) → ChType → ChType → Option ChType → Option ChType → Option Common
marked_join again left right none none = none
marked_join again left right none (some inner_right) = some (again left inner_right)
marked_join again left right (some inner) right_inner =
    let peer = marked_inner right right_inner in
    some (
      if same_text inner peer
      then ok left
      else if nullable_peer inner (unwrap_as "Nullable" peer)
      then ok (wrap "Nullable" left)
      else again inner right)

-- `none` where no operand is a SimpleAggregateFunction.
unfoldable pub common_simple_aggregate :
    (ChType → ChType → Common) → ChType → ChType → Option Common
common_simple_aggregate again left right =
    marked_join again left right (simple_aggregate_wrapper_inner left)
      (simple_aggregate_wrapper_inner right)

abbrev pub peeled : Option ChType → Result SupertypeError (ChType × Bool)
peeled none = err nullable_arguments
peeled (some t) = ok (t, true)

-- A type without its Nullable, and whether it had one.
unfoldable pub peel_nullable : ChType → Result SupertypeError (ChType × Bool)
peel_nullable value =
    if fold_eq (name value) "Nullable"
    then peeled (unwrap_as "Nullable" value)
    else ok (value, false)

abbrev pub as_integer : ChType → ChType
as_integer value = if is_enum value then enum_storage_integer value else value

-- An Enum against a type that is not its own: `none` where the pair is String, and the pair that
-- goes on otherwise.
unfoldable pub enum_join : ChType → ChType → Result SupertypeError (Option (ChType × ChType))
enum_join left right =
    if (is_enum left || is_enum right) && not (compatible_named_arg_types left right)
    then if is_string_supertype_family left || is_string_supertype_family right
      then ok none
      else if is_decimal_with_params (as_integer left) || is_decimal_with_params (as_integer right)
      then err (no_common (as_integer left) (as_integer right))
      else ok (some (as_integer left, as_integer right))
    else ok (some (left, right))

-- The elements of two containers of one length, joined in order.
unfoldable pub join_elements :
    (ChType → ChType → Common) → ChTypes → ChTypes → Result SupertypeError ChTypes
join_elements again (cons t ts) (cons u us) =
    again t u >>= λ v. join_elements again ts us >>= λ vs. ok (cons v vs)
join_elements again nil us = ok nil
join_elements again (cons t ts) nil = ok nil

-- As many pairs of names as elements, each of two equal names that are not empty.
unfoldable pub names_match : ℕ → List String → List String → Bool
names_match zero [] [] = true
names_match (suc n) (s ∷ ss) (t ∷ ts) = (not (str_eq s "") && str_eq s t) && names_match n ss ts
names_match _ _ _ = false

abbrev pub tuple_names : ChType → ChType → List String
tuple_names left right =
    if names_match (count (params left)) (param_names left) (param_names right)
    then param_names left
    else []

abbrev pub or_no_common : ChType → ChType → Option ChType → Common
or_no_common left right none = err (no_common left right)
or_no_common left right (some t) = ok t

abbrev pub numeric_common : Result NumericError ChType → Common
numeric_common (err e) = err (numeric_error e)
numeric_common (ok t) = ok t

abbrev pub both_are : (ChType → Bool) → ChType → ChType → Bool
both_are test left right = test left && test right

abbrev pub is_tuple_pair : ChType → ChType → Bool
is_tuple_pair left right =
    (fold_eq (name left) "Tuple" && fold_eq (name right) "Tuple")
    && (count (params left) == count (params right) && not (no_params (params left)))

abbrev pub container : (ChType → ChType → Common) → String → List String → ChType → ChType → Common
container again n names left right =
    join_elements again (params left) (params right) >>= λ ts. ok (ch_type n ts [] names)

abbrev pub other_cases : (ChType → ChType → Common) → ChType → ChType → List (Bool × Common)
other_cases again left right =
    (is_decimal_with_params left || is_decimal_with_params right, err (no_common left right))
    ∷ (both_are is_numeric left right, numeric_common (common_numeric left right))
    ∷ (both_are is_string_supertype_family left right, ok (named "String"))
    ∷ (both_are (is_node "Array" 1) left right, container again "Array" [] left right)
    ∷ (both_are (is_node "Map" 2) left right, container again "Map" [] left right)
    ∷ (is_tuple_pair left right, container again "Tuple" (tuple_names left right) left right)
    ∷ []

-- The cases after the Decimals.
unfoldable pub common_other : (ChType → ChType → Common) → ChType → ChType → Common
common_other again left right =
    switch (other_cases again left right) (or_no_common left right (common_temporal left right))

-- The switch, on two types without wrappers.
unfoldable pub common_bare : (ChType → ChType → Common) → ChType → ChType → Common
common_bare again left right =
    if same_text left right then ok left else elim (common_decimal_supertype left right) [
      | some t ↦ ok t
      | none ↦ common_other again left right
    ]

abbrev pub restore_bool : Bool → ChType → ChType
restore_bool was_bool result =
    if was_bool && (fold_eq (name result) "UInt8" && no_params (params result))
    then named "Bool"
    else result

abbrev pub restore_nullable : Bool → ChType → ChType
restore_nullable nullable result = if nullable then wrap "Nullable" result else result

abbrev pub is_bool : ChType → Bool
is_bool value = fold_eq (name value) "Bool"

abbrev pub common_or_string : (ChType → ChType → Common) → Bool → Option (ChType × ChType) → Common
common_or_string again was_bool none = ok (named "String")
common_or_string again was_bool (some (left, right)) =
    common_bare again left right >>= λ result. ok (restore_bool was_bool result)

-- The types below their Nullable.
unfoldable pub common_below : (ChType → ChType → Common) → ChType → ChType → Common
common_below again left right = enum_join (bool_as_uint8 left) (bool_as_uint8 right) >>= λ pair.
    common_or_string again (is_bool left || is_bool right) pair

unfoldable pub common_unmarked : (ChType → ChType → Common) → ChType → ChType → Common
common_unmarked again left right = peel_nullable left >>= λ l. peel_nullable right >>= λ r.
    common_below again l.0 r.0 >>= λ result. ok (restore_nullable (l.1 || r.1) result)

abbrev pub or_unmarked : (ChType → ChType → Common) → ChType → ChType → Option Common → Common
or_unmarked again left right none = common_unmarked again left right
or_unmarked again left right (some r) = r

-- The body on two types without LowCardinality.
unfoldable pub common_stripped : (ChType → ChType → Common) → ChType → ChType → Common
common_stripped again left right = elim (common_with_null_literal left right) [
  | some t ↦ ok t
  | none ↦ or_unmarked again left right (common_simple_aggregate again left right)
]

unfoldable pub common_fuel : ℕ → ChType → ChType → Common
common_fuel zero left right = err out_of_fuel
common_fuel (suc f) left right =
    common_stripped (common_fuel f) (strip_deep left) (strip_deep right)

-- `commonCHType`
unfoldable pub common_ch_type : ChType → ChType → Common
common_ch_type left right = common_fuel (size left + size right) left right

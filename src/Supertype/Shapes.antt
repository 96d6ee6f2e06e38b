-- ===== src/Supertype/Shapes.antt =====
-- The tests that branch supertypes make on one type, of internal/engine/supertype.go and, for
-- `numericCHType` and `isEnumTypeName`, of internal/engine/resolver.go and internal/engine/schema.go;
-- and the untyped NULL, `commonWithNullLiteral`.
use chgen.Base.{
  ℕ, Bool, true, false, not, ◌&&◌, ◌||◌, Option, none, some, List, [], ◌∷◌, String, ◌==◌,
  if◌then◌else◌, fold_eq, fold_in,
}
use chgen.ChType.{ChType, ChTypes, nil, cons, name, params, literal_params, named, length}
use chgen.Wrappers.{can_be_inside_nullable, wrap_nullable}

abbrev pub no_params : ChTypes → Bool
no_params nil = true
no_params (cons t ts) = false

abbrev pub is_empty : List String → Bool
is_empty [] = true
is_empty (s ∷ ss) = false

-- `strings.EqualFold(value.Name, n) && len(value.Params) == count`
unfoldable pub is_node : String → ℕ → ChType → Bool
is_node n count value = fold_eq (name value) n && length (params value) == count

abbrev first_is_nothing : ChTypes → Bool
first_is_nothing nil = false
first_is_nothing (cons t nil) = fold_eq (name t) "Nothing" && no_params (params t)
first_is_nothing (cons t (cons u us)) = false

unfoldable pub is_untyped_null : ChType → Bool
is_untyped_null value = fold_eq (name value) "Nullable" && first_is_nothing (params value)

-- The result where the rule handles the pair, which it does under both of its flags.
unfoldable pub common_with_null_literal : ChType → ChType → Option ChType
common_with_null_literal left right =
    if is_untyped_null left && is_untyped_null right
    then some left
    else if is_untyped_null left
    then (if not (can_be_inside_nullable right) then none else some (wrap_nullable right))
    else if is_untyped_null right
    then (if not (can_be_inside_nullable left) then none else some (wrap_nullable left))
    else none

unfoldable pub is_string_supertype_family : ChType → Bool
is_string_supertype_family value =
    fold_eq (name value) "String" || fold_eq (name value) "FixedString"

unfoldable pub is_float_name : String → Bool
is_float_name n = fold_eq n "Float32" || fold_eq n "Float64"

unfoldable pub is_enum_type_name : String → Bool
is_enum_type_name n = fold_in n ("enum" ∷ "enum8" ∷ "enum16" ∷ [])

unfoldable pub is_enum : ChType → Bool
is_enum value = is_enum_type_name (name value) && not (is_empty (literal_params value))

unfoldable pub enum_storage_integer : ChType → ChType
enum_storage_integer value = named (if fold_eq (name value) "Enum16" then "Int16" else "Int8")

abbrev numeric_names : List String
numeric_names =
    "uint8" ∷ "uint16" ∷ "uint32" ∷ "uint64" ∷ "uint128" ∷ "uint256" ∷ "int8" ∷ "int16" ∷ "int32"
    ∷ "int64" ∷ "int" ∷ "int128" ∷ "int256" ∷ "float32" ∷ "float64" ∷ "decimal" ∷ "decimal32"
    ∷ "decimal64" ∷ "decimal128" ∷ "decimal256" ∷ []

-- `numericCHType`
unfoldable pub is_numeric : ChType → Bool
is_numeric value = fold_in (name value) numeric_names && no_params (params value)

unfoldable pub bool_as_uint8 : ChType → ChType
bool_as_uint8 value =
    if fold_eq (name value) "Bool" && no_params (params value) then named "UInt8" else value

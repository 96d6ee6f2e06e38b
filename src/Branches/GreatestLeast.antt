-- ===== src/Branches/GreatestLeast.antt =====
-- `greatestLeastCommonCHTypes`, `greatestLeastSignedUInt64Pair`, `isBareSignedInteger` and
-- `isBareUnsignedCHType64` of internal/engine/supertype.go.
use chgen.Base.{
  String, Bool, ◌&&◌, ◌||◌, Option, none, some, List, [], ◌∷◌, if◌then◌else◌, fold_eq, fold_in,
  Result, ok,
}
use chgen.ChType.{ChType, name, params, named}
use chgen.Supertype.Shapes.{no_params}
use chgen.Branches.{ListError, common_ch_types}

unfoldable pub is_bare_signed_integer : ChType → Bool
is_bare_signed_integer value =
    no_params (params value)
    && fold_in (name value) ("int8" ∷ "int16" ∷ "int32" ∷ "int64" ∷ "int" ∷ [])

unfoldable pub is_bare_unsigned64 : ChType → Bool
is_bare_unsigned64 value = fold_eq (name value) "UInt64" && no_params (params value)

abbrev pub signed_pair : String → ChType → ChType
signed_pair function signed =
    if fold_eq (name signed) "Int64" || fold_eq (name signed) "Int"
    then named (if fold_eq function "least" then "Int64" else "UInt64")
    else named "Int128"

unfoldable pub greatest_least_pair : String → ChType → ChType → Option ChType
greatest_least_pair function left right =
    if is_bare_signed_integer left && is_bare_unsigned64 right
    then some (signed_pair function left)
    else if is_bare_signed_integer right && is_bare_unsigned64 left
    then some (signed_pair function right)
    else none

abbrev pub or_common : List ChType → Option ChType → Result ListError ChType
or_common types none = common_ch_types types
or_common types (some t) = ok t

unfoldable pub greatest_least_common : String → List ChType → Result ListError ChType
greatest_least_common function [] = common_ch_types []
greatest_least_common function (t ∷ []) = common_ch_types (t ∷ [])
greatest_least_common function (t ∷ u ∷ []) = or_common (t ∷ u ∷ []) (
    if fold_eq function "greatest" || fold_eq function "least"
    then greatest_least_pair function t u
    else none)
greatest_least_common function (t ∷ u ∷ v ∷ rest) = common_ch_types (t ∷ u ∷ v ∷ rest)

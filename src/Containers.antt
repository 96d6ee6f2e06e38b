-- ===== src/Containers.antt =====
-- Container constructors and accessors of internal/engine/supertype.go: the type of the members of a
-- container (`commonContainerMemberCHType`, `restoreContainerMemberLowCardinality`), array, map,
-- groupArray, tuple, arrayElement, mapKeys and mapValues.
pub mod Members
pub mod RoundTrip
pub mod Wrappers
use chgen.Base.{
  ℕ, suc, Bool, true, false, not, Option, none, some, List, [], ◌∷◌, ◌%◌, ◌==◌, if◌then◌else◌,
  fold_eq, String, length, Result, ok, err, ◌>>=◌, reject,
}
use chgen.ChType.{ChType, ch_type, ChTypes, nil, cons, name, params, wrap}
use chgen.ChType.{length as count}
use chgen.Wrappers.{split_ch_wrappers, can_be_inside_nullable, wrap_nullable}
use chgen.LowCardinality.{strip_nested, unwrap_low_cardinality}
use chgen.Transport.Marker.{read_simple_aggregate_value}
use chgen.Branches.{ListError, common_ch_types}
use chgen.Branches.GreatestLeast.{greatest_least_common}
use Members.{common_container_member}

pub data ContainerError : Type 0 where
  no_arguments odd_arguments : ContainerError
  member_error : ListError → ContainerError
  nullable_key : ChType → ContainerError
  not_nullable : ChType → ContainerError
  wrong_argument : ContainerError

abbrev pub of_member : Result ListError ChType → Result ContainerError ChType
of_member (err e) = err (member_error e)
of_member (ok t) = ok t

-- `arrayFunctionResult`
unfoldable pub array_function : List ChType → Result ContainerError ChType
array_function [] = err no_arguments
array_function (t ∷ ts) =
    of_member (common_container_member (t ∷ ts)) >>= λ element. ok (wrap "Array" element)

-- The arguments at even positions, and those at odd positions.
unfoldable pub keys_of : List ChType → List ChType
keys_of [] = []
keys_of (k ∷ []) = k ∷ []
keys_of (k ∷ v ∷ rest) = k ∷ keys_of rest

unfoldable pub values_of : List ChType → List ChType
values_of [] = []
values_of (k ∷ []) = []
values_of (k ∷ v ∷ rest) = v ∷ values_of rest

abbrev pub map_type : ChType → ChType → ChType
map_type key value = ch_type "Map" (cons key (cons value nil)) [] []

abbrev pub map_of : List ChType → List ChType → Result ContainerError ChType
map_of keys values = of_member (common_container_member keys) >>= λ key.
    reject (fold_eq (name (unwrap_low_cardinality key)) "Nullable") (nullable_key key)
      (of_member (common_container_member values) >>= λ value. ok (map_type key value))

-- `mapFunctionResult`
unfoldable pub map_function : List ChType → Result ContainerError ChType
unfolding keys_of values_of
map_function [] = err no_arguments
map_function (t ∷ ts) =
    reject (not (length (t ∷ ts) % 2 == 0)) odd_arguments
      (map_of (keys_of (t ∷ ts)) (values_of (t ∷ ts)))

-- `groupArrayElementType` and `groupArrayFunctionResult`
unfoldable pub group_array_element_type : List ChType → Result ContainerError ChType
group_array_element_type [] = err no_arguments
group_array_element_type (t ∷ ts) =
    ok (strip_nested (split_ch_wrappers (read_simple_aggregate_value t)).0)

unfoldable pub group_array_function : List ChType → Result ContainerError ChType
unfolding group_array_element_type
group_array_function args = group_array_element_type args >>= λ element. ok (wrap "Array" element)

abbrev to_params : List ChType → ChTypes
to_params [] = nil
to_params (t ∷ ts) = cons t (to_params ts)

-- `tupleFunctionResult`
unfoldable pub tuple_function : List ChType → Result ContainerError ChType
tuple_function [] = err no_arguments
tuple_function (t ∷ ts) = ok (ch_type "Tuple" (to_params (t ∷ ts)) [] [])

-- An element that a Nullable index, if there is one, may make Nullable.
abbrev pub at_index : ChType → List ChType → Result ContainerError ChType
at_index result [] = ok result
at_index result (index ∷ rest) =
    if (split_ch_wrappers index).1
    then reject (not (can_be_inside_nullable result)) (not_nullable result)
        (ok (wrap_nullable result))
    else ok result

abbrev pub array_element_of : ChType → ChTypes → List ChType → Result ContainerError ChType
array_element_of array (cons t nil) indices =
    if fold_eq (name array) "Array" then at_index (strip_nested t) indices else err wrong_argument
array_element_of array nil indices = err wrong_argument
array_element_of array (cons t (cons u us)) indices = err wrong_argument

-- `arrayElementFunctionResult`
unfoldable pub array_element_function : List ChType → Result ContainerError ChType
array_element_function [] = err no_arguments
array_element_function (array ∷ indices) = array_element_of array (params array) indices

abbrev pub map_part : (ChType → ChType → ChType) → ChType → ChTypes → Result ContainerError ChType
map_part pick map (cons k (cons v nil)) =
    if fold_eq (name map) "Map" then ok (wrap "Array" (pick k v)) else err wrong_argument
map_part pick map nil = err wrong_argument
map_part pick map (cons k nil) = err wrong_argument
map_part pick map (cons k (cons v (cons u us))) = err wrong_argument

-- `mapKeysFunctionResult` and `mapValuesFunctionResult`
unfoldable pub map_keys_function : List ChType → Result ContainerError ChType
map_keys_function [] = err no_arguments
map_keys_function (map ∷ rest) = map_part (λ k v. k) map (params map)

unfoldable pub map_values_function : List ChType → Result ContainerError ChType
map_values_function [] = err no_arguments
map_values_function (map ∷ rest) = map_part (λ k v. v) map (params map)

-- `supertypeLattice`
pub data SupertypeLattice : Type 0 where
  branch_lattice container_member_lattice greatest_least_lattice : SupertypeLattice

-- `resolveSupertypeLattice` of a named lattice
unfoldable pub resolve_supertype_lattice :
    SupertypeLattice → String → List ChType → Result ListError ChType
resolve_supertype_lattice branch_lattice function types = common_ch_types types
resolve_supertype_lattice container_member_lattice function types = common_container_member types
resolve_supertype_lattice greatest_least_lattice function types =
    greatest_least_common function types

-- ===== src/Tests/Branches.antt =====
-- The properties of branch supertypes and of containers, at concrete types.
use chgen.Base.{
  ◌≡◌, ◌≢◌, refl, ℕ, String, Bool, true, false, ◌||◌, none, some, any, List, [], ◌∷◌, All, AllOk,
  ok, err, all, fold_eq, fold_in, fold_switch,
}
use chgen.Base.Integers.{pos, atoi, itoa_int}
use chgen.ChType.{ChType, ch_type, nil, named, wrap, size, unwrap_as}
use chgen.ChType.Text.{type_text, join_texts}
use chgen.Wrappers.{split_ch_wrappers, peel, can_be_inside_nullable}
use chgen.LowCardinality.{
  strip_deep, strip_deep_fuel, map_params, map_types, unwrap_low_cardinality, has_low_cardinality,
}
use chgen.Transport.Marker.{simple_aggregate_wrapper_inner}
use chgen.Numeric.{common_numeric, numeric_info_for_type, join_info, numeric_type_name}
use chgen.MixedSign.{
  mixed_sign_integer_ch_types, collect, branch_info, integer_base, tally, count_bits, conclude,
}
use chgen.Supertype.Shapes.{
  is_node, is_untyped_null, common_with_null_literal, is_string_supertype_family, is_enum,
  is_enum_type_name, is_numeric, bool_as_uint8, is_float_name,
}
use chgen.Supertype.Decimals.{
  canonical_decimal_type, decimal_precision_scale, is_decimal_with_params, common_decimal_supertype,
}
use chgen.Supertype.Step.{
  out_of_fuel, common_simple_aggregate, peel_nullable, enum_join, join_elements, common_other,
  common_bare, common_below, common_unmarked, common_stripped, common_fuel, common_ch_type,
}
use chgen.Supertype.Fuel.{common_ch_type-Settled}
use chgen.Supertype.Free.{common_ch_type-IsFree}
use chgen.Supertype.Nullability.{is_nullable, Unmarked, common_ch_type-is_nullable}
use chgen.Branches.{common_ch_types, priority, of_rank, ordered, fold_types}
use chgen.Branches.DateTimes.{
  DateTimeBranch, date_time, precision, read_branch, date_time_branch, read_branches, render,
  conclude_branches, date_time_timezone_ch_types, max_precision, every_at, last_at,
}
use chgen.Branches.Free.{common_ch_types-IsFree}
use chgen.Branches.GreatestLeast.{greatest_least_common}
use chgen.Branches.Extension.{greatest_least-common_ch_types}
use chgen.Branches.Maximal.{AtMost}
use chgen.Branches.Zones.{
  Reads, branches, IsZone, date_time_type, date_time_timezone_ch_types-greatest,
}
use chgen.Containers.{map_type}
use chgen.Containers.Members.{is_low_cardinality, common_container_member}
use chgen.Containers.Wrappers.{common_container_member-is_low_cardinality}

abbrev low_text : ChType
low_text = wrap "LowCardinality" (named "String")

-- if(c, Array(LowCardinality(String)), Array(Nullable(String)))
abbrev left : ChType
left = wrap "Array" low_text

abbrev right : ChType
right = wrap "Array" (wrap "Nullable" (named "String"))

array_run : common_ch_type left right ≡ ok right
unfolding common_ch_type common_fuel common_stripped common_with_null_literal is_untyped_null
    can_be_inside_nullable fold_in fold_eq common_simple_aggregate simple_aggregate_wrapper_inner
    common_unmarked peel_nullable common_below enum_join is_enum is_enum_type_name bool_as_uint8
    common_bare type_text join_texts common_decimal_supertype decimal_precision_scale
    canonical_decimal_type fold_switch common_other is_decimal_with_params is_numeric
    is_string_supertype_family is_node join_elements strip_deep strip_deep_fuel map_params map_types
    unwrap_low_cardinality size unwrap_as
array_run = refl

common_ch_type-Settled_example : common_ch_type left right ≢ err out_of_fuel
common_ch_type-Settled_example = common_ch_type-Settled left right

common_ch_type-IsFree_example :
    AllOk (λ t. has_low_cardinality t ≡ false) (common_ch_type left right)
common_ch_type-IsFree_example = common_ch_type-IsFree left right

unmarked_text : Unmarked (strip_deep low_text)
unfolding strip_deep strip_deep_fuel map_params map_types unwrap_low_cardinality size
    simple_aggregate_wrapper_inner fold_eq
unmarked_text = refl

unmarked_null : Unmarked (strip_deep (wrap "Nullable" (named "String")))
unfolding strip_deep strip_deep_fuel map_params map_types unwrap_low_cardinality size
    simple_aggregate_wrapper_inner fold_eq
unmarked_null = refl

common_ch_type-is_nullable_example :
    AllOk
      (λ t. is_nullable t ≡ (
        is_nullable (strip_deep low_text)
        || is_nullable (strip_deep (wrap "Nullable" (named "String")))))
      (common_ch_type low_text (wrap "Nullable" (named "String")))
common_ch_type-is_nullable_example =
    common_ch_type-is_nullable low_text (wrap "Nullable" (named "String")) unmarked_text
      unmarked_null

text_first : simple_aggregate_wrapper_inner low_text ≡ none
unfolding simple_aggregate_wrapper_inner
text_first = refl

common_ch_types-IsFree_example :
    AllOk
      (λ t. has_low_cardinality t ≡ false)
      (common_ch_types (low_text ∷ wrap "Nullable" (named "String") ∷ []))
common_ch_types-IsFree_example =
    common_ch_types-IsFree low_text (wrap "Nullable" (named "String") ∷ []) text_first

int_run : common_ch_types (named "Int8" ∷ named "Int16" ∷ []) ≡ ok (named "Int16")
unfolding common_ch_types ordered of_rank priority fold_types mixed_sign_integer_ch_types collect
    branch_info integer_base tally count_bits conclude date_time_timezone_ch_types read_branches
    read_branch date_time_branch split_ch_wrappers peel common_ch_type common_fuel common_stripped
    common_with_null_literal is_untyped_null can_be_inside_nullable fold_in fold_eq
    common_simple_aggregate simple_aggregate_wrapper_inner common_unmarked peel_nullable
    common_below enum_join is_enum is_enum_type_name bool_as_uint8 common_bare type_text join_texts
    common_decimal_supertype decimal_precision_scale canonical_decimal_type fold_switch common_other
    is_decimal_with_params is_numeric is_float_name is_string_supertype_family is_node join_elements
    strip_deep strip_deep_fuel map_params map_types unwrap_low_cardinality size unwrap_as
    common_numeric numeric_info_for_type join_info numeric_type_name
int_run = refl

greatest_least-common_ch_types_example :
    greatest_least_common "greatest" (named "Int8" ∷ named "Int16" ∷ []) ≡ ok (named "Int16")
greatest_least-common_ch_types_example =
    greatest_least-common_ch_types "greatest" (named "Int8") (named "Int16") (named "Int16") int_run

abbrev date_time_in : String → ChType
date_time_in zone = ch_type "DateTime" nil (zone ∷ []) []

abbrev milli_in : String → ChType
milli_in zone = ch_type "DateTime64" nil ("3" ∷ zone ∷ []) []

-- Two precisions, the greater one in two timezones.
abbrev times : List ChType
times = date_time_in "UTC" ∷ milli_in "Asia/Tokyo" ∷ wrap "Nullable" (milli_in "Europe/Paris") ∷ []

abbrev later_times : List (DateTimeBranch × Bool)
later_times =
    (date_time (pos 3) "Asia/Tokyo", false) ∷ (date_time (pos 3) "Europe/Paris", true) ∷ []

times_read : Reads times ((date_time (pos 0) "UTC", false) ∷ later_times)
unfolding read_branch date_time_branch split_ch_wrappers peel strip_deep strip_deep_fuel map_params
    map_types unwrap_low_cardinality size unwrap_as fold_eq atoi
times_read = (refl, (refl, (refl, tt)))

times_run : date_time_timezone_ch_types times ≡ some (milli_in "Europe/Paris", true)
unfolding date_time_timezone_ch_types read_branches read_branch date_time_branch split_ch_wrappers
    peel strip_deep strip_deep_fuel map_params map_types unwrap_low_cardinality size unwrap_as
    fold_eq atoi conclude_branches max_precision every_at last_at render itoa_int
times_run = refl

-- One precision: the timezone of the first.
first_run :
    date_time_timezone_ch_types (milli_in "Asia/Tokyo" ∷ milli_in "UTC" ∷ [])
    ≡ some (milli_in "Asia/Tokyo", false)
unfolding date_time_timezone_ch_types read_branches read_branch date_time_branch split_ch_wrappers
    peel strip_deep strip_deep_fuel map_params map_types unwrap_low_cardinality size unwrap_as
    fold_eq atoi conclude_branches max_precision every_at last_at render itoa_int
first_run = refl

date_time_timezone_ch_types-greatest_example :
    (n : ℕ) × ((zone : String) × ((date_time_timezone_ch_types times
          ≡ some (
            date_time_type n zone,
            any (λ x. x.1) ((date_time (pos 0) "UTC", false) ∷ later_times),
          ))
        × All
            (λ c. AtMost n (precision c))
            (branches ((date_time (pos 0) "UTC", false) ∷ later_times))
        × IsZone n zone (branches ((date_time (pos 0) "UTC", false) ∷ later_times))))
date_time_timezone_ch_types-greatest_example =
    date_time_timezone_ch_types-greatest times (date_time (pos 0) "UTC", false) later_times
      times_read (tt, (tt, (tt, tt)))

abbrev pairs : List ChType
pairs = named "String" ∷ named "Int8" ∷ named "String" ∷ named "Int16" ∷ []

abbrev accepted : ChType
accepted = map_type (named "String") (named "Int16")

plain_first : simple_aggregate_wrapper_inner (unwrap_low_cardinality low_text) ≡ none
unfolding unwrap_low_cardinality simple_aggregate_wrapper_inner fold_eq
plain_first = refl

not_all : all is_low_cardinality (low_text ∷ named "String" ∷ []) ≡ false
unfolding is_low_cardinality unwrap_as fold_eq
not_all = refl

common_container_member-is_low_cardinality_example :
    AllOk
      (λ t. is_low_cardinality t ≡ false)
      (common_container_member (low_text ∷ named "String" ∷ []))
common_container_member-is_low_cardinality_example =
    common_container_member-is_low_cardinality low_text (named "String" ∷ []) plain_first not_all

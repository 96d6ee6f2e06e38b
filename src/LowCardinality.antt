-- ===== src/LowCardinality.antt =====
-- Removal of LowCardinality at every depth, which the engine writes twice: `stripNestedLowCardinality`
-- of internal/engine/arithmetic.go, for aggregates, by recursion on the type, and
-- `stripLowCardinalityDeep` of internal/engine/supertype.go, for branches, which first unwraps the
-- node in a loop and then maps over the parameters. The second is modelled with fuel, of which the
-- size of the type is enough.
pub mod Removal
use chgen.Base.{
  ℕ, zero, suc, Bool, true, false, not, ◌&&◌, ◌||◌, Option, none, some, if◌then◌else◌, fold_eq,
}
use chgen.ChType.{ChType, ch_type, ChTypes, nil, cons, size, unwrap_as}

-- `stripNestedLowCardinality`
unfoldable mutual
  pub strip_nested : ChType → ChType
  strip_nested (ch_type n nil ls ns) = ch_type n nil ls ns
  strip_nested (ch_type n (cons t nil) ls ns) =
      let inner = strip_nested t in
      if fold_eq n "LowCardinality" then inner else ch_type n (cons inner nil) ls ns
  strip_nested (ch_type n (cons t (cons u us)) ls ns) =
      ch_type n (cons (strip_nested t) (cons (strip_nested u) (strip_nested_all us))) ls ns

  pub strip_nested_all : ChTypes → ChTypes
  strip_nested_all nil = nil
  strip_nested_all (cons t ts) = cons (strip_nested t) (strip_nested_all ts)

-- The loop of `unwrapLowCardinality`.
unfoldable pub unwrap_low_cardinality : ChType → ChType
unwrap_low_cardinality (ch_type n nil ls ns) = ch_type n nil ls ns
unwrap_low_cardinality (ch_type n (cons t nil) ls ns) =
    let rest = unwrap_low_cardinality t in
    if fold_eq n "LowCardinality" then rest else ch_type n (cons t nil) ls ns
unwrap_low_cardinality (ch_type n (cons t (cons u us)) ls ns) = ch_type n (cons t (cons u us)) ls ns

unfoldable pub map_types : (ChType → ChType) → ChTypes → ChTypes
map_types f nil = nil
map_types f (cons t ts) = cons (f t) (map_types f ts)

-- A type with each of its parameters replaced.
unfoldable pub map_params : (ChType → ChType) → ChType → ChType
map_params f (ch_type n ps ls ns) = ch_type n (map_types f ps) ls ns

unfoldable pub strip_deep_fuel : ℕ → ChType → ChType
strip_deep_fuel zero value = value
strip_deep_fuel (suc f) value = map_params (strip_deep_fuel f) (unwrap_low_cardinality value)

-- `stripLowCardinalityDeep`
unfoldable pub strip_deep : ChType → ChType
strip_deep value = strip_deep_fuel (size value) value

-- Some node of the type is a LowCardinality wrapper.
unfoldable mutual
  pub has_low_cardinality : ChType → Bool
  has_low_cardinality (ch_type n nil ls ns) = false
  has_low_cardinality (ch_type n (cons t nil) ls ns) =
      fold_eq n "LowCardinality" || has_low_cardinality t
  has_low_cardinality (ch_type n (cons t (cons u us)) ls ns) =
      has_low_cardinality t || (has_low_cardinality u || have_low_cardinality us)

  pub have_low_cardinality : ChTypes → Bool
  have_low_cardinality nil = false
  have_low_cardinality (cons t ts) = has_low_cardinality t || have_low_cardinality ts

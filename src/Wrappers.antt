-- ===== src/Wrappers.antt =====
-- The two wrappers around a type, LowCardinality(Nullable(X)): `splitCHWrappers`, `applyCHWrappers`
-- and `canBeInsideNullable` of internal/engine/arithmetic.go, `wrapNullable`,
-- `resultRejectsLowCardinality` and `wrapLowCardinality` of internal/engine/wrapper_transport.go.
pub mod RoundTrip
use chgen.Base.{
  String, Bool, true, false, not, ◌||◌, Option, none, some, List, [], ◌∷◌, if◌then◌else◌, fold_eq,
  fold_in,
}
use chgen.ChType.{ChType, name, wrap, unwrap_as}

-- One step of a split: the parameter if the node is the wrapper `w`, and whether it was one.
unfoldable pub peel : String → ChType → ChType × Bool
peel w t = elim (unwrap_as w t) [ some p ↦ (p, true) | none ↦ (t, false) ]

-- The base, whether it was Nullable, whether it was LowCardinality.
unfoldable pub split_ch_wrappers : ChType → ChType × Bool × Bool
split_ch_wrappers value =
    let (inner, low_cardinality) = peel "LowCardinality" value in
    let (base, nullable) = peel "Nullable" inner in (base, nullable, low_cardinality)

abbrev pub nullable_rejected_names : List String
nullable_rejected_names =
    "array" ∷ "map" ∷ "tuple" ∷ "aggregatefunction" ∷ "dynamic" ∷ "variant" ∷ "point" ∷ "ring"
    ∷ "linestring" ∷ "polygon" ∷ "multilinestring" ∷ "multipolygon" ∷ []

unfoldable pub can_be_inside_nullable : ChType → Bool
can_be_inside_nullable base = not (fold_in (name base) nullable_rejected_names)

unfoldable pub wrap_nullable : ChType → ChType
wrap_nullable value =
    if fold_eq (name value) "Nullable" || not (can_be_inside_nullable value)
    then value
    else wrap "Nullable" value

abbrev pub low_cardinality_rejected_result_names : List String
low_cardinality_rejected_result_names =
    "decimal" ∷ "datetime64" ∷ "enum" ∷ "enum8" ∷ "enum16" ∷ "array" ∷ "tuple" ∷ "map" ∷ []

unfoldable pub result_rejects_low_cardinality : ChType → Bool
result_rejects_low_cardinality base =
    fold_in (name (peel "Nullable" base).0) low_cardinality_rejected_result_names

unfoldable pub wrap_low_cardinality : ChType → ChType
wrap_low_cardinality base =
    if fold_eq (name base) "LowCardinality" || result_rejects_low_cardinality base
    then base
    else wrap "LowCardinality" base

unfoldable pub apply_ch_wrappers : ChType → Bool → Bool → ChType
apply_ch_wrappers base nullable low_cardinality =
    let result = if nullable then wrap_nullable base else base in
    if low_cardinality then wrap_low_cardinality result else result

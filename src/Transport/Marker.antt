-- ===== src/Transport/Marker.antt =====
-- The SimpleAggregateFunction(f, X) marker: `simpleAggregateWrapperInner`,
-- `simpleAggregateMarkerSurvives` and its value-preserving twin, `readSimpleAggregateValue` of
-- internal/engine/supertype.go.
use chgen.Base.{
  Bool, not, Option, none, some, List, [], ◌∷◌, if◌then◌else◌, fold_eq, fold_in, String,
}
use chgen.ChType.{ChType, ch_type, nil, cons, name}
use chgen.Wrappers.{peel}

unfoldable pub simple_aggregate_wrapper_inner : ChType → Option ChType
simple_aggregate_wrapper_inner (ch_type n (cons f (cons t nil)) ls ns) =
    if fold_eq n "SimpleAggregateFunction" then some t else none
simple_aggregate_wrapper_inner (ch_type n nil ls ns) = none
simple_aggregate_wrapper_inner (ch_type n (cons f nil) ls ns) = none
simple_aggregate_wrapper_inner (ch_type n (cons f (cons t (cons u us))) ls ns) = none

abbrev pub composite_names : List String
composite_names = "Nullable" ∷ "LowCardinality" ∷ "Array" ∷ "Map" ∷ "Tuple" ∷ []

unfoldable pub simple_aggregate_marker_survives : ChType → Bool
simple_aggregate_marker_survives inner = not (fold_in (name inner) composite_names)

unfoldable pub marker_survives_value_preserving : ChType → Bool
marker_survives_value_preserving inner = simple_aggregate_marker_survives (peel "Nullable" inner).0

unfoldable pub read_simple_aggregate_value : ChType → ChType
read_simple_aggregate_value value = elim (simple_aggregate_wrapper_inner value) [
  | none ↦ value
  | some inner ↦ if simple_aggregate_marker_survives inner then value else inner
]

-- ===== src/Transport/Classes.antt =====
-- The transports of the wrapper classes and of the measured exceptions that read no argument domain:
-- `transportForClass`, `nullIfTransport`, `logicOperatorTransport`, `caseFoldingTransport`,
-- `windowValuePreservingTransport` and the marker conditions of
-- internal/engine/wrapper_transport.go.
use chgen.Base.{Bool, true, false, Option, none, some, List, [], ◌∷◌}
use chgen.ChType.{ChType, ChTypes, nil, cons, params}
use chgen.Transport.{WrapperStack}
use chgen.Transport.Marker.{simple_aggregate_marker_survives, marker_survives_value_preserving}
use chgen.Transport.Result.{drop, keep, conditional, add, WrapperCall, WrapperTransport}

-- `wrapper.Params[1]`, if the marker has two parameters.
unfoldable pub second_of_two : ChTypes → Option ChType
second_of_two (cons f (cons t nil)) = some t
second_of_two nil = none
second_of_two (cons f nil) = none
second_of_two (cons f (cons t (cons u us))) = none

-- The walk of `callMarkerInner`: the first stack with a marker decides.
unfoldable pub marker_inner : List WrapperStack → Option ChType
marker_inner [] = none
marker_inner (s ∷ rest) = elim s.simple_aggregate [
  | none ↦ marker_inner rest
  | some marker ↦ second_of_two (params marker.wrapper)
]

unfoldable pub call_marker_inner : WrapperCall → Option ChType
call_marker_inner call = marker_inner call.stacks

unfoldable pub call_marker_inner_satisfies : WrapperCall → (ChType → Bool) → Bool
call_marker_inner_satisfies call survives = elim (call_marker_inner call) [
  | none ↦ false
  | some inner ↦ survives inner
]

unfoldable pub call_keeps_simple_aggregate_marker : WrapperCall → Bool
call_keeps_simple_aggregate_marker call =
    call_marker_inner_satisfies call simple_aggregate_marker_survives

unfoldable pub call_keeps_value_preserving_scalar_marker : WrapperCall → Bool
call_keeps_value_preserving_scalar_marker call =
    call_marker_inner_satisfies call marker_survives_value_preserving

pub data FunctionWrapperClass : Type 0 where
  unset opaque transparent aggregate : FunctionWrapperClass

abbrev pub opaque_transport : WrapperTransport
opaque_transport = record {
  low_cardinality = drop;
  low_cardinality_when = none;
  nullable = drop;
  nullable_when = none;
  simple_aggregate = drop;
  simple_aggregate_when = none;
  strip_nested = false;
}

abbrev pub transparent_transport : WrapperTransport
transparent_transport = record opaque_transport { low_cardinality = conditional; nullable = keep }

abbrev pub aggregate_transport : WrapperTransport
aggregate_transport = record opaque_transport {
  nullable = keep;
  simple_aggregate = conditional;
  simple_aggregate_when = some call_keeps_simple_aggregate_marker;
  strip_nested = true;
}

-- `none` where the source panics.
unfoldable pub transport_for_class : FunctionWrapperClass → Option WrapperTransport
transport_for_class unset = none
transport_for_class opaque = some opaque_transport
transport_for_class transparent = some transparent_transport
transport_for_class aggregate = some aggregate_transport

abbrev pub null_if_transport : WrapperTransport
null_if_transport = record opaque_transport {
  low_cardinality = conditional;
  nullable = add;
  simple_aggregate = conditional;
  simple_aggregate_when = some call_keeps_value_preserving_scalar_marker;
}

abbrev pub logic_operator_transport : WrapperTransport
logic_operator_transport = record opaque_transport { nullable = keep }

abbrev pub case_folding_transport : WrapperTransport
case_folding_transport = record opaque_transport {
  low_cardinality = keep;
  nullable = keep;
  simple_aggregate = conditional;
  simple_aggregate_when = some call_keeps_simple_aggregate_marker;
}

abbrev pub window_value_preserving_transport : WrapperTransport
window_value_preserving_transport = record opaque_transport {
  nullable = keep;
  simple_aggregate = conditional;
  simple_aggregate_when = some call_keeps_value_preserving_scalar_marker;
  strip_nested = true;
}

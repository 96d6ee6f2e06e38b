-- ===== src/Transport.antt =====
-- Wrapper transport of internal/engine/wrapper_transport.go: the stack of wrappers around a type,
-- its split and its rebuilding. The parts are in the modules below: `Marker` has the tests on a
-- SimpleAggregateFunction(f, X) marker, `Result` the stack of a call's result.
pub mod Marker
pub mod Result
pub mod Classes
pub mod RoundTrip
pub mod Aggregates
pub mod Sources
pub mod NullIf
use chgen.Base.{Bool, true, false, ◌&&◌, ◌||◌, Option, none, some, if◌then◌else◌}
use chgen.ChType.{ChType, ch_type, ChTypes, nil, cons}
use chgen.Wrappers.{peel, wrap_nullable, wrap_low_cardinality}
use Marker.{simple_aggregate_wrapper_inner}

-- A SimpleAggregateFunction wrapper, and what stood between it and the base.
pub record SimpleAggregateWrapper : Type 0 where
  pub wrapper : ChType
  pub inner_nullable : Bool
  pub inner_low_cardinality : Bool

pub record WrapperStack : Type 0 where
  pub low_cardinality : Bool
  pub nullable : Bool
  pub outer_nullable : Bool
  pub simple_aggregate : Option SimpleAggregateWrapper

abbrev pub empty_stack : WrapperStack
empty_stack = record {
  low_cardinality = false;
  nullable = false;
  outer_nullable = false;
  simple_aggregate = none;
}

-- `inner` is the second parameter of the marker `marker`.
unfoldable pub split_marker : ChType → ChType → Bool → Bool → ChType × WrapperStack
split_marker marker inner low_cardinality nullable =
    let (below, inner_low_cardinality) = peel "LowCardinality" inner in
    let (base, inner_nullable) = peel "Nullable" below in
    (
      base,
      record {
        low_cardinality = low_cardinality || inner_low_cardinality;
        nullable = nullable || inner_nullable;
        outer_nullable = nullable;
        simple_aggregate = some (record {
          wrapper = marker;
          inner_nullable = inner_nullable;
          inner_low_cardinality = inner_low_cardinality;
        });
      },
    )

unfoldable pub split_base : ChType → Bool → Bool → ChType × WrapperStack
split_base base nullable low_cardinality = elim (simple_aggregate_wrapper_inner base) [
  | none ↦ (
    base,
    record {
      low_cardinality = low_cardinality;
      nullable = nullable;
      outer_nullable = nullable;
      simple_aggregate = none;
    },
  )
  | some inner ↦ split_marker base inner low_cardinality nullable
]

unfoldable pub split_wrapper_stack : ChType → ChType × WrapperStack
split_wrapper_stack value =
    let (below, low_cardinality) = peel "LowCardinality" value in
    let (base, nullable) = peel "Nullable" below in split_base base nullable low_cardinality

-- `params[1] = inner` on a copy of the parameters. A stored marker has two, so the write is in range.
unfoldable pub set_second : ChTypes → ChType → ChTypes
set_second nil inner = nil
set_second (cons t nil) inner = cons t nil
set_second (cons t (cons u us)) inner = cons t (cons inner us)

unfoldable pub rebuild_marker : ChType → ChType → ChType
rebuild_marker (ch_type n ps ls ns) inner = ch_type n (set_second ps inner) ls ns

-- The Nullable and then the LowCardinality of `applyWrapperStack`, inside the marker or outside it.
unfoldable pub put_around : ChType → Bool → Bool → ChType
put_around result nullable low_cardinality =
    let with_null = if nullable then wrap_nullable result else result in
    if low_cardinality then wrap_low_cardinality with_null else with_null

unfoldable pub apply_wrapper_stack : ChType → WrapperStack → ChType
apply_wrapper_stack base stack = elim stack.simple_aggregate [
  | none ↦ put_around base stack.nullable stack.low_cardinality
  | some marker ↦
      let null_inside = stack.nullable && marker.inner_nullable in
      let low_inside = stack.low_cardinality && marker.inner_low_cardinality in
      let inner = put_around base null_inside low_inside in
      put_around (rebuild_marker marker.wrapper inner)
        (if null_inside then stack.outer_nullable else stack.nullable)
        (if low_inside then false else stack.low_cardinality)
]

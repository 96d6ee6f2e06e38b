-- ===== src/Transport/Result.antt =====
-- The stack of a call's result: `wrapperTransport`, `keeps`, `resultStack`,
-- `withResolvedLowCardinality` and `applyWrapperTransport`.
use chgen.Base.{
  ℕ, Bool, true, false, not, ◌&&◌, ◌||◌, Option, none, some, List, [], ◌∷◌, if◌then◌else◌,
}
use chgen.ChType.{ChType}
use chgen.LowCardinality.{strip_nested}
use chgen.Transport.{SimpleAggregateWrapper, WrapperStack, empty_stack, apply_wrapper_stack}

pub data Disposition : Type 0 where
  drop keep conditional add : Disposition

pub record WrapperCall : Type 0 where
  pub base : ChType
  pub stacks : List WrapperStack
  pub arg_count : ℕ

-- `none` is a nil condition.
abbrev pub Condition : Type 0
Condition = Option (WrapperCall → Bool)

pub record WrapperTransport : Type 0 where
  pub low_cardinality : Disposition
  pub low_cardinality_when : Condition
  pub nullable : Disposition
  pub nullable_when : Condition
  pub simple_aggregate : Disposition
  pub simple_aggregate_when : Condition
  pub strip_nested : Bool

unfoldable pub holds : Condition → WrapperCall → Bool
holds none call = false
holds (some when) call = when call

unfoldable pub keeps : Disposition → Condition → WrapperCall → Bool
keeps Disposition.keep when call = true
keeps Disposition.add when call = true
keeps Disposition.conditional when call = holds when call
keeps Disposition.drop when call = false

-- The first marker that is present.
unfoldable pub first_marker :
    Option SimpleAggregateWrapper → Option SimpleAggregateWrapper → Option SimpleAggregateWrapper
first_marker (some m) later = some m
first_marker none later = later

-- One round of the loop that combines the stacks of the arguments, and the loop.
unfoldable pub join_stack : WrapperStack → WrapperStack → WrapperStack
join_stack acc s = record {
  low_cardinality = acc.low_cardinality || s.low_cardinality;
  nullable = acc.nullable || s.nullable;
  outer_nullable = acc.outer_nullable || s.outer_nullable;
  simple_aggregate = first_marker acc.simple_aggregate s.simple_aggregate;
}

unfoldable pub combine : WrapperStack → List WrapperStack → WrapperStack
combine acc [] = acc
combine acc (s ∷ rest) = combine (join_stack acc s) rest

unfoldable pub adds : Disposition → Bool
adds Disposition.add = true
adds _ = false

unfoldable pub marker_carries_inner_nullable : WrapperStack → Bool
marker_carries_inner_nullable stack = elim stack.simple_aggregate [
  | none ↦ false
  | some marker ↦ marker.inner_nullable
]

unfoldable pub result_stack : WrapperTransport → WrapperCall → WrapperStack
result_stack transport call =
    let combined = combine empty_stack call.stacks in
    let null =
      (combined.nullable || adds transport.nullable)
      && keeps transport.nullable transport.nullable_when call in
    record {
      low_cardinality =
          combined.low_cardinality
          && keeps transport.low_cardinality transport.low_cardinality_when call;
      nullable = null;
      outer_nullable =
          null
          && (combined.outer_nullable
              || (adds transport.nullable && not (marker_carries_inner_nullable combined)));
      simple_aggregate =
          if keeps transport.simple_aggregate transport.simple_aggregate_when call
          then combined.simple_aggregate
          else none;
    }

unfoldable pub with_resolved_low_cardinality : WrapperTransport → Bool → WrapperTransport
with_resolved_low_cardinality transport kept = elim transport.low_cardinality [
  | conditional ↦ record transport {
    low_cardinality = if kept then Disposition.keep else Disposition.drop;
    low_cardinality_when = none;
  }
  | _ ↦ transport
]

unfoldable pub apply_wrapper_transport : ChType → WrapperTransport → WrapperCall → ChType
apply_wrapper_transport result transport call =
    let stack = result_stack transport call in
    let bare =
      if transport.strip_nested && not stack.low_cardinality then strip_nested result else result in
    apply_wrapper_stack bare stack

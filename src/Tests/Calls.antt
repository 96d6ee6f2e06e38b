-- ===== src/Tests/Calls.antt =====
-- The properties of the transport of a call, at concrete calls.
use chgen.Base.{◌≡◌, refl, true, false, some, [], ◌∷◌, fold_eq, fold_in}
use chgen.ChType.{ChType, named, wrap}
use chgen.Wrappers.{can_be_inside_nullable, wrap_nullable}
use chgen.Wrappers.RoundTrip.{IsBare}
use chgen.LowCardinality.{has_low_cardinality}
use chgen.Transport.{
  SimpleAggregateWrapper, WrapperStack, empty_stack, apply_wrapper_stack, put_around,
  rebuild_marker, set_second,
}
use chgen.Transport.Marker.{simple_aggregate_marker_survives}
use chgen.Transport.Result.{
  WrapperCall, keeps, adds, combine, join_stack, holds, first_marker, result_stack,
  apply_wrapper_transport,
}
use chgen.Transport.Classes.{
  aggregate_transport, case_folding_transport, call_keeps_simple_aggregate_marker,
  call_marker_inner_satisfies, call_marker_inner, marker_inner, second_of_two,
}
use chgen.Transport.RoundTrip.{layer, marked}
use chgen.Transport.Aggregates.{apply_wrapper_transport-free}
use chgen.Transport.NullIf.{null_if, null_if-marked}

abbrev number : ChType
number = named "UInt64"

abbrev any_last : SimpleAggregateWrapper
any_last = record {
  wrapper = marked (named "anyLast") (wrap "LowCardinality" number);
  inner_nullable = false;
  inner_low_cardinality = true;
}

abbrev marked_argument : WrapperStack
marked_argument = record empty_stack { low_cardinality = true; simple_aggregate = some any_last }

abbrev nullable_argument : WrapperStack
nullable_argument = record empty_stack { nullable = true; outer_nullable = true }

-- A call of one argument under a marker and one Nullable argument.
abbrev two_arguments : WrapperCall
two_arguments = record {
  base = number;
  stacks = marked_argument ∷ nullable_argument ∷ [];
  arg_count = 2;
}

any_last_free : has_low_cardinality (named "anyLast") ≡ false
unfolding has_low_cardinality
any_last_free = refl

apply_wrapper_transport-free_example :
    has_low_cardinality (
      apply_wrapper_transport
        (wrap "Array" (wrap "LowCardinality" number))
        aggregate_transport
        two_arguments)
    ≡ false
apply_wrapper_transport-free_example =
    apply_wrapper_transport-free (wrap "Array" (wrap "LowCardinality" number)) aggregate_transport
      two_arguments refl refl (any_last_free, (tt, tt))

abbrev any_text : SimpleAggregateWrapper
any_text = record {
  wrapper = marked (named "any") (named "String");
  inner_nullable = false;
  inner_low_cardinality = false;
}

-- A call of one argument under a marker without LowCardinality and one Nullable argument.
abbrev text_arguments : WrapperCall
text_arguments = record {
  base = named "String";
  stacks = record empty_stack { simple_aggregate = some any_text } ∷ nullable_argument ∷ [];
  arg_count = 2;
}

-- This transport keeps the marker of its argument.
text_kept :
    apply_wrapper_transport (named "String") case_folding_transport text_arguments
    ≡ wrap "Nullable" (marked (named "any") (named "String"))
unfolding apply_wrapper_transport result_stack keeps holds adds combine join_stack first_marker
    apply_wrapper_stack put_around rebuild_marker set_second wrap_nullable can_be_inside_nullable
    fold_in fold_eq call_keeps_simple_aggregate_marker call_marker_inner_satisfies call_marker_inner
    marker_inner second_of_two simple_aggregate_marker_survives
text_kept = refl

two_nullable : (result_stack aggregate_transport two_arguments).nullable ≡ true
unfolding result_stack keeps adds combine join_stack
two_nullable = refl

number_bare : IsBare number
unfolding fold_eq
number_bare = record { not_low_cardinality = refl; not_nullable = refl }

number_fits : can_be_inside_nullable number ≡ true
unfolding can_be_inside_nullable fold_in fold_eq
number_fits = refl

number_survives : simple_aggregate_marker_survives number ≡ true
unfolding simple_aggregate_marker_survives fold_in fold_eq
number_survives = refl

null_if-marked_example :
    null_if (marked (named "sum") (layer "Nullable" true number))
    ≡ layer "Nullable" false (marked (named "sum") (layer "Nullable" true number))
null_if-marked_example =
    null_if-marked true (named "sum") number number_bare number_fits number_survives

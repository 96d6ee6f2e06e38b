-- ===== src/Transport/NullIf.antt =====
-- nullIf over a SimpleAggregateFunction marker.
use chgen.Base.{◌≡◌, refl, ◌∙◌, Bool, true, false, not, some, [], ◌∷◌}
use chgen.ChType.{ChType}
use chgen.Wrappers.{can_be_inside_nullable}
use chgen.Wrappers.RoundTrip.{IsBare, wrap_nullable-eq-wrap}
use chgen.Transport.{
  WrapperStack, split_wrapper_stack, apply_wrapper_stack, rebuild_marker, set_second, put_around,
}
use chgen.Transport.Marker.{simple_aggregate_marker_survives, marker_survives_value_preserving}
use chgen.Transport.Result.{
  result_stack, apply_wrapper_transport, with_resolved_low_cardinality, keeps, holds, adds, combine,
  join_stack, first_marker, marker_carries_inner_nullable,
}
use chgen.Transport.Classes.{
  null_if_transport, call_keeps_value_preserving_scalar_marker, call_marker_inner_satisfies,
  call_marker_inner, marker_inner, second_of_two,
}
use chgen.Transport.RoundTrip.{
  layer, marked, peel-layer, marked_legal, split-marked, split-wrapped, marked_bare,
}

abbrev marker_stack : Bool → ChType → ChType → WrapperStack
marker_stack null f core = record {
  low_cardinality = false;
  nullable = null;
  outer_nullable = false;
  simple_aggregate = some (record {
    wrapper = marked f (layer "Nullable" null core);
    inner_nullable = null;
    inner_low_cardinality = false;
  });
}

-- The type of `nullIf(value, other)` that the transport gives, at a marker around `inner`.
abbrev pub null_if : ChType → ChType
null_if value =
    let (base, stack) = split_wrapper_stack value in
    apply_wrapper_transport base (with_resolved_low_cardinality null_if_transport false)
      (record { base = base; stacks = stack ∷ []; arg_count = 2 })

survives-layer :
    (null : Bool) (core : ChType)
    → IsBare core
    → marker_survives_value_preserving (layer "Nullable" null core)
      ≡ simple_aggregate_marker_survives core
unfolding marker_survives_value_preserving
survives-layer null core b = rw (peel-layer null core b)

split_of_marked :
    (null : Bool) (f core : ChType)
    → IsBare core
    → split_wrapper_stack (marked f (layer "Nullable" null core)) ≡ (core, marker_stack null f core)
split_of_marked null f core b =
    split-wrapped false false (marked f (layer "Nullable" null core))
      (marked_bare f (layer "Nullable" null core))
    ∙ split-marked false false false null f core b

result_of_marked :
    (null : Bool) (f core : ChType)
    → marker_survives_value_preserving (layer "Nullable" null core) ≡ true
    → result_stack
        (with_resolved_low_cardinality null_if_transport false)
        (record { base = core; stacks = marker_stack null f core ∷ []; arg_count = 2 })
      ≡ record (marker_stack null f core) { nullable = true; outer_nullable = not null }
unfolding result_stack with_resolved_low_cardinality keeps holds adds combine join_stack
    first_marker marker_carries_inner_nullable call_keeps_value_preserving_scalar_marker
    call_marker_inner_satisfies call_marker_inner marker_inner second_of_two
result_of_marked true f core h = rw h
result_of_marked false f core h = rw h

rebuilt :
    (null : Bool) (f core : ChType)
    → IsBare core
    → can_be_inside_nullable core ≡ true
    → apply_wrapper_stack core
        (record (marker_stack null f core) { nullable = true; outer_nullable = not null })
      ≡ layer "Nullable" (not null) (marked f (layer "Nullable" null core))
unfolding apply_wrapper_stack rebuild_marker set_second put_around
rebuilt true f core b fits = rw (wrap_nullable-eq-wrap core b.not_nullable fits)
rebuilt false f core b fits =
    let l = marked_legal false true f core in
    wrap_nullable-eq-wrap (marked f core) l.bare.not_nullable (l.null_fits refl)

-- Over a marker of a bare scalar that can be Nullable, `nullIf` puts a Nullable around the marker;
-- over a marker whose inner type is Nullable already it gives the marker back unchanged.
pub null_if-marked :
    (null : Bool) (f core : ChType)
    → IsBare core
    → can_be_inside_nullable core ≡ true
    → simple_aggregate_marker_survives core ≡ true
    → null_if (marked f (layer "Nullable" null core))
      ≡ layer "Nullable" (not null) (marked f (layer "Nullable" null core))
unfolding apply_wrapper_transport with_resolved_low_cardinality
null_if-marked null f core b fits survives =
    rw
      (
        split_of_marked null f core b,
        result_of_marked null f core (survives-layer null core b ∙ survives),
      )
      (rebuilt null f core b fits)

-- ===== src/Transport/Aggregates.antt =====
-- An aggregate's result keeps no LowCardinality, at any depth and through any marker.
use chgen.Base.{
  ◌≡◌, refl, Bool, true, false, ◌&&◌, Option, none, some, List, [], ◌∷◌, arith, if◌then◌else◌, All,
}
use chgen.ChType.{ChType, ch_type, nil, cons}
use chgen.Wrappers.{wrap_nullable}
use chgen.Wrappers.RoundTrip.{nullable_ne_low_cardinality}
use chgen.LowCardinality.{strip_nested, has_low_cardinality}
use chgen.LowCardinality.Removal.{has_low_cardinality-strip_nested}
use chgen.Transport.{
  SimpleAggregateWrapper, WrapperStack, empty_stack, set_second, rebuild_marker, put_around,
  apply_wrapper_stack,
}
use chgen.Transport.Result.{
  drop, WrapperTransport, WrapperCall, keeps, first_marker, join_stack, combine, result_stack,
  apply_wrapper_transport,
}

-- A node of two parameters, the first of which, the aggregate's name, holds no LowCardinality.
abbrev pub HasFreeFunction : ChType → Type 0
HasFreeFunction (ch_type n nil ls ns) = ⊥
HasFreeFunction (ch_type n (cons f nil) ls ns) = ⊥
HasFreeFunction (ch_type n (cons f (cons t nil)) ls ns) = has_low_cardinality f ≡ false
HasFreeFunction (ch_type n (cons f (cons t (cons u us))) ls ns) = ⊥

abbrev pub MarkerIsFree : Option SimpleAggregateWrapper → Type 0
MarkerIsFree none = Unit
MarkerIsFree (some marker) = HasFreeFunction marker.wrapper

first_marker-MarkerIsFree :
    (a b : Option SimpleAggregateWrapper)
    → MarkerIsFree a
    → MarkerIsFree b
    → MarkerIsFree (first_marker a b)
unfolding first_marker
first_marker-MarkerIsFree none b h k = k
first_marker-MarkerIsFree (some m) b h k = h

pub combine-MarkerIsFree :
    (acc : WrapperStack) (stacks : List WrapperStack)
    → MarkerIsFree acc.simple_aggregate
    → All (λ s. MarkerIsFree s.simple_aggregate) stacks
    → MarkerIsFree (combine acc stacks).simple_aggregate
unfolding combine join_stack
combine-MarkerIsFree acc [] h k = h
combine-MarkerIsFree acc (s ∷ rest) h k =
    combine-MarkerIsFree (join_stack acc s) rest
      (first_marker-MarkerIsFree acc.simple_aggregate s.simple_aggregate h k.0) k.1

pub wrap_nullable-free :
    (t : ChType) → has_low_cardinality t ≡ false → has_low_cardinality (wrap_nullable t) ≡ false
unfolding wrap_nullable has_low_cardinality
wrap_nullable-free t h = ground (arith, nullable_ne_low_cardinality)

put_around-free :
    (t : ChType) (null : Bool)
    → has_low_cardinality t ≡ false
    → has_low_cardinality (put_around t null false) ≡ false
unfolding put_around
put_around-free t true h = wrap_nullable-free t h
put_around-free t false h = h

rebuild_marker-free :
    (marker inner : ChType)
    → HasFreeFunction marker
    → has_low_cardinality inner ≡ false
    → has_low_cardinality (rebuild_marker marker inner) ≡ false
unfolding rebuild_marker set_second has_low_cardinality
rebuild_marker-free (ch_type n nil ls ns) inner h k = absurd h
rebuild_marker-free (ch_type n (cons f nil) ls ns) inner h k = absurd h
rebuild_marker-free (ch_type n (cons f (cons t nil)) ls ns) inner h k = rw (h, k)
rebuild_marker-free (ch_type n (cons f (cons t (cons u us))) ls ns) inner h k = absurd h

pub apply_wrapper_stack-free :
    (base : ChType) (null outer : Bool) (marker : Option SimpleAggregateWrapper)
    → has_low_cardinality base ≡ false
    → MarkerIsFree marker
    → has_low_cardinality (
        apply_wrapper_stack base (record {
          low_cardinality = false;
          nullable = null;
          outer_nullable = outer;
          simple_aggregate = marker;
        }))
      ≡ false
unfolding apply_wrapper_stack
apply_wrapper_stack-free base null outer none h k = put_around-free base null h
apply_wrapper_stack-free base null outer (some m) h k =
    put_around-free _ _
      (rebuild_marker-free m.wrapper _ k (put_around-free base (null && m.inner_nullable) h))

pub kept_marker :
    (kept : Bool) (m : Option SimpleAggregateWrapper)
    → MarkerIsFree m
    → MarkerIsFree (if kept then m else none)
kept_marker true m h = h
kept_marker false m h = tt

and_false : (b : Bool) → (b && false) ≡ false
and_false true = refl
and_false false = refl

-- A transport that drops LowCardinality and strips nested wrappers gives a result with no
-- LowCardinality at any depth, whatever the bare result type, the arguments' wrappers and the other
-- dispositions, if the aggregate's name in each argument's marker holds none.
pub apply_wrapper_transport-free :
    (result : ChType) (t : WrapperTransport) (call : WrapperCall)
    → t.low_cardinality ≡ drop
    → t.strip_nested ≡ true
    → All (λ s. MarkerIsFree s.simple_aggregate) call.stacks
    → has_low_cardinality (apply_wrapper_transport result t call) ≡ false
unfolding apply_wrapper_transport result_stack keeps
apply_wrapper_transport-free result t call dropped strips free =
    let combined = combine empty_stack call.stacks in
    simp (dropped, strips, and_false)
      (apply_wrapper_stack-free (strip_nested result) _ _ _
        (has_low_cardinality-strip_nested result)
        (kept_marker (keeps t.simple_aggregate t.simple_aggregate_when call)
          combined.simple_aggregate (combine-MarkerIsFree empty_stack call.stacks tt free)))

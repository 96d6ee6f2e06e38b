-- ===== src/Transport/RoundTrip.antt =====
-- `applyWrapperStack` undoes `splitWrapperStack` on the types that the server can have.
use chgen.Base.{
  ◌≡◌, refl, ◌∙◌, Bool, true, false, ◌&&◌, ◌||◌, none, some, fold_eq, fold_eq_refl, if◌then◌else◌,
  [], String, fold_in,
}
use chgen.ChType.{ChType, ch_type, nil, cons, wrap, unwrap_as}
use chgen.Wrappers.{peel, can_be_inside_nullable, result_rejects_low_cardinality}
use chgen.Wrappers.RoundTrip.{
  IsBare, peel_other, peel-wrap, nullable_ne_low_cardinality, wrap_nullable-eq-wrap,
  wrap_low_cardinality-eq-wrap, result_rejects_low_cardinality-wrap,
}
use chgen.Transport.{
  split_base, split_marker, split_wrapper_stack, set_second, rebuild_marker, put_around,
  apply_wrapper_stack,
}
use chgen.Transport.Marker.{simple_aggregate_wrapper_inner}

-- The node `w` around a type, or nothing.
abbrev pub layer : String → Bool → ChType → ChType
layer w true t = wrap w t
layer w false t = t

-- LowCardinality(Nullable(core)), each wrapper as asked for
abbrev pub wrapped : Bool → Bool → ChType → ChType
wrapped low null core = layer "LowCardinality" low (layer "Nullable" null core)

-- SimpleAggregateFunction(f, inner)
abbrev pub marked : ChType → ChType → ChType
marked f inner = ch_type "SimpleAggregateFunction" (cons f (cons inner nil)) [] []

-- The server has the type `wrapped low null core`.
pub record IsLegal (low null : Bool) (core : ChType) : Type 0 where
  pub bare : IsBare core
  pub null_fits : null ≡ true → can_be_inside_nullable core ≡ true
  pub low_fits : low ≡ true → result_rejects_low_cardinality core ≡ false

pub peel-layer :
    (null : Bool) (core : ChType)
    → IsBare core
    → peel "Nullable" (layer "Nullable" null core) ≡ (core, null)
peel-layer true core b = peel-wrap "Nullable" core (fold_eq_refl "Nullable")
peel-layer false core b = peel_other "Nullable" core b.not_nullable

pub peel-wrapped :
    (low null : Bool) (core : ChType)
    → IsBare core
    → peel "LowCardinality" (wrapped low null core) ≡ (layer "Nullable" null core, low)
peel-wrapped true null core b =
    peel-wrap "LowCardinality" (layer "Nullable" null core) (fold_eq_refl "LowCardinality")
peel-wrapped false true core b =
    peel_other "LowCardinality" (wrap "Nullable" core) nullable_ne_low_cardinality
peel-wrapped false false core b = peel_other "LowCardinality" core b.not_low_cardinality

pub put_around-eq-wrapped :
    (low null : Bool) (core : ChType)
    → IsLegal low null core
    → put_around core null low ≡ wrapped low null core
unfolding put_around
put_around-eq-wrapped false false core l = refl
put_around-eq-wrapped false true core l =
    wrap_nullable-eq-wrap core l.bare.not_nullable (l.null_fits refl)
put_around-eq-wrapped true false core l =
    wrap_low_cardinality-eq-wrap core l.bare.not_low_cardinality (l.low_fits refl)
put_around-eq-wrapped true true core l =
    rw (wrap_nullable-eq-wrap core l.bare.not_nullable (l.null_fits refl)) (
      wrap_low_cardinality-eq-wrap (wrap "Nullable" core) nullable_ne_low_cardinality
        (result_rejects_low_cardinality-wrap core l.bare ∙ l.low_fits refl))

pub split-wrapped :
    (low null : Bool) (core : ChType)
    → IsBare core
    → split_wrapper_stack (wrapped low null core) ≡ split_base core null low
unfolding split_wrapper_stack
split-wrapped low null core b =
    rw (peel-wrapped low null core b, split_wrapper_stack) (rw (peel-layer null core b))

-- The wrapper stack of a type with no SimpleAggregateFunction marker rebuilds the type, if the
-- server can have it.
pub apply-split_plain :
    (low null : Bool) (core : ChType)
    → IsLegal low null core
    → simple_aggregate_wrapper_inner core ≡ none
    → let value = wrapped low null core in
      apply_wrapper_stack (split_wrapper_stack value).0 (split_wrapper_stack value).1 ≡ value
unfolding split_base apply_wrapper_stack
apply-split_plain low null core l h =
    rw (split-wrapped low null core l.bare, h, split_base) (put_around-eq-wrapped low null core l)

pub marked_bare : (f inner : ChType) → IsBare (marked f inner)
unfolding fold_eq
marked_bare f inner = record { not_low_cardinality = refl; not_nullable = refl }

marked_inner : (f inner : ChType) → simple_aggregate_wrapper_inner (marked f inner) ≡ some inner
unfolding simple_aggregate_wrapper_inner fold_eq
marked_inner f inner = refl

pub marked_legal : (low null : Bool) (f inner : ChType) → IsLegal low null (marked f inner)
unfolding can_be_inside_nullable result_rejects_low_cardinality peel unwrap_as fold_in fold_eq
marked_legal low null f inner = record {
  bare = marked_bare f inner;
  null_fits = λ _. refl;
  low_fits = λ _. refl;
}

and_absorb : (a b : Bool) → ((a || b) && b) ≡ b
and_absorb true b = refl
and_absorb false true = refl
and_absorb false false = refl

outside_null : (null inner : Bool) → (if inner then null else null || inner) ≡ null
outside_null null true = refl
outside_null true false = refl
outside_null false false = refl

outside_low :
    (low inner : Bool) → (low && inner) ≡ false → (if inner then false else low || inner) ≡ low
outside_low true true h = cc
outside_low false true h = refl
outside_low true false h = refl
outside_low false false h = refl

pub split-marked :
    (low null inner_low inner_null : Bool) (f core : ChType)
    → IsBare core
    → split_base (marked f (wrapped inner_low inner_null core)) null low ≡ (
      core,
      record {
        low_cardinality = low || inner_low;
        nullable = null || inner_null;
        outer_nullable = null;
        simple_aggregate = some (record {
          wrapper = marked f (wrapped inner_low inner_null core);
          inner_nullable = inner_null;
          inner_low_cardinality = inner_low;
        });
      },
    )
unfolding split_marker split_base
split-marked low null inner_low inner_null f core b =
    rw (marked_inner f (wrapped inner_low inner_null core), split_base)
      (rw (peel-wrapped inner_low inner_null core b) (rw (peel-layer inner_null core b)))

pub rebuild_marked :
    (low null inner_low inner_null : Bool) (f core : ChType)
    → IsLegal inner_low inner_null core
    → (low && inner_low) ≡ false
    → apply_wrapper_stack core (record {
      low_cardinality = low || inner_low;
      nullable = null || inner_null;
      outer_nullable = null;
      simple_aggregate = some (record {
        wrapper = marked f (wrapped inner_low inner_null core);
        inner_nullable = inner_null;
        inner_low_cardinality = inner_low;
      });
    })
      ≡ wrapped low null (marked f (wrapped inner_low inner_null core))
unfolding apply_wrapper_stack rebuild_marker set_second
rebuild_marked low null inner_low inner_null f core l h = simp (
  and_absorb,
  outside_null,
  outside_low low inner_low h,
  put_around-eq-wrapped inner_low inner_null core l,
  put_around-eq-wrapped low null (marked f (wrapped inner_low inner_null core))
      (marked_legal low null f (wrapped inner_low inner_null core)),
)

-- The wrapper stack of a type with a marker rebuilds it, with each Nullable and LowCardinality where
-- it stood, unless there is a LowCardinality both around the marker and inside it.
pub apply-split_marked :
    (low null inner_low inner_null : Bool) (f core : ChType)
    → IsLegal inner_low inner_null core
    → (low && inner_low) ≡ false
    → let value = wrapped low null (marked f (wrapped inner_low inner_null core)) in
      apply_wrapper_stack (split_wrapper_stack value).0 (split_wrapper_stack value).1 ≡ value
apply-split_marked low null inner_low inner_null f core l h =
    let inner = wrapped inner_low inner_null core in
    rw
      (
        split-wrapped low null (marked f inner) (marked_bare f inner),
        split-marked low null inner_low inner_null f core l.bare,
      )
      (rebuild_marked low null inner_low inner_null f core l h)

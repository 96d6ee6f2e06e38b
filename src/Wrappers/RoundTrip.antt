-- ===== src/Wrappers/RoundTrip.antt =====
-- Splitting what `applyCHWrappers` built.
use chgen.Base.{◌≡◌, refl, Bool, true, false, not, ◌&&◌, arith, fold_eq, fold_eq_refl, String}
use chgen.ChType.{ChType, name, wrap}
use chgen.ChType.Nodes.{unwrap_as-none, unwrap_as-wrap}
use chgen.Wrappers.{
  peel, split_ch_wrappers, can_be_inside_nullable, wrap_nullable, result_rejects_low_cardinality,
  wrap_low_cardinality, apply_ch_wrappers,
}

-- No transport wrapper at the head.
pub record IsBare (t : ChType) : Type 0 where
  pub not_low_cardinality : fold_eq (name t) "LowCardinality" ≡ false
  pub not_nullable : fold_eq (name t) "Nullable" ≡ false

pub peel_other : (w : String) (t : ChType) → fold_eq (name t) w ≡ false → peel w t ≡ (t, false)
unfolding peel
peel_other w t h = rw (unwrap_as-none w t h, peel)

pub peel-wrap : (w : String) (t : ChType) → fold_eq w w ≡ true → peel w (wrap w t) ≡ (t, true)
unfolding peel
peel-wrap w t h = rw (unwrap_as-wrap w w t h, peel)

-- `wrapNullable` on a bare type adds the wrapper exactly where the server accepts it.
pub peel-wrap_nullable :
    (t : ChType) → IsBare t → peel "Nullable" (wrap_nullable t) ≡ (t, can_be_inside_nullable t)
unfolding wrap_nullable
peel-wrap_nullable t b =
    ground (arith, peel_other "Nullable" t, peel-wrap "Nullable" t, fold_eq_refl "Nullable")

pub peel-wrap_low_cardinality :
    (t : ChType)
    → fold_eq (name t) "LowCardinality" ≡ false
    → peel "LowCardinality" (wrap_low_cardinality t) ≡ (t, not (result_rejects_low_cardinality t))
unfolding wrap_low_cardinality
peel-wrap_low_cardinality t h = ground (
  arith,
  peel_other "LowCardinality" t,
  peel-wrap "LowCardinality" t,
  fold_eq_refl "LowCardinality",
)

-- The server decides on the inner type, so a Nullable does not change what LowCardinality accepts.
pub result_rejects_low_cardinality-wrap_nullable :
    (t : ChType)
    → IsBare t
    → result_rejects_low_cardinality (wrap_nullable t) ≡ result_rejects_low_cardinality t
unfolding result_rejects_low_cardinality
result_rejects_low_cardinality-wrap_nullable t b =
    rw (peel-wrap_nullable t b, peel_other "Nullable" t b.not_nullable)

pub nullable_ne_low_cardinality : fold_eq "Nullable" "LowCardinality" ≡ false
unfolding fold_eq
nullable_ne_low_cardinality = refl

name-wrap_nullable :
    (t : ChType) → IsBare t → fold_eq (name (wrap_nullable t)) "LowCardinality" ≡ false
unfolding wrap_nullable
name-wrap_nullable t b = ground (arith, nullable_ne_low_cardinality)

pub wrap_nullable-eq-wrap :
    (t : ChType)
    → fold_eq (name t) "Nullable" ≡ false
    → can_be_inside_nullable t ≡ true
    → wrap_nullable t ≡ wrap "Nullable" t
unfolding wrap_nullable
wrap_nullable-eq-wrap t h k = ground arith

pub wrap_low_cardinality-eq-wrap :
    (t : ChType)
    → fold_eq (name t) "LowCardinality" ≡ false
    → result_rejects_low_cardinality t ≡ false
    → wrap_low_cardinality t ≡ wrap "LowCardinality" t
unfolding wrap_low_cardinality
wrap_low_cardinality-eq-wrap t h k = ground arith

pub result_rejects_low_cardinality-wrap :
    (t : ChType)
    → IsBare t
    → result_rejects_low_cardinality (wrap "Nullable" t) ≡ result_rejects_low_cardinality t
unfolding result_rejects_low_cardinality
result_rejects_low_cardinality-wrap t b =
    rw (peel-wrap "Nullable" t (fold_eq_refl "Nullable"), peel_other "Nullable" t b.not_nullable)

-- What a split finds in a type that `applyCHWrappers` built around a bare base: the base, a
-- Nullable where it was asked for and the base can be inside one, and a LowCardinality where it was
-- asked for and the base is of an accepted family.
pub split-apply :
    (base : ChType) (nullable low_cardinality : Bool)
    → IsBare base
    → split_ch_wrappers (apply_ch_wrappers base nullable low_cardinality) ≡ (
      base,
      nullable && can_be_inside_nullable base,
      low_cardinality && not (result_rejects_low_cardinality base),
    )
unfolding split_ch_wrappers apply_ch_wrappers
split-apply base false false b = simp (
  peel_other "LowCardinality" base b.not_low_cardinality,
  peel_other "Nullable" base b.not_nullable,
)
split-apply base true false b = simp (
  peel_other "LowCardinality" (wrap_nullable base) (name-wrap_nullable base b),
  peel-wrap_nullable base b,
)
split-apply base false true b = simp (
  peel-wrap_low_cardinality base b.not_low_cardinality,
  peel_other "Nullable" base b.not_nullable,
)
split-apply base true true b = simp (
  peel-wrap_low_cardinality (wrap_nullable base) (name-wrap_nullable base b),
  peel-wrap_nullable base b,
  result_rejects_low_cardinality-wrap_nullable base b,
)

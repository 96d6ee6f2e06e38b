-- ===== src/LowCardinality/Removal.antt =====
-- Both removals leave no wrapper, and they are one function.
use chgen.Base.{
  ◌≡◌, refl, ◌∙◌, ℕ, zero, suc, ◌≤◌, false, Bool-cases, or-eq-false, inl, inr, arith, fold_eq,
}
use chgen.ChType.{ChType, ch_type, ChTypes, nil, cons, size, sizes}
use chgen.LowCardinality.{
  strip_nested, strip_nested_all, unwrap_low_cardinality, map_types, map_params, strip_deep_fuel,
  strip_deep, has_low_cardinality, have_low_cardinality,
}

mutual
  unfolding strip_nested has_low_cardinality

  strip_nested_free : (t : ChType) → has_low_cardinality (strip_nested t) ≡ false
  strip_nested_free (ch_type n nil ls ns) = refl
  strip_nested_free (ch_type n (cons t nil) ls ns) = ground (arith, strip_nested_free t)
  strip_nested_free (ch_type n (cons t (cons u us)) ls ns) =
      rw (strip_nested_free t, strip_nested_free u, strip_nested_all_free us)

  strip_nested_all_free : (ts : ChTypes) → have_low_cardinality (strip_nested_all ts) ≡ false
  strip_nested_all_free nil = refl
  strip_nested_all_free (cons t ts) = rw (strip_nested_free t, strip_nested_all_free ts)

mutual
  unfolding strip_nested has_low_cardinality

  strip_nested_keeps : (t : ChType) → has_low_cardinality t ≡ false → strip_nested t ≡ t
  strip_nested_keeps (ch_type n nil ls ns) h = refl
  strip_nested_keeps (ch_type n (cons t nil) ls ns) h = ground (arith, strip_nested_keeps t)
  strip_nested_keeps (ch_type n (cons t (cons u us)) ls ns) h =
      let (a, rest) = or-eq-false _ _ h in
      let (b, c) = or-eq-false _ _ rest in
      rw (strip_nested_keeps t a, strip_nested_keeps u b, strip_nested_all_keeps us c)

  strip_nested_all_keeps :
      (ts : ChTypes) → have_low_cardinality ts ≡ false → strip_nested_all ts ≡ ts
  strip_nested_all_keeps nil h = refl
  strip_nested_all_keeps (cons t ts) h =
      let (a, b) = or-eq-false _ _ h in rw (strip_nested_keeps t a, strip_nested_all_keeps ts b)

-- `stripNestedLowCardinality` leaves no LowCardinality wrapper at any depth.
pub has_low_cardinality-strip_nested : (t : ChType) → has_low_cardinality (strip_nested t) ≡ false
has_low_cardinality-strip_nested t = strip_nested_free t

-- `stripNestedLowCardinality` changes no type that has no LowCardinality wrapper.
pub strip_nested-eq_self : (t : ChType) → has_low_cardinality t ≡ false → strip_nested t ≡ t
strip_nested-eq_self t h = strip_nested_keeps t h

map_types-strip_nested : (ts : ChTypes) → map_types strip_nested ts ≡ strip_nested_all ts
unfolding map_types strip_nested
map_types-strip_nested nil = refl
map_types-strip_nested (cons t ts) = rw (map_types-strip_nested ts)

strip_nested-unwrap :
    (t : ChType) → map_params strip_nested (unwrap_low_cardinality t) ≡ strip_nested t
unfolding strip_nested unwrap_low_cardinality map_params map_types
strip_nested-unwrap (ch_type n nil ls ns) = refl
strip_nested-unwrap (ch_type n (cons t nil) ls ns) =
    elim (Bool-cases (fold_eq n "LowCardinality")) [
      | inl e ↦ rw e (strip_nested-unwrap t)
      | inr e ↦ rw e
    ]
strip_nested-unwrap (ch_type n (cons t (cons u us)) ls ns) = rw (map_types-strip_nested us)

size-unwrap : (t : ChType) → size (unwrap_low_cardinality t) ≤ size t
unfolding size unwrap_low_cardinality
size-unwrap (ch_type n nil ls ns) = omega arith
size-unwrap (ch_type n (cons t nil) ls ns) = ground (arith, size-unwrap t)
size-unwrap (ch_type n (cons t (cons u us)) ls ns) = omega arith

-- A map over the parameters reads its function only at smaller types.
map_types_agree :
    (f : ℕ) (h : (t : ChType) → size t ≤ f → strip_deep_fuel f t ≡ strip_nested t) (ts : ChTypes)
    → sizes ts ≤ f
    → map_types (strip_deep_fuel f) ts ≡ map_types strip_nested ts
unfolding map_types size
map_types_agree f h nil le = refl
map_types_agree f h (cons t ts) le = rw (h t (omega arith), map_types_agree f h ts (omega arith))

map_params_agree :
    (f : ℕ) (h : (t : ChType) → size t ≤ f → strip_deep_fuel f t ≡ strip_nested t) (t : ChType)
    → size t ≤ suc f
    → map_params (strip_deep_fuel f) t ≡ map_params strip_nested t
unfolding map_params size
map_params_agree f h (ch_type n ps ls ns) le = rw (map_types_agree f h ps (omega arith))

strip_deep_fuel-enough : (f : ℕ) (t : ChType) → size t ≤ f → strip_deep_fuel f t ≡ strip_nested t
unfolding strip_deep_fuel
strip_deep_fuel-enough zero (ch_type n ps ls ns) le = absurd (unfold size in omega arith)
strip_deep_fuel-enough (suc f) t le =
    map_params_agree f (strip_deep_fuel-enough f) (unwrap_low_cardinality t)
      (omega (arith, size-unwrap t))
    ∙ strip_nested-unwrap t

-- The removal for branches and the removal for aggregates are one function on types, and the fuel
-- of the first is enough.
pub strip_deep-eq-strip_nested : (t : ChType) → strip_deep t ≡ strip_nested t
unfolding strip_deep
strip_deep-eq-strip_nested t = strip_deep_fuel-enough (size t) t (omega arith)

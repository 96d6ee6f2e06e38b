-- ===== src/Supertype/Fuel.antt =====
-- The recursion of `commonCHType` ends: the fuel that the definition starts with is never used up.
use chgen.Base.{
  ◌≢◌, refl, ℕ, zero, suc, ◌+◌, ◌≤◌, ◌<◌, Bool, true, false, Option, none, some, List, [], arith,
  if◌then◌else◌, ok, err, AllOk-ok, String, subst,
}
use chgen.ChType.{ChType, ChTypes, nil, cons, params, wrap, size, sizes}
use chgen.LowCardinality.{strip_deep}
use chgen.Numeric.{common_numeric}
use chgen.Supertype.Shapes.{common_with_null_literal, bool_as_uint8}
use chgen.Supertype.Decimals.{common_decimal_supertype}
use chgen.Supertype.Sizes.{
  size-pos, size-strip_deep, sizes-params, sizes-cons, IsPart, marked-IsPart, size-bool_as_uint8,
  size-peel_nullable, IsWithin, enum_join-IsWithin,
}
use chgen.Supertype.Temporal.{common_temporal}
use chgen.Supertype.Step.{
  out_of_fuel, Common, same_text, marked_join, common_simple_aggregate, peel_nullable, enum_join,
  join_elements, or_no_common, container, other_cases, common_other, common_bare, common_or_string,
  common_below, common_unmarked, or_unmarked, common_stripped, common_fuel, common_ch_type,
  tuple_names,
}
use chgen.Supertype.Agree.{
  Settled, Agree, Agree-bind, or_no_common-Settled, numeric_common-Settled, peel_nullable-Settled,
  enum_join-Settled, AgreeBelow, Agree-switch,
}

module _ (n : ℕ) (f g : ChType → ChType → Common) (agree : AgreeBelow n f g) where
  elements-Agree :
      (ts us : ChTypes)
      → sizes ts + sizes us < n
      → Agree (join_elements f ts us) (join_elements g ts us)
  unfolding join_elements
  elements-Agree nil us le = (refl, tt)
  elements-Agree (cons t ts) nil le = (refl, tt)
  elements-Agree (cons t ts) (cons u us) le =
      let whole = sizes-cons t ts in
      let other = sizes-cons u us in
      Agree-bind (f t u) (g t u) _ _ (agree t u (omega arith)) (λ v e.
        Agree-bind (join_elements f ts us) (join_elements g ts us) _ _
          (elements-Agree ts us (omega arith)) (λ vs e. (refl, tt)))

  container-agrees :
      (c : String) (names : List String) (l r : ChType)
      → size l + size r ≤ n
      → Agree (container f c names l r) (container g c names l r)
  container-agrees c names l r le =
      Agree-bind (join_elements f (params l) (params r)) (join_elements g (params l) (params r)) _ _
        (elements-Agree (params l) (params r) (omega (arith, sizes-params l, sizes-params r)))
        (λ vs e. (refl, tt))

  other-agrees :
      (l r : ChType) → size l + size r ≤ n → Agree (common_other f l r) (common_other g l r)
  unfolding common_other
  other-agrees l r le =
      Agree-switch (other_cases f l r) (other_cases g l r) (or_no_common l r (common_temporal l r))
        (
          refl,
          (refl, tt),
          (
            refl,
            (refl, numeric_common-Settled (common_numeric l r)),
            (
              refl,
              (refl, tt),
              (
                refl,
                container-agrees "Array" [] l r le,
                (
                  refl,
                  container-agrees "Map" [] l r le,
                  (refl, container-agrees "Tuple" (tuple_names l r) l r le, tt),
                ),
              ),
            ),
          ),
        )
        (or_no_common-Settled l r (common_temporal l r))

  bare-agrees : (l r : ChType) → size l + size r ≤ n → Agree (common_bare f l r) (common_bare g l r)
  unfolding common_bare
  bare-agrees l r le = go (same_text l r) (common_decimal_supertype l r)
    where
      go :
          (b : Bool) (o : Option ChType)
          → Agree
              (if b then ok l else elim o [ some t ↦ ok t | none ↦ common_other f l r ])
              (if b then ok l else elim o [ some t ↦ ok t | none ↦ common_other g l r ])
      go true o = (refl, tt)
      go false (some t) = (refl, tt)
      go false none = other-agrees l r le

  or_string-agrees :
      (b : Bool) (o : Option (ChType × ChType)) (l r : ChType)
      → IsWithin l r o
      → size l + size r ≤ n
      → Agree (common_or_string f b o) (common_or_string g b o)
  or_string-agrees b none l r h le = (refl, tt)
  or_string-agrees b (some (t, u)) l r h le =
      Agree-bind (common_bare f t u) (common_bare g t u) _ _ (bare-agrees t u (omega arith))
        (λ v e. (refl, tt))

  below-agrees :
      (l r : ChType) → size l + size r ≤ n → Agree (common_below f l r) (common_below g l r)
  unfolding common_below
  below-agrees l r le =
      let t = bool_as_uint8 l in
      let u = bool_as_uint8 r in
      Agree-bind (enum_join t u) (enum_join t u) _ _ (refl, enum_join-Settled t u)
        (λ pair e.
          or_string-agrees _ pair t u
            (AllOk-ok (IsWithin t u) (enum_join t u) (enum_join-IsWithin t u) e)
            (omega (arith, size-bool_as_uint8 l, size-bool_as_uint8 r)))

  unmarked-agrees :
      (l r : ChType) → size l + size r ≤ n → Agree (common_unmarked f l r) (common_unmarked g l r)
  unfolding common_unmarked
  unmarked-agrees l r le =
      Agree-bind (peel_nullable l) (peel_nullable l) _ _ (refl, peel_nullable-Settled l)
        (λ p e.
          Agree-bind (peel_nullable r) (peel_nullable r) _ _ (refl, peel_nullable-Settled r)
            (λ q h.
              let a =
                AllOk-ok (λ (p : ChType × Bool). size p.0 ≤ size l) _ (size-peel_nullable l) e in
              let b =
                AllOk-ok (λ (p : ChType × Bool). size p.0 ≤ size r) _ (size-peel_nullable r) h in
              Agree-bind (common_below f p.0 q.0) (common_below g p.0 q.0) _ _
                (below-agrees p.0 q.0 (omega arith)) (λ t e. (refl, tt))))

  marker-agrees :
      (l r : ChType) (m o : Option ChType)
      → IsPart l m
      → IsPart r o
      → size l + size r ≤ n
      → Agree
          (or_unmarked f l r (marked_join f l r m o))
          (or_unmarked g l r (marked_join g l r m o))
  marker-agrees l r none none h k le = unmarked-agrees l r le
  marker-agrees l r none (some b) h k le = agree l b (omega arith)
  marker-agrees l r (some a) o h k le = go _ _
    where
      go :
          (b c : Bool)
          → Agree
              (if b then ok l else if c then ok (wrap "Nullable" l) else f a r)
              (if b then ok l else if c then ok (wrap "Nullable" l) else g a r)
      go true c = (refl, tt)
      go false true = (refl, tt)
      go false false = agree a r (omega arith)

  stripped-agrees :
      (l r : ChType) → size l + size r ≤ n → Agree (common_stripped f l r) (common_stripped g l r)
  unfolding common_stripped common_simple_aggregate
  stripped-agrees l r le = go (common_with_null_literal l r)
    where
      go :
          (o : Option ChType)
          → Agree
              (elim o [ some t ↦ ok t | none ↦ or_unmarked f l r (common_simple_aggregate f l r) ])
              (elim o [ some t ↦ ok t | none ↦ or_unmarked g l r (common_simple_aggregate g l r) ])
      go (some t) = (refl, tt)
      go none = marker-agrees l r _ _ (marked-IsPart l) (marked-IsPart r) le

-- Any two amounts of fuel that exceed the sizes give one result.
fuel-agrees :
    (f g : ℕ) (l r : ChType)
    → size l + size r ≤ f
    → size l + size r ≤ g
    → Agree (common_fuel f l r) (common_fuel g l r)
unfolding common_fuel
fuel-agrees zero g l r h k = absurd (omega (arith, size-pos l))
fuel-agrees (suc f) zero l r h k = absurd (omega (arith, size-pos l))
fuel-agrees (suc f) (suc g) l r h k =
    stripped-agrees (size l + size r) (common_fuel f) (common_fuel g)
      (λ t u le. fuel-agrees f g t u (omega arith) (omega arith)) (strip_deep l) (strip_deep r)
      (omega (arith, size-strip_deep l, size-strip_deep r))

-- The recursion of `commonCHType` ends for every two types: the fuel that the definition starts with,
-- the sizes of the two, is never used up.
pub common_ch_type-Settled : (left right : ChType) → common_ch_type left right ≢ err out_of_fuel
unfolding common_ch_type
common_ch_type-Settled left right h =
    let n = size left + size right in
    subst Settled h (fuel-agrees n n left right (omega arith) (omega arith)).1

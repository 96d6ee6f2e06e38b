-- ===== src/Supertype/Free.antt =====
-- A branch supertype keeps no LowCardinality, at any depth.
use chgen.Base.{
  ◌≡◌, refl, ℕ, zero, suc, Bool, true, false, Option, none, some, arith, if◌then◌else◌, ok, AllOk,
  AllOk-bind, AllOk-ok, or-eq-false, Bool-cases, inl, inr, String, fold_eq, List, [],
}
use chgen.ChType.{ChType, ChTypes, ch_type, nil, cons, name, params, wrap, unwrap_as}
use chgen.LowCardinality.{strip_deep, has_low_cardinality, have_low_cardinality}
use chgen.LowCardinality.Removal.{strip_deep-eq-strip_nested, has_low_cardinality-strip_nested}
use chgen.Transport.Marker.{simple_aggregate_wrapper_inner}
use chgen.Transport.Aggregates.{wrap_nullable-free}
use chgen.Supertype.Shapes.{common_with_null_literal}
use chgen.Supertype.Scalars.{IsScalar}
use chgen.Supertype.Rule.{Holds, below-keeps}
use chgen.Supertype.Step.{
  container, Common, common_simple_aggregate, marked_join, or_unmarked, peeled, peel_nullable,
  join_elements, restore_nullable, common_below, common_unmarked, common_stripped, common_fuel,
  common_ch_type,
}

abbrev pub IsFree : ChType → Type 0
IsFree t = has_low_cardinality t ≡ false

abbrev AreFree : ChTypes → Type 0
AreFree ts = have_low_cardinality ts ≡ false

AreFree-parts : (t : ChType) (ts : ChTypes) → AreFree (cons t ts) → IsFree t × AreFree ts
unfolding has_low_cardinality
AreFree-parts t ts h = or-eq-false (has_low_cardinality t) (have_low_cardinality ts) h

scalar-IsFree : (t : ChType) → IsScalar t → IsFree t
unfolding has_low_cardinality
scalar-IsFree (ch_type n nil ls ns) h = refl
scalar-IsFree (ch_type n (cons t ts) ls ns) h = cc

-- A node by another name is as free as its parameters.
node-IsFree :
    (n : String) (ts : ChTypes) (ls ns : List String)
    → fold_eq n "LowCardinality" ≡ false
    → AreFree ts
    → IsFree (ch_type n ts ls ns)
unfolding has_low_cardinality
node-IsFree n nil ls ns d h = refl
node-IsFree n (cons t nil) ls ns d h = let free = (AreFree-parts t nil h).0 in rw (d, free)
node-IsFree n (cons t (cons u us)) ls ns d h = h

params-AreFree : (t : ChType) → IsFree t → AreFree (params t)
unfolding has_low_cardinality
params-AreFree (ch_type n nil ls ns) h = refl
params-AreFree (ch_type n (cons t nil) ls ns) h =
    let free = (or-eq-false (fold_eq n "LowCardinality") (has_low_cardinality t) h).1 in rw free
params-AreFree (ch_type n (cons t (cons u us)) ls ns) h = h

nullable-IsFree : (t : ChType) → IsFree t → IsFree (wrap "Nullable" t)
unfolding has_low_cardinality fold_eq
nullable-IsFree t h = h

unwrap_as-IsFree : (w : String) (t : ChType) → IsFree t → Holds IsFree (unwrap_as w t)
unfolding unwrap_as
unwrap_as-IsFree w (ch_type n nil ls ns) h = tt
unwrap_as-IsFree w (ch_type n (cons t nil) ls ns) h = elim (Bool-cases (fold_eq n w)) [
  | inl e ↦ rw e (AreFree-parts t nil (params-AreFree (ch_type n (cons t nil) ls ns) h)).0
  | inr e ↦ rw e tt
]
unwrap_as-IsFree w (ch_type n (cons t (cons u us)) ls ns) h = tt

marked-IsFree : (t : ChType) → IsFree t → Holds IsFree (simple_aggregate_wrapper_inner t)
unfolding simple_aggregate_wrapper_inner
marked-IsFree (ch_type n nil ls ns) h = tt
marked-IsFree (ch_type n (cons f nil) ls ns) h = tt
marked-IsFree (ch_type n (cons f (cons t nil)) ls ns) h =
    let parts = params-AreFree (ch_type n (cons f (cons t nil)) ls ns) h in
    elim (Bool-cases (fold_eq n "SimpleAggregateFunction")) [
      | inl e ↦ rw e (AreFree-parts t nil (AreFree-parts f (cons t nil) parts).1).0
      | inr e ↦ rw e tt
    ]
marked-IsFree (ch_type n (cons f (cons t (cons u us))) ls ns) h = tt

null_literal-IsFree :
    (l r : ChType) → IsFree l → IsFree r → Holds IsFree (common_with_null_literal l r)
unfolding common_with_null_literal
null_literal-IsFree l r h k = ground (arith, wrap_nullable-free l h, wrap_nullable-free r k)

restore_nullable-IsFree : (b : Bool) (t : ChType) → IsFree t → IsFree (restore_nullable b t)
restore_nullable-IsFree true t h = nullable-IsFree t h
restore_nullable-IsFree false t h = h

peel_nullable-IsFree :
    (t : ChType) → IsFree t → AllOk (λ (p : ChType × Bool). IsFree p.0) (peel_nullable t)
unfolding peel_nullable
peel_nullable-IsFree t h =
    go (fold_eq (name t) "Nullable") (unwrap_as "Nullable" t) (unwrap_as-IsFree "Nullable" t h)
  where
    go :
        (b : Bool) (o : Option ChType)
        → Holds IsFree o
        → AllOk (λ (p : ChType × Bool). IsFree p.0) (if b then peeled o else ok (t, false))
    go false o k = h
    go true none k = tt
    go true (some u) k = k

module _ (again : ChType → ChType → Common)
    (again-IsFree : (l r : ChType) → AllOk IsFree (again l r)) where
  elements-AreFree : (ts us : ChTypes) → AllOk AreFree (join_elements again ts us)
  unfolding join_elements has_low_cardinality
  elements-AreFree nil us = refl
  elements-AreFree (cons t ts) nil = refl
  elements-AreFree (cons t ts) (cons u us) = AllOk-bind AreFree (again t u) _ (λ v e.
      AllOk-bind AreFree (join_elements again ts us) _ (λ vs f.
        let one = AllOk-ok IsFree _ (again-IsFree t u) e in
        let rest = AllOk-ok AreFree _ (elements-AreFree ts us) f in rw (one, rest)))

  container-IsFree :
      (n : String) (names : List String) (l r : ChType)
      → fold_eq n "Nullable" ≡ false
      → fold_eq n "LowCardinality" ≡ false
      → AllOk IsFree (container again n names l r)
  container-IsFree n names l r _ d =
      AllOk-bind IsFree (join_elements again (params l) (params r)) _ (λ vs e.
        node-IsFree n vs [] names d (AllOk-ok AreFree _ (elements-AreFree (params l) (params r)) e))

  below-IsFree : (l r : ChType) → IsFree l → IsFree r → AllOk IsFree (common_below again l r)
  below-IsFree l r h k = below-keeps IsFree scalar-IsFree again container-IsFree l r h k

  unmarked-IsFree : (l r : ChType) → IsFree l → IsFree r → AllOk IsFree (common_unmarked again l r)
  unfolding common_unmarked
  unmarked-IsFree l r h k = AllOk-bind IsFree (peel_nullable l) _ (λ p e.
      AllOk-bind IsFree (peel_nullable r) _ (λ q f.
        AllOk-bind IsFree (common_below again p.0 q.0) _ (λ t g. restore_nullable-IsFree _ t (
          AllOk-ok IsFree _
            (below-IsFree p.0 q.0
              (AllOk-ok (λ (p : ChType × Bool). IsFree p.0) _ (peel_nullable-IsFree l h) e)
              (AllOk-ok (λ (p : ChType × Bool). IsFree p.0) _ (peel_nullable-IsFree r k) f))
            g))))

  marker-IsFree :
      (l r : ChType) (m n : Option ChType)
      → IsFree l
      → IsFree r
      → Holds IsFree n
      → AllOk IsFree (or_unmarked again l r (marked_join again l r m n))
  marker-IsFree l r none none h k q = unmarked-IsFree l r h k
  marker-IsFree l r none (some b) h k q = again-IsFree l b
  marker-IsFree l r (some a) n h k q = go _ _
    where
      go :
          (b c : Bool)
          → AllOk IsFree (if b then ok l else if c then ok (wrap "Nullable" l) else again a r)
      go true c = h
      go false true = nullable-IsFree l h
      go false false = again-IsFree a r

  stripped-IsFree : (l r : ChType) → IsFree l → IsFree r → AllOk IsFree (common_stripped again l r)
  unfolding common_stripped common_simple_aggregate
  stripped-IsFree l r h k = go (common_with_null_literal l r) (null_literal-IsFree l r h k)
    where
      go :
          (o : Option ChType)
          → Holds IsFree o
          → AllOk IsFree (elim o [
            | some t ↦ ok t
            | none ↦ or_unmarked again l r (common_simple_aggregate again l r)
          ])
      go none p = marker-IsFree l r _ _ h k (marked-IsFree r k)
      go (some t) p = p

pub strip_deep-IsFree : (t : ChType) → IsFree (strip_deep t)
strip_deep-IsFree t = rw (strip_deep-eq-strip_nested t) (has_low_cardinality-strip_nested t)

common_fuel-IsFree : (f : ℕ) (l r : ChType) → AllOk IsFree (common_fuel f l r)
unfolding common_fuel
common_fuel-IsFree zero l r = tt
common_fuel-IsFree (suc f) l r =
    stripped-IsFree (common_fuel f) (common_fuel-IsFree f) (strip_deep l) (strip_deep r)
      (strip_deep-IsFree l) (strip_deep-IsFree r)

-- The common type of two branches holds no LowCardinality at any depth, whatever the two types are.
pub common_ch_type-IsFree :
    (left right : ChType) → AllOk (λ t. has_low_cardinality t ≡ false) (common_ch_type left right)
unfolding common_ch_type
common_ch_type-IsFree left right = common_fuel-IsFree _ left right

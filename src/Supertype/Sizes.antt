-- ===== src/Supertype/Sizes.antt =====
-- The types that branch supertypes descend to are smaller than those they come from.
use chgen.Base.{
  ◌≡◌, refl, suc, ◌+◌, ◌≤◌, ◌<◌, Bool, true, false, Option, none, some, arith, if◌then◌else◌, ok,
  err, AllOk, Bool-cases, inl, inr, String, fold_eq,
}
use chgen.ChType.{ChType, ch_type, ChTypes, nil, cons, name, params, named, unwrap_as, size, sizes}
use chgen.LowCardinality.{strip_deep, strip_nested, strip_nested_all}
use chgen.LowCardinality.Removal.{strip_deep-eq-strip_nested}
use chgen.Transport.Marker.{simple_aggregate_wrapper_inner}
use chgen.Supertype.Shapes.{bool_as_uint8, is_enum, enum_storage_integer}
use chgen.Supertype.Step.{peel_nullable, peeled, as_integer, enum_join, no_common}

pub size-pos : (t : ChType) → 1 ≤ size t
unfolding size
size-pos (ch_type n ps ls ns) = omega arith

mutual
  unfolding size strip_nested

  strip_size : (t : ChType) → size (strip_nested t) ≤ size t
  strip_size (ch_type n nil ls ns) = omega arith
  strip_size (ch_type n (cons t nil) ls ns) = ground (arith, strip_size t)
  strip_size (ch_type n (cons t (cons u us)) ls ns) =
      omega (arith, strip_size t, strip_size u, strip_all_size us)

  strip_all_size : (ts : ChTypes) → sizes (strip_nested_all ts) ≤ sizes ts
  strip_all_size nil = omega arith
  strip_all_size (cons t ts) = omega (arith, strip_size t, strip_all_size ts)

pub size-strip_deep : (t : ChType) → size (strip_deep t) ≤ size t
size-strip_deep t = rw (strip_deep-eq-strip_nested t) (strip_size t)

pub sizes-params : (t : ChType) → suc (sizes (params t)) ≡ size t
unfolding size
sizes-params (ch_type n ps ls ns) = refl

pub sizes-cons : (t : ChType) (ts : ChTypes) → sizes (cons t ts) ≡ size t + sizes ts
unfolding size
sizes-cons t ts = refl

-- A part of a type, if it has one, that is smaller.
abbrev pub IsPart : ChType → Option ChType → Type 0
IsPart t none = Unit
IsPart t (some p) = size p < size t

pub unwrap_as-IsPart : (w : String) (t : ChType) → IsPart t (unwrap_as w t)
unfolding unwrap_as size
unwrap_as-IsPart w (ch_type n nil ls ns) = tt
unwrap_as-IsPart w (ch_type n (cons t nil) ls ns) = elim (Bool-cases (fold_eq n w)) [
  | inl e ↦ rw e (omega arith)
  | inr e ↦ rw e tt
]
unwrap_as-IsPart w (ch_type n (cons t (cons u us)) ls ns) = tt

pub marked-IsPart : (t : ChType) → IsPart t (simple_aggregate_wrapper_inner t)
unfolding simple_aggregate_wrapper_inner size
marked-IsPart (ch_type n nil ls ns) = tt
marked-IsPart (ch_type n (cons f nil) ls ns) = tt
marked-IsPart (ch_type n (cons f (cons t nil)) ls ns) =
    elim (Bool-cases (fold_eq n "SimpleAggregateFunction")) [
      | inl e ↦ rw e (omega arith)
      | inr e ↦ rw e tt
    ]
marked-IsPart (ch_type n (cons f (cons t (cons u us))) ls ns) = tt

if-size : (b : Bool) (n : String) (t : ChType) → size (if b then named n else t) ≤ size t
unfolding size
if-size true n t = size-pos t
if-size false n t = omega arith

pub size-bool_as_uint8 : (t : ChType) → size (bool_as_uint8 t) ≤ size t
unfolding bool_as_uint8
size-bool_as_uint8 t = if-size _ "UInt8" t

size-as_integer : (t : ChType) → size (as_integer t) ≤ size t
unfolding enum_storage_integer
size-as_integer t = if-size (is_enum t) _ t

pub size-peel_nullable :
    (t : ChType) → AllOk (λ (p : ChType × Bool). size p.0 ≤ size t) (peel_nullable t)
unfolding peel_nullable
size-peel_nullable t =
    go (fold_eq (name t) "Nullable") (unwrap_as "Nullable" t) (unwrap_as-IsPart _ t)
  where
    go :
        (b : Bool) (o : Option ChType)
        → IsPart t o
        → AllOk (λ (p : ChType × Bool). size p.0 ≤ size t) (if b then peeled o else ok (t, false))
    go false o h = omega arith
    go true none h = tt
    go true (some u) h = omega arith

-- A pair that is no larger than two types.
abbrev pub IsWithin : ChType → ChType → Option (ChType × ChType) → Type 0
IsWithin l r none = Unit
IsWithin l r (some (t, u)) = size t + size u ≤ size l + size r

pub enum_join-IsWithin : (l r : ChType) → AllOk (IsWithin l r) (enum_join l r)
unfolding enum_join
enum_join-IsWithin l r = go _ _ _
  where
    go :
        (a b c : Bool)
        → AllOk (IsWithin l r) (
            if a
            then if b
              then ok none
              else if c
              then err (no_common (as_integer l) (as_integer r))
              else ok (some (as_integer l, as_integer r))
            else ok (some (l, r)))
    go false b c = omega arith
    go true true c = tt
    go true false true = tt
    go true false false = omega (arith, size-as_integer l, size-as_integer r)

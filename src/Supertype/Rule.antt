-- ===== src/Supertype/Rule.antt =====
-- A rule for the types that the engine joins below their wrappers: a predicate that scalars and
-- joined containers have, and the two types, is one of their supertype.
use chgen.Base.{
  ◌≡◌, refl, Bool, true, false, Option, none, some, List, arith, if◌then◌else◌, ok, err, AllOk,
  AllOk-bind, AllOk-ok, switch-All, String, fold_eq, Result,
}
use chgen.ChType.{ChType, named}
use chgen.Numeric.{common_numeric}
use chgen.Supertype.Shapes.{bool_as_uint8, enum_storage_integer}
use chgen.Supertype.Decimals.{common_decimal_supertype}
use chgen.Supertype.Scalars.{
  IsScalar, ScalarIfAny, common_numeric-IsScalar, common_decimal-IsScalar,
}
use chgen.Supertype.Temporal.{common_temporal, date_time64_0}
use chgen.Supertype.Step.{
  Common, as_integer, enum_join, or_no_common, numeric_common, common_other, common_bare,
  restore_bool, common_or_string, common_below, no_common, same_text, other_cases, container,
}

abbrev pub Holds {ℓ} : (ChType → Type ℓ) → Option ChType → Type ℓ
Holds P none = Unit
Holds P (some t) = P t

named-IsScalar : (n : String) → fold_eq n "Nullable" ≡ false → IsScalar (named n)
named-IsScalar n h = (refl, h)

module _ (P : ChType → Type 0) (scalar : (t : ChType) → IsScalar t → P t)
    (again : ChType → ChType → Common)
    (containers : (n : String) (names : List String) (l r : ChType)
      → fold_eq n "Nullable" ≡ false
      → fold_eq n "LowCardinality" ≡ false
      → AllOk P (container again n names l r)) where
  at_name : (n : String) → fold_eq n "Nullable" ≡ false → P (named n)
  at_name n h = scalar (named n) (named-IsScalar n h)

  bool_as_uint8-keeps : (t : ChType) → P t → P (bool_as_uint8 t)
  unfolding bool_as_uint8
  bool_as_uint8-keeps t h = go _
    where
      go : (b : Bool) → P (if b then named "UInt8" else t)
      go true = at_name "UInt8" (unfold fold_eq in refl)
      go false = h

  as_integer-keeps : (t : ChType) → P t → P (as_integer t)
  unfolding enum_storage_integer
  as_integer-keeps t h = go _ _
    where
      go : (b c : Bool) → P (if b then named (if c then "Int16" else "Int8") else t)
      go true true = at_name "Int16" (unfold fold_eq in refl)
      go true false = at_name "Int8" (unfold fold_eq in refl)
      go false c = h

  PairHolds : Option (ChType × ChType) → Type 0
  PairHolds none = Unit
  PairHolds (some (l, r)) = P l × P r

  enum_join-keeps : (l r : ChType) → P l → P r → AllOk PairHolds (enum_join l r)
  unfolding enum_join PairHolds
  enum_join-keeps l r h k = go _ _ _
    where
      go :
          (a b c : Bool)
          → AllOk PairHolds (
              if a
              then if b
                then ok none
                else if c
                then err (no_common (as_integer l) (as_integer r))
                else ok (some (as_integer l, as_integer r))
              else ok (some (l, r)))
      go false b c = (h, k)
      go true true c = tt
      go true false true = tt
      go true false false = (as_integer-keeps l h, as_integer-keeps r k)

  temporal-keeps : (l r : ChType) → P l → P r → AllOk P (or_no_common l r (common_temporal l r))
  unfolding common_temporal
  temporal-keeps l r h k = ground (arith, scalar date_time64_0 (refl, unfold fold_eq in refl))

  numeric-keeps : (l r : ChType) → AllOk P (numeric_common (common_numeric l r))
  numeric-keeps l r = go (common_numeric l r) (common_numeric-IsScalar l r)
    where
      go : (m : Result _ ChType) → AllOk IsScalar m → AllOk P (numeric_common m)
      go (err e) h = tt
      go (ok t) h = scalar t h

  other-keeps : (l r : ChType) → P l → P r → AllOk P (common_other again l r)
  unfolding common_other
  other-keeps l r h k =
      switch-All (AllOk P) (other_cases again l r) (or_no_common l r (common_temporal l r))
        (
          tt,
          (
            numeric-keeps l r,
            (
              at_name "String" (unfold fold_eq in refl),
              (
                containers "Array" _ l r (unfold fold_eq in refl) (unfold fold_eq in refl),
                (
                  containers "Map" _ l r (unfold fold_eq in refl) (unfold fold_eq in refl),
                  (containers "Tuple" _ l r (unfold fold_eq in refl) (unfold fold_eq in refl), tt),
                ),
              ),
            ),
          ),
        )
        (temporal-keeps l r h k)

  bare-keeps : (l r : ChType) → P l → P r → AllOk P (common_bare again l r)
  unfolding common_bare
  bare-keeps l r h k =
      go (same_text l r) (common_decimal_supertype l r) (common_decimal-IsScalar l r)
    where
      go :
          (b : Bool) (o : Option ChType)
          → ScalarIfAny o
          → AllOk P (if b then ok l else elim o [ some t ↦ ok t | none ↦ common_other again l r ])
      go true o s = h
      go false none s = other-keeps l r h k
      go false (some t) s = scalar t s

  restore_bool-keeps : (b : Bool) (t : ChType) → P t → P (restore_bool b t)
  restore_bool-keeps b t h = ground (arith, at_name "Bool" (unfold fold_eq in refl))

  or_string-keeps :
      (b : Bool) (o : Option (ChType × ChType)) → PairHolds o → AllOk P (common_or_string again b o)
  unfolding PairHolds
  or_string-keeps b none h = at_name "String" (unfold fold_eq in refl)
  or_string-keeps b (some (l, r)) h =
      AllOk-bind P (common_bare again l r) _
        (λ t e. restore_bool-keeps b t (AllOk-ok P _ (bare-keeps l r h.0 h.1) e))

  pub below-keeps : (l r : ChType) → P l → P r → AllOk P (common_below again l r)
  unfolding common_below
  below-keeps l r h k = AllOk-bind P (enum_join (bool_as_uint8 l) (bool_as_uint8 r)) _ (λ pair e.
      or_string-keeps _ pair (
        AllOk-ok PairHolds _
          (enum_join-keeps _ _ (bool_as_uint8-keeps l h) (bool_as_uint8-keeps r k)) e))

-- ===== src/Supertype/Agree.antt =====
-- Two computations of one result that do not end for want of fuel, for `commonCHType`.
use chgen.Base.{
  ◌≡◌, refl, ℕ, ◌+◌, ◌<◌, Bool, true, false, Option, none, some, List, [], ◌∷◌, if◌then◌else◌,
  Result, ok, err, ◌>>=◌, subst, switch,
}
use chgen.ChType.{ChType, unwrap_as, size}
use chgen.Numeric.{NumericError}
use chgen.Supertype.Step.{
  SupertypeError, nullable_arguments, no_common, numeric_error, out_of_fuel, Common, peeled,
  peel_nullable, enum_join, or_no_common, numeric_common, as_integer,
}

-- A result that is not the end of the fuel.
abbrev pub Settled {ℓ} : {A : Type ℓ} → Result SupertypeError A → Type 0
Settled (ok a) = Unit
Settled (err nullable_arguments) = Unit
Settled (err (no_common l r)) = Unit
Settled (err (numeric_error e)) = Unit
Settled (err out_of_fuel) = ⊥

-- One result, computed in two ways, that is not the end of the fuel.
abbrev pub Agree {ℓ} : {A : Type ℓ} → Result SupertypeError A → Result SupertypeError A → Type ℓ
Agree r s = (r ≡ s) × Settled r

pub Agree-bind {ℓ κ} :
    {A : Type ℓ} {B : Type κ} (m n : Result SupertypeError A)
    (next after : A → Result SupertypeError B)
    → Agree m n
    → ((a : A) → m ≡ ok a → Agree (next a) (after a))
    → Agree (m >>= next) (n >>= after)
Agree-bind m n next after (e, s) h = subst (λ x. Agree (m >>= next) (x >>= after)) e (go m s h)
  where
    go :
        (m : _)
        → Settled m
        → ((a : _) → m ≡ ok a → Agree (next a) (after a))
        → Agree (m >>= next) (m >>= after)
    go (ok a) s h = h a refl
    go (err nullable_arguments) s h = (refl, tt)
    go (err (no_common l r)) s h = (refl, tt)
    go (err (numeric_error e)) s h = (refl, tt)
    go (err out_of_fuel) s h = absurd s

pub or_no_common-Settled : (l r : ChType) (o : Option ChType) → Settled (or_no_common l r o)
or_no_common-Settled l r none = tt
or_no_common-Settled l r (some t) = tt

pub numeric_common-Settled : (m : Result NumericError ChType) → Settled (numeric_common m)
numeric_common-Settled (err e) = tt
numeric_common-Settled (ok t) = tt

pub peel_nullable-Settled : (t : ChType) → Settled (peel_nullable t)
unfolding peel_nullable
peel_nullable-Settled t = go _ (unwrap_as "Nullable" t)
  where
    go : (b : Bool) (o : Option ChType) → Settled (if b then peeled o else ok (t, false))
    go false o = tt
    go true none = tt
    go true (some u) = tt

pub enum_join-Settled : (l r : ChType) → Settled (enum_join l r)
unfolding enum_join
enum_join-Settled l r = go _ _ _
  where
    go :
        (a b c : Bool)
        → Settled {A = Option (ChType × ChType)} (
            if a
            then if b
              then ok none
              else if c
              then err (no_common (as_integer l) (as_integer r))
              else ok (some (as_integer l, as_integer r))
            else ok (some (l, r)))
    go false b c = tt
    go true true c = tt
    go true false true = tt
    go true false false = tt

-- The two functions agree on all pairs of less than a size.
abbrev pub AgreeBelow : ℕ → (ChType → ChType → Common) → (ChType → ChType → Common) → Type 0
AgreeBelow n f g = (l r : ChType) → size l + size r < n → Agree (f l r) (g l r)

abbrev pub AgreeAll : List (Bool × Common) → List (Bool × Common) → Type 0
AgreeAll [] [] = Unit
AgreeAll ((a, r) ∷ rs) ((b, s) ∷ ss) = (a ≡ b) × Agree r s × AgreeAll rs ss
AgreeAll _ _ = ⊥

pub Agree-switch :
    (rs ss : List (Bool × Common)) (r : Common)
    → AgreeAll rs ss
    → Settled r
    → Agree (switch rs r) (switch ss r)
Agree-switch [] [] r h k = (refl, k)
Agree-switch ((true, a) ∷ rs) ((true, b) ∷ ss) r h k = h.1
Agree-switch ((false, a) ∷ rs) ((false, b) ∷ ss) r h k = Agree-switch rs ss r h.2 k
Agree-switch ((true, a) ∷ rs) ((false, b) ∷ ss) r h k = cc
Agree-switch ((false, a) ∷ rs) ((true, b) ∷ ss) r h k = cc
Agree-switch [] (s ∷ ss) r h k = absurd h
Agree-switch (s ∷ ss) [] r h k = absurd h

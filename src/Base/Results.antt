-- ===== src/Base/Results.antt =====
-- A fallible result: Go's pair of a value and an error, where the value is read only if the error
-- is nil.
use mathlib.Core.Path.{◌≡◌, refl, subst}
use mathlib.Core.Logic.{◌⊎◌, inl, inr}
use mathlib.Core.Bool.{Bool, true, false}
use mathlib.Core.Option.{Option, none, some}
use chgen.Base.Tests.{if◌then◌else◌}

pub data Result {ℓ κ} (E : Type ℓ) (A : Type κ) : Type (ℓ ⊔ κ) where
  err : E → Result E A
  ok : A → Result E A

-- `if err != nil { return err }`, then the rest of the function.
infixl 5 ◌>>=◌
abbrev pub ◌>>=◌ {ℓ κ ι} :
    {E : Type ℓ} {A : Type κ} {B : Type ι} → Result E A → (A → Result E B) → Result E B
(err failure) >>= next = err failure
(ok value) >>= next = next value

pub Result-cases {ℓ κ} :
    {E : Type ℓ} {A : Type κ} (r : Result E A) → ((a : A) × (r ≡ ok a)) ⊎ ((e : E) × (r ≡ err e))
Result-cases (err e) = inr (e, refl)
Result-cases (ok a) = inl (a, refl)

-- Inversion of a successful bind, for proofs where the parts stay shut.
pub >>=-eq-ok {ℓ κ ι} :
    {E : Type ℓ} {A : Type κ} {B : Type ι} (m : Result E A) (next : A → Result E B) {b : B}
    → (m >>= next) ≡ ok b
    → (a : A) × (m ≡ ok a) × (next a ≡ ok b)
>>=-eq-ok (err e) next h = cc
>>=-eq-ok (ok a) next h = (a, refl, h)

module _ {ℓ κ} {E : Type ℓ} {A : Type κ} where
  -- `if test { return err }`, then the rest of the function.
  abbrev pub reject : Bool → E → Result E A → Result E A
  reject test failure rest = if test then err failure else rest

  -- A predicate of the value, where there is one.
  abbrev pub AllOk {ι} : (A → Type ι) → Result E A → Type ι
  AllOk P (err e) = Unit
  AllOk P (ok a) = P a

  pub AllOk-reject {ι} :
      (P : A → Type ι) (test : Bool) (failure : E) (rest : Result E A)
      → (test ≡ false → AllOk P rest)
      → AllOk P (reject test failure rest)
  AllOk-reject P true failure rest h = tt
  AllOk-reject P false failure rest h = h refl

  pub AllOk-if {ι} :
      (P : A → Type ι) (test : Bool) (left right : Result E A)
      → (test ≡ true → AllOk P left)
      → (test ≡ false → AllOk P right)
      → AllOk P (if test then left else right)
  AllOk-if P true left right h k = h refl
  AllOk-if P false left right h k = k refl

  pub AllOk-map {ι ν} :
      (P : A → Type ι) (Q : A → Type ν) (r : Result E A)
      → ((a : A) → P a → Q a)
      → AllOk P r
      → AllOk Q r
  AllOk-map P Q (ok a) f h = f a h
  AllOk-map P Q (err e) f h = tt

  pub AllOk-ok {ι} : (P : A → Type ι) (r : Result E A) {a : A} → AllOk P r → r ≡ ok a → P a
  AllOk-ok P (ok b) h e = subst P (cc) h
  AllOk-ok P (err b) h e = cc

-- `if o == nil { return err }`, then the rest of the function, which reads what `o` points to.
abbrev pub require {ℓ κ ι} :
    {E : Type ℓ} {A : Type κ} {B : Type ι} → Option A → E → (A → Result E B) → Result E B
require none failure next = err failure
require (some a) failure next = next a

pub AllOk-require {ℓ κ ι ν} :
    {E : Type ℓ} {A : Type κ} {B : Type ι} (P : B → Type ν) (o : Option A) (failure : E)
    (next : A → Result E B)
    → ((a : A) → o ≡ some a → AllOk P (next a))
    → AllOk P (require o failure next)
AllOk-require P none failure next h = tt
AllOk-require P (some a) failure next h = h a refl

pub AllOk-bind {ℓ κ ι ν} :
    {E : Type ℓ} {A : Type κ} {B : Type ι} (P : B → Type ν) (m : Result E A) (next : A → Result E B)
    → ((a : A) → m ≡ ok a → AllOk P (next a))
    → AllOk P (m >>= next)
AllOk-bind P (err e) next h = tt
AllOk-bind P (ok a) next h = h a refl

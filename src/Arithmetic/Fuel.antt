-- ===== src/Arithmetic/Fuel.antt =====
-- The recursion of `inferArithmeticResultType` ends: the fuel of the definition is enough.
use chgen.Base.{
  ◌≡◌, refl, ℕ, zero, suc, ◌+◌, ◌≤◌, ◌<◌, String, Bool, true, false, ◌||◌, Option, none, some,
  arith,
}
use chgen.ChType.{ChType, unwrap_as, size}
use chgen.Wrappers.{peel}
use chgen.Transport.Marker.{simple_aggregate_wrapper_inner}
use chgen.Supertype.Sizes.{IsPart, unwrap_as-IsPart, marked-IsPart, size-pos}
use chgen.Arithmetic.Operands.{simple_aggregate_inner_type}
use chgen.Arithmetic.{
  array_arithmetic, by_elements, arithmetic_step, arithmetic_fuel, infer_arithmetic_result_type,
}

size-simple_aggregate_inner_type : (t : ChType) → size (simple_aggregate_inner_type t) ≤ size t
unfolding simple_aggregate_inner_type
size-simple_aggregate_inner_type t = go (simple_aggregate_wrapper_inner t) (marked-IsPart t)
  where
    go : (o : Option ChType) → IsPart t o → size (elim o [ none ↦ t | some inner ↦ inner ]) ≤ size t
    go none h = omega arith
    go (some u) h = omega arith

size-peel : (w : String) (t : ChType) → size (peel w t).0 ≤ size t
unfolding peel
size-peel w t = go (unwrap_as w t) (unwrap_as-IsPart w t)
  where
    go :
        (o : Option ChType)
        → IsPart t o
        → size (elim o as (λ _. ChType × Bool) [ some p ↦ (p, true) | none ↦ (t, false) ]).0
          ≤ size t
    go none h = omega arith
    go (some u) h = omega arith

module _ (n : ℕ) (f g : ChType → ChType → Option ChType)
    (agree : (l r : ChType) → size l + size r < n → f l r ≡ g l r) where
  array-agrees :
      (nullable allowed : Bool) (l r : ChType)
      → size l + size r < n
      → array_arithmetic f nullable allowed l r ≡ array_arithmetic g nullable allowed l r
  array-agrees nullable allowed l r le = rw (agree l r le)

  elements-agree :
      (operator : String) (nullable : Bool) (l r : ChType) (a b : Option ChType)
      → IsPart l a
      → IsPart r b
      → size l + size r ≤ n
      → by_elements f operator nullable l r a b ≡ by_elements g operator nullable l r a b
  elements-agree operator nullable l r (some a) (some b) h k le =
      array-agrees nullable _ a b (omega arith)
  elements-agree operator nullable l r (some a) none h k le =
      array-agrees nullable _ a r (omega arith)
  elements-agree operator nullable l r none (some b) h k le =
      array-agrees nullable _ l b (omega arith)
  elements-agree operator nullable l r none none h k le = refl

  step-agrees :
      (operator : String) (l r : ChType)
      → size l + size r ≤ n
      → arithmetic_step f operator l r ≡ arithmetic_step g operator l r
  unfolding arithmetic_step
  step-agrees operator l r le =
      let left = simple_aggregate_inner_type l in
      let right = simple_aggregate_inner_type r in
      let p = peel "Nullable" left in
      let q = peel "Nullable" right in
      elements-agree operator (p.1 || q.1) p.0 q.0 (unwrap_as "Array" p.0) (unwrap_as "Array" q.0)
        (unwrap_as-IsPart "Array" p.0) (unwrap_as-IsPart "Array" q.0)
        (omega (
          arith,
          size-peel "Nullable" left,
          size-peel "Nullable" right,
          size-simple_aggregate_inner_type l,
          size-simple_aggregate_inner_type r,
        ))

-- The body of `inferArithmeticResultType`, so many recursive calls deep, and then any other function.
unfoldable pub run_steps :
    ℕ → (ChType → ChType → Option ChType) → String → ChType → ChType → Option ChType
run_steps zero stop operator left right = stop left right
run_steps (suc n) stop operator left right =
    arithmetic_step (run_steps n stop operator) operator left right

steps-agree :
    (n g : ℕ) (stop : ChType → ChType → Option ChType) (operator : String) (l r : ChType)
    → size l + size r ≤ n
    → size l + size r ≤ g
    → run_steps n stop operator l r ≡ arithmetic_fuel g operator l r
unfolding run_steps arithmetic_fuel
steps-agree zero g stop operator l r h k = absurd (omega (arith, size-pos l))
steps-agree (suc n) zero stop operator l r h k = absurd (omega (arith, size-pos l))
steps-agree (suc n) (suc g) stop operator l r h k =
    step-agrees (size l + size r) (run_steps n stop operator) (arithmetic_fuel g operator)
      (λ t u le. steps-agree n g stop operator t u (omega arith) (omega arith)) operator l r
      (omega arith)

-- The recursion of `inferArithmeticResultType` ends: its body, with as many levels of recursive calls
-- as the sizes of the two types or more, gives the result whatever is called below these levels, since
-- nothing is.
pub infer_arithmetic-run_steps :
    (n : ℕ) (stop : ChType → ChType → Option ChType) (operator : String) (left right : ChType)
    → size left + size right ≤ n
    → run_steps n stop operator left right ≡ infer_arithmetic_result_type operator left right
unfolding infer_arithmetic_result_type
infer_arithmetic-run_steps n stop operator left right enough =
    steps-agree n (size left + size right) stop operator left right enough (omega arith)

-- ===== src/Arithmetic/Order.antt =====
-- A sum and a product have one type in either order of the operands.
use chgen.Base.{
  ◌≡◌, refl, ◌∙◌, ap, ℕ, zero, suc, ◌+◌, String, Bool, true, false, ◌&&◌, ◌||◌, Option, none, some,
  arith, if◌then◌else◌, ◌⊎◌, inl, inr,
}
use chgen.Base.Integers.{ℤ, pos, negsuc, max_int, add_int}
use chgen.ChType.{ChType, named, unwrap_as, size}
use chgen.Wrappers.{peel}
use chgen.Supertype.Decimals.{decimal_precision_scale}
use chgen.Arithmetic.Operands.{
  IntegerClass, is_signed, bytes, integer_class_of, max_size, is_float_operand, is_decimal_operand,
  is_date_operand, is_wide_integer, simple_aggregate_inner_type,
}
use chgen.Arithmetic.{
  narrow_offset, date_sum, date_arithmetic, decimal_scale_of, decimal_arithmetic, is_number,
  float_arithmetic, integer_result, integer_arithmetic, scalar_arithmetic, is_nullable_operand,
  array_arithmetic, put_nullable, by_elements, below, arithmetic_step, arithmetic_fuel,
  infer_arithmetic_result_type,
}

max_int_comm : (a b : ℤ) → max_int a b ≡ max_int b a
unfolding max_int
max_int_comm (pos a) (pos b) = ground arith
max_int_comm (pos a) (negsuc b) = refl
max_int_comm (negsuc a) (pos b) = refl
max_int_comm (negsuc a) (negsuc b) = ground arith

add_comm : (a b : ℕ) → a + b ≡ b + a
add_comm a b = omega arith

add_int_comm : (a b : ℤ) → add_int a b ≡ add_int b a
unfolding add_int
add_int_comm (pos a) (pos b) = rw (add_comm a b)
add_int_comm (pos a) (negsuc b) = refl
add_int_comm (negsuc a) (pos b) = refl
add_int_comm (negsuc a) (negsuc b) = rw (add_comm a b)

max_size_comm : (a b : ℕ) → max_size a b ≡ max_size b a
max_size_comm a b = ground arith

or_comm : (a b : Bool) → (a || b) ≡ (b || a)
or_comm true true = refl
or_comm true false = refl
or_comm false b = go b
  where
    go : (b : Bool) → b ≡ (b || false)
    go true = refl
    go false = refl

-- The two operators that do not depend on the order.
abbrev Commutes : String → Type 0
Commutes operator = (operator ≡ "+") ⊎ (operator ≡ "*")

date_sum_comm :
    (left right : ChType) (l r : Option IntegerClass)
    → date_sum "+" left right l r ≡ date_sum "+" right left r l
unfolding date_sum
date_sum_comm left right l r =
    go (is_date_operand left) (is_date_operand right) (narrow_offset left l) (narrow_offset right r)
  where
    go :
        (a b c d : Bool)
        → (if a && b
            then none
            else if a && d
            then some left
            else if b && c
            then some right
            else none)
          ≡ (if b && a
              then none
              else if b && c
              then some right
              else if a && d
              then some left
              else none)
    go true true c d = refl
    go true false c d = refl
    go false true true d = refl
    go false true false d = refl
    go false false c d = refl

decimal_scale_comm :
    (operator : String) (s t : ℤ)
    → Commutes operator
    → decimal_scale_of operator s t ≡ decimal_scale_of operator t s
unfolding decimal_scale_of
decimal_scale_comm operator s t (inl e) = rw e (ap (λ x. some x) (max_int_comm s t))
decimal_scale_comm operator s t (inr e) = rw e (ap (λ x. some x) (add_int_comm s t))

decimal_comm :
    (operator : String) (left right : ChType) (d e : Option (ℤ × ℤ)) (l r : Option IntegerClass)
    → Commutes operator
    → decimal_arithmetic operator left right d e l r
      ≡ decimal_arithmetic operator right left e d r l
unfolding decimal_arithmetic
decimal_comm operator left right (some (p, s)) (some (q, t)) l r h =
    rw (max_int_comm p q, decimal_scale_comm operator s t h)
decimal_comm operator left right (some d) none l (some r) h = refl
decimal_comm operator left right (some d) none (some l) none h = refl
decimal_comm operator left right (some d) none none none h = refl
decimal_comm operator left right none (some e) (some l) r h = refl
decimal_comm operator left right none (some e) none r h = refl
decimal_comm operator left right none none l r h = refl

float_comm :
    (operator : String) (left right : ChType) (l r : Option IntegerClass)
    → float_arithmetic operator left right l r ≡ float_arithmetic operator right left r l
unfolding float_arithmetic
float_comm operator left right l r =
    go (is_number left l) (is_number right r) _ (is_wide_integer left) (is_wide_integer right)
  where
    go :
        (a b c d e : Bool)
        → (if a && b then if c && (d || e) then none else some (named "Float64") else none)
          ≡ (if b && a then if c && (e || d) then none else some (named "Float64") else none)
    go true true c d e = rw (or_comm d e)
    go true false c d e = refl
    go false true c d e = refl
    go false false c d e = refl

integer_comm :
    (operator : String) (l r : Option IntegerClass)
    → Commutes operator
    → integer_arithmetic operator l r ≡ integer_arithmetic operator r l
unfolding integer_arithmetic integer_result
integer_comm operator none none h = refl
integer_comm operator none (some r) h = refl
integer_comm operator (some l) none h = refl
integer_comm operator (some l) (some r) (inl e) =
    rw (e, or_comm (is_signed l) (is_signed r), max_size_comm (bytes l) (bytes r))
integer_comm operator (some l) (some r) (inr e) =
    rw (e, or_comm (is_signed l) (is_signed r), max_size_comm (bytes l) (bytes r))

date_comm :
    (operator : String) (left right : ChType) (l r : Option IntegerClass)
    → Commutes operator
    → date_arithmetic operator left right l r ≡ date_arithmetic operator right left r l
unfolding date_arithmetic
date_comm operator left right l r (inl e) = rw e (date_sum_comm left right l r)
date_comm operator left right l r (inr e) = rw e

scalar_comm :
    (operator : String) (left right : ChType)
    → Commutes operator
    → scalar_arithmetic operator left right ≡ scalar_arithmetic operator right left
unfolding scalar_arithmetic
scalar_comm operator left right h =
    let l = integer_class_of left in
    let r = integer_class_of right in
    let d = decimal_precision_scale left in
    let e = decimal_precision_scale right in
    rw (
      or_comm (is_date_operand left) (is_date_operand right),
      or_comm (is_decimal_operand left) (is_decimal_operand right),
      or_comm (is_float_operand left) (is_float_operand right),
      date_comm operator left right l r h,
      decimal_comm operator left right d e l r h,
      float_comm operator left right l r,
      integer_comm operator l r h,
    )

module _ (again : ChType → ChType → Option ChType)
    (again_comm : (left right : ChType) → again left right ≡ again right left) where
  array_comm :
      (nullable allowed : Bool) (left right : ChType)
      → array_arithmetic again nullable allowed left right
        ≡ array_arithmetic again nullable allowed right left
  array_comm nullable allowed left right =
      rw (or_comm (is_nullable_operand left) (is_nullable_operand right), again_comm left right)

  elements_comm :
      (operator : String) (nullable : Bool) (left right : ChType) (l r : Option ChType)
      → Commutes operator
      → by_elements again operator nullable left right l r
        ≡ by_elements again operator nullable right left r l
  elements_comm operator nullable left right (some l) (some r) h = array_comm nullable _ l r
  elements_comm operator nullable left right (some l) none h = array_comm nullable _ l right
  elements_comm operator nullable left right none (some r) h = array_comm nullable _ left r
  elements_comm operator nullable left right none none h =
      ap (put_nullable nullable) (scalar_comm operator left right h)

  below_comm :
      (operator : String) (p q : ChType × Bool)
      → Commutes operator
      → below again operator p q ≡ below again operator q p
  below_comm operator (left, l) (right, r) h =
      elements_comm operator (l || r) left right (unwrap_as "Array" left) (unwrap_as "Array" right)
        h
      ∙ ap
          (λ b.
            by_elements again operator b right left (unwrap_as "Array" right)
              (unwrap_as "Array" left))
          (or_comm l r)

arithmetic_fuel_comm :
    (f : ℕ) (operator : String) (left right : ChType)
    → Commutes operator
    → arithmetic_fuel f operator left right ≡ arithmetic_fuel f operator right left
unfolding arithmetic_fuel arithmetic_step
arithmetic_fuel_comm zero operator left right h = refl
arithmetic_fuel_comm (suc f) operator left right h =
    below_comm (arithmetic_fuel f operator) (λ t u. arithmetic_fuel_comm f operator t u h) operator
      (peel "Nullable" (simple_aggregate_inner_type left))
      (peel "Nullable" (simple_aggregate_inner_type right)) h

-- The operators + and * give two operands one result type, or none, in either order, whatever
-- wrappers, arrays, dates, decimals, floats and integers they are.
pub infer_arithmetic_comm :
    (operator : String) (left right : ChType)
    → (operator ≡ "+") ⊎ (operator ≡ "*")
    → infer_arithmetic_result_type operator left right
      ≡ infer_arithmetic_result_type operator right left
unfolding infer_arithmetic_result_type
infer_arithmetic_comm operator left right h =
    arithmetic_fuel_comm (size left + size right) operator left right h
    ∙ ap (λ f. arithmetic_fuel f operator right left) (add_comm (size left) (size right))

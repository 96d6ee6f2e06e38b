-- ===== src/Arithmetic/Classes.antt =====
-- The integer type of a result is a type that ClickHouse has, and arithmetic reads it back as the
-- integer that the rule computed.
use chgen.Base.{
  ◌≡◌, refl, ℕ, String, Bool, true, false, ◌||◌, ◌&&◌, Option, none, some, arith, if◌then◌else◌,
  fold_eq, lower, codes_eq, fold_switch, ◌⊎◌, inl, inr, subst,
}
use chgen.ChType.{ChType, named, params, literal_params}
use chgen.Numeric.Ranges.{fold_switch-All}
use chgen.Supertype.Shapes.{no_params, is_empty}
use chgen.GoType.Names.{canonical_ch_type_name}
use chgen.Arithmetic.Operands.{
  IntegerClass, integer_class, is_signed, bytes, normal, integer_classes, integer_class_of,
  class_name, promoted_size, max_size,
}
use chgen.Arithmetic.{integer_result}

-- The sizes that integers have.
abbrev IsSize : ℕ → Type 0
IsSize b = (b ≡ 1) ⊎ (b ≡ 2) ⊎ (b ≡ 4) ⊎ (b ≡ 8) ⊎ (b ≡ 16) ⊎ (b ≡ 32)

max_size-IsSize : (a b : ℕ) → IsSize a → IsSize b → IsSize (max_size a b)
max_size-IsSize a b h k = ground (arith, h, k)

promoted_size-IsSize : (a : ℕ) → IsSize a → IsSize (promoted_size a)
unfolding promoted_size
promoted_size-IsSize a (inl e) = rw e (inr (inl refl))
promoted_size-IsSize a (inr (inl e)) = rw e (inr (inr (inl refl)))
promoted_size-IsSize a (inr (inr (inl e))) = rw e (inr (inr (inr (inl refl))))
promoted_size-IsSize a (inr (inr (inr (inl e)))) = rw e (inr (inr (inr (inl refl))))
promoted_size-IsSize a (inr (inr (inr (inr (inl e))))) = rw e (inr (inr (inr (inr (inl refl)))))
promoted_size-IsSize a (inr (inr (inr (inr (inr e))))) = rw e (inr (inr (inr (inr (inr refl)))))

class_of-IsSize : (t : ChType) (c : IntegerClass) → integer_class_of t ≡ some c → IsSize (bytes c)
unfolding integer_class_of
class_of-IsSize t c h = go (no_params (params t) && is_empty (literal_params t)) h
  where
    go :
        (b : Bool)
        → (if b then fold_switch (normal t) integer_classes else none) ≡ some c
        → IsSize (bytes c)
    go true h = fold_switch-All (λ c. IsSize (bytes c)) (normal t) integer_classes c (omega arith) h
    go false h = cc

class_name-read :
    (signed : Bool) (b : ℕ)
    → IsSize b
    → integer_class_of (named (class_name (integer_class signed b))) ≡ some (integer_class signed b)
unfolding integer_class_of class_name fold_switch canonical_ch_type_name lower codes_eq fold_eq
class_name-read true b (inl e) = rw e
class_name-read true b (inr (inl e)) = rw e
class_name-read true b (inr (inr (inl e))) = rw e
class_name-read true b (inr (inr (inr (inl e)))) = rw e
class_name-read true b (inr (inr (inr (inr (inl e))))) = rw e
class_name-read true b (inr (inr (inr (inr (inr e))))) = rw e
class_name-read false b (inl e) = rw e
class_name-read false b (inr (inl e)) = rw e
class_name-read false b (inr (inr (inl e))) = rw e
class_name-read false b (inr (inr (inr (inl e)))) = rw e
class_name-read false b (inr (inr (inr (inr (inl e))))) = rw e
class_name-read false b (inr (inr (inr (inr (inr e))))) = rw e

if-IsSize :
    (b : Bool) (c d : IntegerClass)
    → IsSize (bytes c)
    → IsSize (bytes d)
    → IsSize (bytes (if b then c else d))
if-IsSize true c d h k = h
if-IsSize false c d h k = k

SizeIfAny : Option IntegerClass → Type 0
SizeIfAny none = Unit
SizeIfAny (some c) = IsSize (bytes c)

integer_result-IsSize :
    (operator : String) (l r : IntegerClass)
    → IsSize (bytes l)
    → IsSize (bytes r)
    → SizeIfAny (integer_result operator l r)
unfolding integer_result SizeIfAny
integer_result-IsSize operator l r h k = go _ _ _
  where
    widened : IsSize (promoted_size (max_size (bytes l) (bytes r)))
    widened =
        promoted_size-IsSize (max_size (bytes l) (bytes r))
          (max_size-IsSize (bytes l) (bytes r) h k)

    go :
        (a b c : Bool)
        → SizeIfAny (
            if a
            then some (
                integer_class
                  (is_signed l || is_signed r)
                  (promoted_size (max_size (bytes l) (bytes r))))
            else if b
            then some (integer_class true (promoted_size (max_size (bytes l) (bytes r))))
            else if c
            then some (
                if is_signed l
                then integer_class true (promoted_size (bytes r))
                else integer_class false (bytes r))
            else none)
    go true b c = widened
    go false true c = widened
    go false false true =
        if-IsSize (is_signed l) (integer_class true (promoted_size (bytes r)))
          (integer_class false (bytes r)) (promoted_size-IsSize (bytes r) k) k
    go false false false = tt

read_back : (c : IntegerClass) → IsSize (bytes c) → integer_class_of (named (class_name c)) ≡ some c
read_back (integer_class signed b) h = class_name-read signed b h

-- The integer type that an operator gives two integer operands has a name that arithmetic reads as the
-- integer that the rule computed, of the same sign and size: no result falls out of the table of
-- integer types.
pub integer_result-read :
    (operator : String) (left right : ChType) (l r c : IntegerClass)
    → integer_class_of left ≡ some l
    → integer_class_of right ≡ some r
    → integer_result operator l r ≡ some c
    → integer_class_of (named (class_name c)) ≡ some c
unfolding SizeIfAny
integer_result-read operator left right l r c hl hr h = read_back c (
    subst SizeIfAny h
      (integer_result-IsSize operator l r (class_of-IsSize left l hl) (class_of-IsSize right r hr)))

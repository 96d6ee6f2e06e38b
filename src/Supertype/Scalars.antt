-- ===== src/Supertype/Scalars.antt =====
-- The results of the supertype rules that are scalars: numeric, Decimal and temporal types.
use chgen.Base.{
  ◌≡◌, refl, ℕ, Bool, true, false, Option, none, some, if◌then◌else◌, AllOk, ltb, String, fold_eq,
  codes, codes_eq, codes-concat, lower, to_lower, map, ◌++◌,
}
use chgen.Base.Integers.{ℤ}
use Prim.Native.String.{◌++◌ as concat}
use chgen.ChType.{ChType, nil, name, params, named}
use chgen.Numeric.{
  Kind, unsigned, signed, float, NumericInfo, join_float, signed_of, join_mixed, join_info,
  common_numeric, or_refuse, join_infos, numeric_type_name,
}
use chgen.Supertype.Decimals.{common_decimal_supertype, one_decimal, widest}

-- A type without parameters that is not Nullable.
abbrev pub IsScalar : ChType → Type 0
IsScalar t = (params t ≡ nil) × (fold_eq (name t) "Nullable" ≡ false)

abbrev pub ScalarIfAny : Option ChType → Type 0
ScalarIfAny none = Unit
ScalarIfAny (some t) = IsScalar t

concat-not_nullable :
    (s t : String)
    → codes_eq (map to_lower (codes s ++ codes t)) (lower "Nullable") ≡ false
    → fold_eq (concat s t) "Nullable" ≡ false
unfolding fold_eq
concat-not_nullable s t h = rw (codes-concat s t) h

numeric_type_name-IsScalar : (k : Kind) (bits : ℕ) → IsScalar (named (numeric_type_name k bits))
unfolding numeric_type_name
numeric_type_name-IsScalar unsigned bits =
    (refl, concat-not_nullable "UInt" _ (unfold fold_eq in refl))
numeric_type_name-IsScalar signed bits =
    (refl, concat-not_nullable "Int" _ (unfold fold_eq in refl))
numeric_type_name-IsScalar float bits = (refl, concat-not_nullable "Int" _ (unfold fold_eq in refl))

float_name-IsScalar : (b : Bool) → IsScalar (named (if b then "Float32" else "Float64"))
unfolding fold_eq
float_name-IsScalar true = (refl, refl)
float_name-IsScalar false = (refl, refl)

some_float-IsScalar :
    (a b : Bool)
    → ScalarIfAny (if a then some (named "Float32") else if b then some (named "Float64") else none)
unfolding fold_eq
some_float-IsScalar true b = (refl, refl)
some_float-IsScalar false true = (refl, refl)
some_float-IsScalar false false = tt

join_float-IsScalar : (f i : ℕ) → ScalarIfAny (join_float f i)
unfolding join_float
join_float-IsScalar f i = some_float-IsScalar _ _

signed_of-IsScalar : (o : Option ℕ) → ScalarIfAny (signed_of o)
unfolding signed_of
signed_of-IsScalar none = tt
signed_of-IsScalar (some w) = numeric_type_name-IsScalar signed w

join_info-IsScalar : (k k' : Kind) (l r : ℕ) → ScalarIfAny (join_info k k' l r)
unfolding join_info join_mixed
join_info-IsScalar float float l r = float_name-IsScalar _
join_info-IsScalar float unsigned l r = join_float-IsScalar l r
join_info-IsScalar float signed l r = join_float-IsScalar l r
join_info-IsScalar unsigned float l r = join_float-IsScalar r l
join_info-IsScalar signed float l r = join_float-IsScalar r l
join_info-IsScalar unsigned unsigned l r =
    numeric_type_name-IsScalar unsigned (if ltb l r then r else l)
join_info-IsScalar signed signed l r = numeric_type_name-IsScalar signed (if ltb l r then r else l)
join_info-IsScalar unsigned signed l r = signed_of-IsScalar _
join_info-IsScalar signed unsigned l r = signed_of-IsScalar _

or_refuse-IsScalar :
    (l r : ChType) (o : Option ChType) → ScalarIfAny o → AllOk IsScalar (or_refuse l r o)
or_refuse-IsScalar l r none h = tt
or_refuse-IsScalar l r (some t) h = h

join_infos-IsScalar :
    (left right : ChType) (l r : Option NumericInfo) → AllOk IsScalar (join_infos left right l r)
join_infos-IsScalar left right (some l) (some r) =
    or_refuse-IsScalar left right _ (join_info-IsScalar l.kind r.kind l.bits r.bits)
join_infos-IsScalar left right (some l) none = tt
join_infos-IsScalar left right none r = tt

-- A numeric supertype is a scalar.
pub common_numeric-IsScalar : (left right : ChType) → AllOk IsScalar (common_numeric left right)
unfolding common_numeric
common_numeric-IsScalar left right = join_infos-IsScalar left right _ _

widest-IsScalar : (l r : Option (ℕ × ℤ)) → ScalarIfAny (widest l r)
unfolding fold_eq
widest-IsScalar (some (l, s)) (some (r, t)) = (refl, refl)
widest-IsScalar (some l) none = tt
widest-IsScalar none r = tt

one_decimal-IsScalar :
    (left right : ChType) (l r : Option (ℤ × ℤ)) → ScalarIfAny (one_decimal left right l r)
one_decimal-IsScalar left right none none = tt
one_decimal-IsScalar left right (some d) r = widest-IsScalar _ _
one_decimal-IsScalar left right none (some d) = widest-IsScalar _ _

-- A Decimal supertype is a scalar.
pub common_decimal-IsScalar :
    (left right : ChType) → ScalarIfAny (common_decimal_supertype left right)
unfolding common_decimal_supertype
common_decimal-IsScalar left right = one_decimal-IsScalar left right _ _

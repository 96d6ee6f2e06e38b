-- ===== src/Numeric.antt =====
-- The supertype of two numeric types: `numericInfo`, `numericInfoForType`, `numericTypeName` and
-- `commonNumericCHType` of internal/engine/supertype.go.
pub mod Ranges
pub mod Widening
pub mod Join
pub mod Refusal
use chgen.Base.{
  ℕ, zero, suc, ◌+◌, ◌*◌, ◌/◌, ◌%◌, String, Bool, ◌&&◌, ◌||◌, Option, none, some, List, [], ◌∷◌,
  ◌++◌, leb, ltb, ◌==◌, if◌then◌else◌, fold_switch, max, Result, ok, err,
}
use Prim.Native.String.{◌++◌ as concat}
use chgen.Base.Integers.{itoa}
use chgen.ChType.{ChType, name, named}

pub data Kind : Type 0 where
  unsigned signed float : Kind

pub record NumericInfo : Type 0 where
  pub kind : Kind
  pub bits : ℕ

abbrev pub info : Kind → ℕ → NumericInfo
info k b = record { kind = k; bits = b }

-- The switch of `numericInfoForType`.
abbrev pub numeric_table : List (String × NumericInfo)
numeric_table =
    ("uint8", info unsigned 8)
    ∷ ("uint16", info unsigned 16)
    ∷ ("uint32", info unsigned 32)
    ∷ ("uint64", info unsigned 64)
    ∷ ("int8", info signed 8)
    ∷ ("int16", info signed 16)
    ∷ ("int32", info signed 32)
    ∷ ("int64", info signed 64)
    ∷ ("int", info signed 64)
    ∷ ("uint128", info unsigned 128)
    ∷ ("uint256", info unsigned 256)
    ∷ ("int128", info signed 128)
    ∷ ("int256", info signed 256)
    ∷ ("float32", info float 32)
    ∷ ("float64", info float 64)
    ∷ []

unfoldable pub numeric_info_for_type : ChType → Option NumericInfo
numeric_info_for_type value = fold_switch (name value) numeric_table

unfoldable pub numeric_type_name : Kind → ℕ → String
unfolding itoa
numeric_type_name Kind.unsigned bits = concat "UInt" (itoa 3 bits)
numeric_type_name _ bits = concat "Int" (itoa 3 bits)

-- The widths that a signed result may have.
unfoldable pub candidates : ℕ → ℕ → List ℕ
candidates unsigned_bits signed_bits =
    (8 ∷ 16 ∷ 32 ∷ 64 ∷ [])
    ++ (if leb 128 unsigned_bits || leb 128 signed_bits then 128 ∷ 256 ∷ [] else [])

unfoldable pub first_fit : ℕ → ℕ → List ℕ → Option ℕ
first_fit unsigned_bits signed_bits [] = none
first_fit unsigned_bits signed_bits (w ∷ ws) =
    if leb (unsigned_bits * 2) w && leb signed_bits w
    then some w
    else first_fit unsigned_bits signed_bits ws

-- A float with an integer keeps the float that holds every integer value exactly.
unfoldable pub join_float : ℕ → ℕ → Option ChType
join_float float_bits integer_bits =
    if leb integer_bits 16 && float_bits == 32
    then some (named "Float32")
    else if leb integer_bits 32
    then some (named "Float64")
    else none

unfoldable pub signed_of : Option ℕ → Option ChType
unfolding numeric_type_name
signed_of none = none
signed_of (some w) = some (named (numeric_type_name Kind.signed w))

unfoldable pub join_mixed : ℕ → ℕ → Option ChType
unfolding candidates first_fit signed_of
join_mixed unsigned_bits signed_bits =
    signed_of (first_fit unsigned_bits signed_bits (candidates unsigned_bits signed_bits))

-- The branches of `commonNumericCHType`, by the two kinds; `none` is its refusal.
unfoldable pub join_info : Kind → Kind → ℕ → ℕ → Option ChType
unfolding numeric_type_name join_float join_mixed
join_info float float l r = some (named (if l == 32 && r == 32 then "Float32" else "Float64"))
join_info float unsigned l r = join_float l r
join_info float signed l r = join_float l r
join_info unsigned float l r = join_float r l
join_info signed float l r = join_float r l
join_info unsigned unsigned l r =
    some (named (numeric_type_name Kind.unsigned (if ltb l r then r else l)))
join_info signed signed l r =
    some (named (numeric_type_name Kind.signed (if ltb l r then r else l)))
join_info unsigned signed l r = join_mixed l r
join_info signed unsigned l r = join_mixed r l

pub data NumericError : Type 0 where
  not_numeric no_common_type : ChType → ChType → NumericError

abbrev pub or_refuse : ChType → ChType → Option ChType → Result NumericError ChType
or_refuse left right none = err (no_common_type left right)
or_refuse left right (some t) = ok t

abbrev pub join_infos :
    ChType → ChType → Option NumericInfo → Option NumericInfo → Result NumericError ChType
join_infos left right (some l) (some r) =
    or_refuse left right (join_info l.kind r.kind l.bits r.bits)
join_infos left right (some l) none = err (not_numeric left right)
join_infos left right none r = err (not_numeric left right)

unfoldable pub common_numeric : ChType → ChType → Result NumericError ChType
common_numeric left right =
    join_infos left right (numeric_info_for_type left) (numeric_info_for_type right)

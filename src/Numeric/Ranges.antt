-- ===== src/Numeric/Ranges.antt =====
-- What the numeric types hold, as a specification: the integers that every value of a type is, or,
-- for a float, the interval in which it holds every integer exactly.
use chgen.Base.{
  ◌≡◌, refl, ℕ, ◌-◌, ◌^◌, ◌≤◌, ◌<◌, ◌⊎◌, inl, inr, some, List, [], ◌∷◌, All, arith, String, fold_eq,
  fold_switch, if◌then◌else◌, ltb, Bool-cases,
}
use native.Mathlib.Nat.{pow-le-pow_right}
use mathlib.Core.Path.{subst}
use chgen.ChType.{ChType, name, named}
use chgen.Numeric.{
  Kind, unsigned, signed, float, NumericInfo, info, numeric_info_for_type, numeric_type_name,
  numeric_table,
}

-- `negsuc n` is -(n + 1).
pub data ℤ : Type 0 where
  pos : ℕ → ℤ
  negsuc : ℕ → ℤ

abbrev pub Holds : Kind → ℕ → ℤ → Type 0
Holds unsigned b (pos n) = n < 2 ^ b
Holds unsigned b (negsuc n) = ⊥
Holds signed b (pos n) = n < 2 ^ (b - 1)
Holds signed b (negsuc n) = n < 2 ^ (b - 1)
Holds float b (pos n) = n ≤ 2 ^ (if ltb b 64 then 24 else 53)
Holds float b (negsuc n) = n < 2 ^ (if ltb b 64 then 24 else 53)

-- The widths that the table has.
abbrev pub IsWidth : Kind → ℕ → Type 0
IsWidth float b = (b ≡ 32) ⊎ (b ≡ 64)
IsWidth unsigned b = (b ≡ 8) ⊎ (b ≡ 16) ⊎ (b ≡ 32) ⊎ (b ≡ 64) ⊎ (b ≡ 128) ⊎ (b ≡ 256)
IsWidth signed b = (b ≡ 8) ⊎ (b ≡ 16) ⊎ (b ≡ 32) ⊎ (b ≡ 64) ⊎ (b ≡ 128) ⊎ (b ≡ 256)

pub pow_le : {a b : ℕ} → a ≤ b → 2 ^ a ≤ 2 ^ b
pow_le h = pow-le-pow_right {n = 2} (omega arith) h

pub fold_switch-All {ℓ κ} :
    {A : Type ℓ} (P : A → Type κ) (n : String) (table : List (String × A)) (a : A)
    → All (λ e. P e.1) table
    → fold_switch n table ≡ some a
    → P a
unfolding fold_switch
fold_switch-All P n [] a h e = cc
fold_switch-All P n ((s, x) ∷ rest) a h e = elim (Bool-cases (fold_eq n s)) [
  | inl hit ↦ let p : some x ≡ some a = rw hit at e in subst P (cc) h.0
  | inr miss ↦ fold_switch-All P n rest a h.1 (rw miss at e)
]

-- The table has these widths only.
pub numeric_info-IsWidth :
    (t : ChType) (i : NumericInfo) → numeric_info_for_type t ≡ some i → IsWidth i.kind i.bits
unfolding numeric_info_for_type
numeric_info-IsWidth t i h =
    fold_switch-All (λ j. IsWidth j.kind j.bits) (name t) numeric_table i (omega arith) h

-- A type that the code names by a kind and a width reads back as that kind and width.
pub numeric_info-unsigned :
    (b : ℕ)
    → IsWidth unsigned b
    → numeric_info_for_type (named (numeric_type_name unsigned b)) ≡ some (info unsigned b)
unfolding numeric_info_for_type numeric_type_name fold_switch fold_eq
numeric_info-unsigned b (inl e) = rw e
numeric_info-unsigned b (inr (inl e)) = rw e
numeric_info-unsigned b (inr (inr (inl e))) = rw e
numeric_info-unsigned b (inr (inr (inr (inl e)))) = rw e
numeric_info-unsigned b (inr (inr (inr (inr (inl e))))) = rw e
numeric_info-unsigned b (inr (inr (inr (inr (inr e))))) = rw e

pub numeric_info-signed :
    (b : ℕ)
    → IsWidth signed b
    → numeric_info_for_type (named (numeric_type_name signed b)) ≡ some (info signed b)
unfolding numeric_info_for_type numeric_type_name fold_switch fold_eq
numeric_info-signed b (inl e) = rw e
numeric_info-signed b (inr (inl e)) = rw e
numeric_info-signed b (inr (inr (inl e))) = rw e
numeric_info-signed b (inr (inr (inr (inl e)))) = rw e
numeric_info-signed b (inr (inr (inr (inr (inl e))))) = rw e
numeric_info-signed b (inr (inr (inr (inr (inr e))))) = rw e

pub numeric_info-floats :
    (numeric_info_for_type (named "Float32") ≡ some (info float 32))
    × (numeric_info_for_type (named "Float64") ≡ some (info float 64))
unfolding numeric_info_for_type fold_switch fold_eq
numeric_info-floats = (refl, refl)

-- ===== src/Numeric/Widening.antt =====
-- A supertype of two numeric types as a notion, and the join of an unsigned and a signed one.
use chgen.Base.{
  ◌≡◌, refl, ℕ, ◌-◌, ◌*◌, ◌≤◌, ◌<◌, inl, inr, ◌&&◌, ◌||◌, Option, none, some, List, [], ◌∷◌, All,
  arith, leb, Bool-cases, and-eq-true, leb→le, subst,
}
use native.Mathlib.Nat.{le_trans}
use chgen.ChType.{ChType}
use chgen.Numeric.{
  Kind, unsigned, signed, info, numeric_info_for_type, candidates, first_fit, signed_of, join_mixed,
}
use chgen.Numeric.Ranges.{ℤ, pos, negsuc, Holds, IsWidth, pow_le, numeric_info-signed}

-- `t` is a numeric type that holds every value of both.
pub record Joins (k k' : Kind) (l r : ℕ) (t : ChType) : Type 0 where
  pub kind : Kind
  pub bits : ℕ
  pub reads : numeric_info_for_type t ≡ some (info kind bits)
  pub left : (z : ℤ) → Holds k l z → Holds kind bits z
  pub right : (z : ℤ) → Holds k' r z → Holds kind bits z

pub widen_unsigned : (b c : ℕ) → b ≤ c → (z : ℤ) → Holds unsigned b z → Holds unsigned c z
widen_unsigned b c h (pos n) k = le_trans k (pow_le h)
widen_unsigned b c h (negsuc n) k = k

pub widen_signed : (b c : ℕ) → b ≤ c → (z : ℤ) → Holds signed b z → Holds signed c z
widen_signed b c h (pos n) k = le_trans k (pow_le {a = b - 1} {b = c - 1} (omega arith))
widen_signed b c h (negsuc n) k = le_trans k (pow_le {a = b - 1} {b = c - 1} (omega arith))

pub unsigned_fits : (u w : ℕ) → 0 < u → u * 2 ≤ w → (z : ℤ) → Holds unsigned u z → Holds signed w z
unsigned_fits u w h le (pos n) k = le_trans k (pow_le {a = u} {b = w - 1} (omega arith))
unsigned_fits u w h le (negsuc n) k = absurd k

first_fit-fits :
    (u s w : ℕ) (P : ℕ → Type 0) (ws : List ℕ)
    → All P ws
    → first_fit u s ws ≡ some w
    → (u * 2 ≤ w) × (s ≤ w) × P w
unfolding first_fit
first_fit-fits u s w P [] all h = cc
first_fit-fits u s w P (x ∷ ws) all h = elim (Bool-cases (leb (u * 2) x && leb s x)) [
  | inl fits ↦
      let p : some x ≡ some w = rw fits at h in
      let (a, b) = and-eq-true _ _ fits in
      subst (λ y. (u * 2 ≤ y) × (s ≤ y) × P y) (cc) (leb→le (u * 2) x a, leb→le s x b, all.0)
  | inr misfit ↦ first_fit-fits u s w P ws all.1 (rw misfit at h)
]

candidates-IsWidth : (u s : ℕ) → All (IsWidth signed) (candidates u s)
unfolding candidates
candidates-IsWidth u s = elim (Bool-cases (leb 128 u || leb 128 s)) [
  | inl wide ↦ rw wide (omega arith)
  | inr narrow ↦ rw narrow (omega arith)
]

signed_of-Joins :
    (u s : ℕ) (t : ChType)
    → 0 < u
    → (w : Option ℕ) → first_fit u s (candidates u s) ≡ w
    → signed_of w ≡ some t
    → Joins unsigned signed u s t
unfolding signed_of
signed_of-Joins u s t pos_u none e h = cc
signed_of-Joins u s t pos_u (some w) e h =
    let (a, b, width) =
      first_fit-fits u s w (IsWidth signed) (candidates u s) (candidates-IsWidth u s) e in
    record {
      kind = signed;
      bits = w;
      reads =
          subst (λ y. numeric_info_for_type y ≡ some (info signed w)) (cc)
            (numeric_info-signed w width);
      left = unsigned_fits u w pos_u a;
      right = widen_signed s w b;
    }

pub join_mixed-Joins :
    (u s : ℕ) (t : ChType) → 0 < u → join_mixed u s ≡ some t → Joins unsigned signed u s t
unfolding join_mixed
join_mixed-Joins u s t pos_u h = signed_of-Joins u s t pos_u _ refl h

pub flip : {k k' : Kind} {l r : ℕ} {t : ChType} → Joins k k' l r t → Joins k' k r l t
flip j = record { kind = j.kind; bits = j.bits; reads = j.reads; left = j.right; right = j.left }

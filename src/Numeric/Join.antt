-- ===== src/Numeric/Join.antt =====
-- The numeric supertype holds every value of both operands.
use chgen.Base.{
  ◌≡◌, refl, ℕ, ◌-◌, ◌≤◌, ◌<◌, inl, inr, ◌&&◌, ◌==◌, ◌≢◌, none, some, arith, ltb, leb,
  if◌then◌else◌, ok, Bool-cases, subst,
}
use chgen.ChType.{ChType, named}
use chgen.Numeric.{
  Kind, unsigned, signed, float, NumericInfo, numeric_info_for_type, numeric_type_name, join_float,
  join_info, common_numeric,
}
use chgen.Numeric.Ranges.{
  ℤ, pos, negsuc, Holds, IsWidth, pow_le, numeric_info-IsWidth, numeric_info-unsigned,
  numeric_info-signed, numeric_info-floats,
}
use chgen.Numeric.Widening.{Joins, widen_signed, widen_unsigned, join_mixed-Joins, flip}

wider-Joins-unsigned :
    (l r : ℕ)
    → IsWidth unsigned l
    → IsWidth unsigned r
    → Joins unsigned unsigned l r (named (numeric_type_name unsigned (if ltb l r then r else l)))
wider-Joins-unsigned l r hl hr = elim (Bool-cases (ltb l r)) [
  | inl lt ↦ rw lt (record {
    kind = unsigned;
    bits = r;
    reads = numeric_info-unsigned r hr;
    left = widen_unsigned l r (ground arith);
    right = λ z h. h;
  })
  | inr ge ↦ rw ge (record {
    kind = unsigned;
    bits = l;
    reads = numeric_info-unsigned l hl;
    left = λ z h. h;
    right = widen_unsigned r l (ground arith);
  })
]

wider-Joins-signed :
    (l r : ℕ)
    → IsWidth signed l
    → IsWidth signed r
    → Joins signed signed l r (named (numeric_type_name signed (if ltb l r then r else l)))
wider-Joins-signed l r hl hr = elim (Bool-cases (ltb l r)) [
  | inl lt ↦ rw lt (record {
    kind = signed;
    bits = r;
    reads = numeric_info-signed r hr;
    left = widen_signed l r (ground arith);
    right = λ z h. h;
  })
  | inr ge ↦ rw ge (record {
    kind = signed;
    bits = l;
    reads = numeric_info-signed l hl;
    left = λ z h. h;
    right = widen_signed r l (ground arith);
  })
]

-- An integer type that is narrower than the float's significand.
int_exact :
    (k : Kind) (i c : ℕ)
    → k ≢ float
    → i ≤ (if ltb c 64 then 24 else 53)
    → (z : ℤ) → Holds k i z
    → Holds float c z
int_exact float i c no_float h z v = absurd (no_float refl)
int_exact unsigned i c no_float h (pos n) v = omega (arith, pow_le h)
int_exact unsigned i c no_float h (negsuc n) v = absurd v
int_exact signed i c no_float h (pos n) v =
    omega (arith, pow_le {a = i - 1} {b = i} (omega arith), pow_le h)
int_exact signed i c no_float h (negsuc n) v =
    omega (arith, pow_le {a = i - 1} {b = i} (omega arith), pow_le h)

float_widen : (c : ℕ) → IsWidth float c → (z : ℤ) → Holds float c z → Holds float 64 z
float_widen c (inl e) (pos n) v = omega (arith, subst (λ b. Holds float b (pos n)) e v)
float_widen c (inl e) (negsuc n) v = omega (arith, subst (λ b. Holds float b (negsuc n)) e v)
float_widen c (inr e) z v = subst (λ b. Holds float b z) e v

join_float-Joins :
    (k : Kind) (f i : ℕ) (t : ChType)
    → k ≢ float
    → IsWidth float f
    → join_float f i ≡ some t
    → Joins float k f i t
unfolding join_float
join_float-Joins k f i t int hf h = elim (Bool-cases (leb i 16 && f == 32)) [
  | inl narrow ↦
      let p : some (named "Float32") ≡ some t = rw narrow at h in
      let e : f ≡ 32 = ground arith in
      subst (Joins float k f i) (cc) (record {
        kind = float;
        bits = 32;
        reads = numeric_info-floats.0;
        left = λ z v. subst (λ b. Holds float b z) e v;
        right = int_exact k i 32 int (ground arith);
      })
  | inr other ↦ elim (Bool-cases (leb i 32)) [
    | inl wide ↦
        let p : some (named "Float64") ≡ some t = rw wide at (rw other at h) in
        subst (Joins float k f i) (cc) (record {
          kind = float;
          bits = 64;
          reads = numeric_info-floats.1;
          left = float_widen f hf;
          right = int_exact k i 64 int (ground arith);
        })
    | inr refused ↦ let p : none ≡ some t = rw refused at (rw other at h) in cc
  ]
]

floats-Joins :
    (l r : ℕ)
    → IsWidth float l
    → IsWidth float r
    → Joins float float l r (named (if l == 32 && r == 32 then "Float32" else "Float64"))
floats-Joins l r hl hr = elim (Bool-cases (l == 32 && r == 32)) [
  | inl both ↦
      let e : l ≡ 32 = ground arith in
      let e' : r ≡ 32 = ground arith in
      rw both (record {
        kind = float;
        bits = 32;
        reads = numeric_info-floats.0;
        left = λ z v. subst (λ b. Holds float b z) e v;
        right = λ z v. subst (λ b. Holds float b z) e' v;
      })
  | inr other ↦ rw other (record {
    kind = float;
    bits = 64;
    reads = numeric_info-floats.1;
    left = float_widen l hl;
    right = float_widen r hr;
  })
]

width_pos : (b : ℕ) → IsWidth unsigned b → 0 < b
width_pos b h = omega arith

pub join_info-Joins :
    (k k' : Kind) (l r : ℕ) (t : ChType)
    → IsWidth k l
    → IsWidth k' r
    → join_info k k' l r ≡ some t
    → Joins k k' l r t
unfolding join_info
join_info-Joins float float l r t hl hr h =
    subst (Joins float float l r) (cc) (floats-Joins l r hl hr)
join_info-Joins float unsigned l r t hl hr h = join_float-Joins unsigned l r t (λ e. cc) hl h
join_info-Joins float signed l r t hl hr h = join_float-Joins signed l r t (λ e. cc) hl h
join_info-Joins unsigned float l r t hl hr h = flip (join_float-Joins unsigned r l t (λ e. cc) hr h)
join_info-Joins signed float l r t hl hr h = flip (join_float-Joins signed r l t (λ e. cc) hr h)
join_info-Joins unsigned unsigned l r t hl hr h =
    subst (Joins unsigned unsigned l r) (cc) (wider-Joins-unsigned l r hl hr)
join_info-Joins signed signed l r t hl hr h =
    subst (Joins signed signed l r) (cc) (wider-Joins-signed l r hl hr)
join_info-Joins unsigned signed l r t hl hr h = join_mixed-Joins l r t (width_pos l hl) h
join_info-Joins signed unsigned l r t hl hr h = flip (join_mixed-Joins r l t (width_pos r hr) h)

-- Where two numeric types have a supertype, it is a numeric type that holds every value of both:
-- every integer of an integer type, and the integers that a float holds exactly.
pub common_numeric-Joins :
    (left right t : ChType) (l r : NumericInfo)
    → numeric_info_for_type left ≡ some l
    → numeric_info_for_type right ≡ some r
    → common_numeric left right ≡ ok t
    → Joins l.kind r.kind l.bits r.bits t
unfolding common_numeric
common_numeric-Joins left right t l r hl hr h =
    join_info-Joins l.kind r.kind l.bits r.bits t (numeric_info-IsWidth left l hl)
      (numeric_info-IsWidth right r hr) (ground arith)

-- ===== src/Numeric/Refusal.antt =====
-- Where the numeric supertype is refused, its symmetry, and the width it chooses.
use chgen.Base.{
  ◌≡◌, refl, ℕ, ◌*◌, ◌≤◌, ◌↔◌, Bool, true, false, ◌&&◌, ◌||◌, ◌==◌, Option, none, some, arith, ltb,
  leb, if◌then◌else◌, ok, err, sym, ap, subst, ◌∙◌,
}
use chgen.ChType.{ChType, named}
use chgen.Numeric.{
  Kind, unsigned, signed, float, NumericInfo, info, numeric_info_for_type, candidates, first_fit,
  join_float, signed_of, join_mixed, join_info, common_numeric, or_refuse, join_infos,
  no_common_type, numeric_type_name,
}
use chgen.Numeric.Ranges.{IsWidth, numeric_info-IsWidth, numeric_info-signed}

-- The pairs that the server refuses: a 64-bit or wider integer with a float, an unsigned 256-bit
-- integer with a signed one, and UInt64 with a signed integer of at most 64 bits.
abbrev pub refuses : Kind → Kind → ℕ → ℕ → Bool
refuses float float l r = false
refuses float unsigned l r = leb 64 r
refuses float signed l r = leb 64 r
refuses unsigned float l r = leb 64 l
refuses signed float l r = leb 64 l
refuses unsigned unsigned l r = false
refuses signed signed l r = false
refuses unsigned signed l r = l == 256 || (l == 64 && leb r 64)
refuses signed unsigned l r = r == 256 || (r == 64 && leb l 64)

is_none {ℓ} : {A : Type ℓ} → Option A → Bool
is_none none = true
is_none (some a) = false

join_float-refuses : (f i : ℕ) → IsWidth unsigned i → is_none (join_float f i) ≡ leb 64 i
unfolding join_float is_none
join_float-refuses f i h = ground arith

join_mixed-refuses :
    (u s : ℕ)
    → IsWidth unsigned u
    → IsWidth signed s
    → is_none (join_mixed u s) ≡ (u == 256 || (u == 64 && leb s 64))
unfolding join_mixed is_none
join_mixed-refuses u s hu hs = ground arith

join_info-refuses :
    (k k' : Kind) (l r : ℕ)
    → IsWidth k l
    → IsWidth k' r
    → is_none (join_info k k' l r) ≡ refuses k k' l r
unfolding join_info is_none
join_info-refuses float float l r hl hr = refl
join_info-refuses float unsigned l r hl hr = join_float-refuses l r hr
join_info-refuses float signed l r hl hr = join_float-refuses l r hr
join_info-refuses unsigned float l r hl hr = join_float-refuses r l hl
join_info-refuses signed float l r hl hr = join_float-refuses r l hl
join_info-refuses unsigned unsigned l r hl hr = refl
join_info-refuses signed signed l r hl hr = refl
join_info-refuses unsigned signed l r hl hr = join_mixed-refuses l r hl hr
join_info-refuses signed unsigned l r hl hr = join_mixed-refuses r l hr hl

refused_iff :
    (left right : ChType) (o : Option ChType) (b : Bool)
    → is_none o ≡ b
    → (or_refuse left right o ≡ err (no_common_type left right)) ↔ (b ≡ true)
unfolding is_none
refused_iff left right none b h = (λ _. sym h, λ _. refl)
refused_iff left right (some t) b h = (λ e. cc, λ e. cc)

-- Two numeric types are refused a supertype exactly if they are one of the pairs that the server
-- refuses.
pub common_numeric-refuses :
    (left right : ChType) (l r : NumericInfo)
    → numeric_info_for_type left ≡ some l
    → numeric_info_for_type right ≡ some r
    → (common_numeric left right ≡ err (no_common_type left right))
      ↔ (refuses l.kind r.kind l.bits r.bits ≡ true)
unfolding common_numeric
common_numeric-refuses left right l r hl hr =
    rw (hl, hr)
      (refused_iff left right (join_info l.kind r.kind l.bits r.bits) _ (
        join_info-refuses l.kind r.kind l.bits r.bits (numeric_info-IsWidth left l hl)
          (numeric_info-IsWidth right r hr)))

wider_comm : (l r : ℕ) → (if ltb l r then r else l) ≡ (if ltb r l then l else r)
wider_comm l r = ground arith

join_info_comm : (k k' : Kind) (l r : ℕ) → join_info k k' l r ≡ join_info k' k r l
unfolding join_info
join_info_comm float float l r = ground arith
join_info_comm float unsigned l r = refl
join_info_comm float signed l r = refl
join_info_comm unsigned float l r = refl
join_info_comm signed float l r = refl
join_info_comm unsigned unsigned l r =
    ap (λ b. some (named (numeric_type_name unsigned b))) (wider_comm l r)
join_info_comm signed signed l r =
    ap (λ b. some (named (numeric_type_name signed b))) (wider_comm l r)
join_info_comm unsigned signed l r = refl
join_info_comm signed unsigned l r = refl

accepted_comm :
    (left right t : ChType) (o o' : Option ChType)
    → o ≡ o'
    → or_refuse left right o ≡ ok t
    → or_refuse right left o' ≡ ok t
accepted_comm left right t none none e h = cc
accepted_comm left right t none (some x) e h = cc
accepted_comm left right t (some x) none e h = cc
accepted_comm left right t (some x) (some y) e h = cc

-- If two types have a numeric supertype, the reversed pair has the same one.
pub common_numeric_comm :
    (left right t : ChType) → common_numeric left right ≡ ok t → common_numeric right left ≡ ok t
unfolding common_numeric
common_numeric_comm left right t h = go (numeric_info_for_type left) (numeric_info_for_type right) h
  where
    go :
        (l r : Option NumericInfo)
        → join_infos left right l r ≡ ok t
        → join_infos right left r l ≡ ok t
    go (some l) (some r) e =
        accepted_comm left right t _ _ (join_info_comm l.kind r.kind l.bits r.bits) e
    go (some l) none e = cc
    go none (some r) e = cc
    go none none e = cc

first_fit-least :
    (u s w w' : ℕ)
    → IsWidth unsigned u
    → IsWidth signed s
    → IsWidth signed w'
    → first_fit u s (candidates u s) ≡ some w
    → u * 2 ≤ w'
    → s ≤ w'
    → (u * 2 ≤ w) × (s ≤ w) × (w ≤ w') × IsWidth signed w
unfolding candidates first_fit
first_fit-least u s w w' hu hs hw h a b = (ground arith, ground arith, ground arith, ground arith)

-- A signed type that has the unsigned range and the signed one, and no wider than w'.
abbrev pub IsLeast : ℕ → ℕ → ℕ → NumericInfo → Type 0
IsLeast u s w' c = (c.kind ≡ signed) × (u * 2 ≤ c.bits) × (s ≤ c.bits) × (c.bits ≤ w')

signed_of-IsLeast :
    (u s w' : ℕ) (t : ChType) (c : NumericInfo)
    → IsWidth unsigned u
    → IsWidth signed s
    → IsWidth signed w'
    → u * 2 ≤ w'
    → s ≤ w'
    → numeric_info_for_type t ≡ some c
    → (o : Option ℕ) → first_fit u s (candidates u s) ≡ o
    → signed_of o ≡ some t
    → IsLeast u s w' c
unfolding signed_of
signed_of-IsLeast u s w' t c hu hs hw a b read none e h = cc
signed_of-IsLeast u s w' t c hu hs hw a b read (some w) e h =
    let (double, same, le, width) = first_fit-least u s w w' hu hs hw e a b in
    let known : some (info signed w) ≡ some c =
      sym (numeric_info-signed w width) ∙ subst (λ y. numeric_info_for_type y ≡ some c) (cc) read in
    subst (IsLeast u s w') (cc) (refl, double, same, le)

-- The supertype of an unsigned and a signed integer type is the narrowest signed integer type that
-- fits both: whenever some signed width w' is at least twice the unsigned width and at least the
-- signed width, the supertype is signed, its width is that too, and it is no wider than w'.
pub common_numeric-least :
    (left right t : ChType) (u s w' : ℕ) (c : NumericInfo)
    → numeric_info_for_type left ≡ some (info unsigned u)
    → numeric_info_for_type right ≡ some (info signed s)
    → common_numeric left right ≡ ok t
    → numeric_info_for_type t ≡ some c
    → IsWidth signed w'
    → u * 2 ≤ w'
    → s ≤ w'
    → (c.kind ≡ signed) × (u * 2 ≤ c.bits) × (s ≤ c.bits) × (c.bits ≤ w')
unfolding common_numeric join_info join_mixed
common_numeric-least left right t u s w' c hl hr h read hw a b =
    signed_of-IsLeast u s w' t c (numeric_info-IsWidth left (info unsigned u) hl)
      (numeric_info-IsWidth right (info signed s) hr) hw a b read (first_fit u s (candidates u s))
      refl (ground arith)

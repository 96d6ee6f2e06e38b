-- ===== src/Composition/Bounds.antt =====
-- The limit of 32 variants.
use native.Mathlib.Nat.{
  le-div_iff_mul-le, mul_assoc, mul-pos, le_trans, mul-le-mul_left, pow-le-pow_right,
}
use chgen.Base.{
  ◌≡◌, ap, ◌∙◌, ◌↔◌, ℕ, ◌*◌, ◌/◌, ◌^◌, ◌≤◌, ◌<◌, String, false, ◌||◌, List, [], ◌∷◌, ◌++◌, length,
  ltb, ◌==◌, All, Bool-cases, inl, inr, ok, or-eq-false, AllOk, AllOk-reject, AllOk-map, AllOk-ok,
  arith,
}
use chgen.Composition.{TableChoice, contains, count_choices, composition_variant_count}

-- The number of ways to choose one table of each choice.
unfoldable pub product : List TableChoice → ℕ
product [] = 1
product (choice ∷ rest) = length choice.tables * product rest

-- No choice has the name of an option or of an earlier choice.
abbrev pub FreshNames : List String → List TableChoice → Type 0
FreshNames names [] = Unit
FreshNames names (choice ∷ rest) =
    (contains names choice.name ≡ false) × FreshNames (names ++ (choice.name ∷ [])) rest

abbrev pub HasTables : TableChoice → Type 0
HasTables choice = 0 < length choice.tables

product-pos : (tables : List TableChoice) → All HasTables tables → 0 < product tables
unfolding product
product-pos [] h = omega arith
product-pos (choice ∷ rest) h = mul-pos h.0 (product-pos rest h.1)

-- What the loop accepts, and with which count.
abbrev pub Accepted : ℕ → List String → List TableChoice → ℕ → Type 0
Accepted count names tables n =
    FreshNames names tables
    × All HasTables tables
    × (count * product tables ≤ 32)
    × (n ≡ count * product tables)

pub at_most-product : (a b : ℕ) → 0 < b → a ≤ a * b
at_most-product a b h = omega (arith, mul-le-mul_left {m = 1} {n = b} a h)

-- The code divides where the product might overflow.
guard_iff : (count len : ℕ) → 0 < len → (ltb (32 / len) count ≡ false) ↔ (count * len ≤ 32)
guard_iff count len h =
    let e = le-div_iff_mul-le {k = len} {x = count} {y = 32} h in
    (λ g. e.0 (ground arith), λ g. ground (arith, e.1 g))

count_choices-Accepted :
    (count : ℕ) (names : List String) (tables : List TableChoice)
    → count ≤ 32
    → AllOk (Accepted count names tables) (count_choices count names tables)
unfolding count_choices product
count_choices-Accepted count names [] le = (tt, tt, omega arith, omega arith)
count_choices-Accepted count names (choice ∷ rest) le =
    let len = length choice.tables in
    let P = Accepted count names (choice ∷ rest) in
    AllOk-reject P (contains names choice.name) _ _ (λ fresh.
      AllOk-reject P (len == 0 || ltb (32 / len) count) _ _ (λ fits.
        let pos : 0 < len = ground arith in
        let within = (guard_iff count len pos).0 (or-eq-false (len == 0) _ fits).1 in
        AllOk-map (Accepted (count * len) (names ++ (choice.name ∷ [])) rest) P
          (count_choices (count * len) (names ++ (choice.name ∷ [])) rest)
          (λ n a.
            let assoc = mul_assoc count len (product rest) in
            ((fresh, a.0), (pos, a.1), omega (arith, assoc, a.2), omega (arith, assoc, a.3)))
          (count_choices-Accepted (count * len) (names ++ (choice.name ∷ [])) rest within)))

count_choices-eq-ok :
    (count : ℕ) (names : List String) (tables : List TableChoice)
    → FreshNames names tables
    → All HasTables tables
    → count * product tables ≤ 32
    → count_choices count names tables ≡ ok (count * product tables)
unfolding count_choices product
count_choices-eq-ok count names [] fresh full le = ap ok (omega arith)
count_choices-eq-ok count names (choice ∷ rest) fresh full le =
    let len = length choice.tables in
    let assoc = mul_assoc count len (product rest) in
    let small : count * len ≤ 32 =
      le_trans (at_most-product (count * len) (product rest) (product-pos rest full.1))
        (omega (arith, assoc)) in
    let fits : (len == 0 || ltb (32 / len) count) ≡ false =
      ground (arith, full.0, (guard_iff count len full.0).1 small) in
    rw (fresh.0, fits)
      (count_choices-eq-ok (count * len) (names ++ (choice.name ∷ [])) rest fresh.1 full.1
          (omega (arith, assoc))
        ∙ ap ok assoc)

two_pow : {a b : ℕ} → a ≤ b → 2 ^ a ≤ 2 ^ b
two_pow h = pow-le-pow_right {n = 2} (omega arith) h

pow_fits : (l : ℕ) → (ltb 5 l ≡ false) ↔ (2 ^ l ≤ 32)
pow_fits l = (
  λ h. two_pow {a = l} {b = 5} (ground arith),
  λ h. elim (Bool-cases (ltb 5 l)) [
    | inr fits ↦ fits
    | inl over ↦ let big = two_pow {a = 6} {b = l} (ground arith) in absurd (omega (arith, big, h))
  ],
)

-- The count of variants: it is given exactly if no choice repeats a name, every choice has a table,
-- and there are at most 32 combinations of options and tables, and then it is their number.
pub composition_variant_count_iff :
    (options : List String) (tables : List TableChoice) (n : ℕ)
    → (composition_variant_count options tables ≡ ok n)
      ↔ Accepted (2 ^ length options) options tables n
unfolding composition_variant_count
composition_variant_count_iff options tables n =
    let P = Accepted (2 ^ length options) options tables in
    (
      AllOk-ok P (composition_variant_count options tables) (
          AllOk-reject P (ltb 5 (length options)) _ _ (λ fits.
            count_choices-Accepted (2 ^ length options) options tables
              ((pow_fits (length options)).0 fits))),
      λ (fresh, full, le, e).
          rw
            (
              (pow_fits (length options)).1 (
                  le_trans
                    (at_most-product (2 ^ length options) (product tables)
                      (product-pos tables full))
                    le),
              e,
            )
            (count_choices-eq-ok (2 ^ length options) options tables fresh full le),
    )

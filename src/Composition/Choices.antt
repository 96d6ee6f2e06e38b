-- ===== src/Composition/Choices.antt =====
-- Every combination of table choices and options is one of the variants.
use native.Mathlib.Nat.{
  mod-eq_of_lt, div-eq_of_lt, add-mul-div_left, add-mul-mod_self_left, mul-le-mul_left,
}
use chgen.Base.{
  ◌≡◌, refl, ◌∙◌, ℕ, ◌+◌, ◌*◌, ◌/◌, ◌%◌, ◌^◌, ◌<◌, String, List, [], ◌∷◌, length, arith,
}
use chgen.Base.Dict.{Dict, assign}
use chgen.Composition.{TableChoice, QueryComposition, text_at, select, selected_tables}
use chgen.Composition.Bounds.{product}

-- One index into the tables of each choice.
abbrev pub Picks : List ℕ → List TableChoice → Type 0
Picks [] [] = Unit
Picks (p ∷ ps) (choice ∷ rest) = (p < length choice.tables) × Picks ps rest
Picks [] (choice ∷ rest) = ⊥
Picks (p ∷ ps) [] = ⊥

-- The tables that the indices name.
unfoldable pub choose : Dict String → List ℕ → List TableChoice → Dict String
choose selected (p ∷ ps) (choice ∷ rest) =
    choose (assign selected choice.name (text_at choice.tables p)) ps rest
choose selected [] tables = selected
choose selected (p ∷ ps) [] = selected

unfoldable pub encode : List ℕ → List TableChoice → ℕ
encode (p ∷ ps) (choice ∷ rest) = p + length choice.tables * encode ps rest
encode [] tables = 0
encode (p ∷ ps) [] = 0

low_digit : (p n e : ℕ) → p < n → (p + n * e) % n ≡ p
low_digit p n e h = add-mul-mod_self_left p n e ∙ mod-eq_of_lt h

high_digits : (p n e : ℕ) → p < n → (p + n * e) / n ≡ e
high_digits p n e h = omega (arith, add-mul-div_left p e {y = n} (omega (arith, h)), div-eq_of_lt h)

select-encode :
    (selected : Dict String) (ps : List ℕ) (tables : List TableChoice)
    → Picks ps tables
    → select selected tables (encode ps tables) ≡ choose selected ps tables
unfolding select choose encode
select-encode selected [] [] h = refl
select-encode selected [] (choice ∷ rest) h = absurd h
select-encode selected (p ∷ ps) [] h = absurd h
select-encode selected (p ∷ ps) (choice ∷ rest) h =
    rw
      (
        low_digit p (length choice.tables) (encode ps rest) h.0,
        high_digits p (length choice.tables) (encode ps rest) h.0,
      )
      (select-encode (assign selected choice.name (text_at choice.tables p)) ps rest h.1)

below : (p n e m : ℕ) → p < n → e < m → p + n * e < n * m
below p n e m h k = omega (arith, mul-le-mul_left {m = e + 1} {n = m} n (omega arith))

encode-lt-product :
    (ps : List ℕ) (tables : List TableChoice) → Picks ps tables → encode ps tables < product tables
unfolding encode product
encode-lt-product [] [] h = omega arith
encode-lt-product [] (choice ∷ rest) h = absurd h
encode-lt-product (p ∷ ps) [] h = absurd h
encode-lt-product (p ∷ ps) (choice ∷ rest) h =
    below p (length choice.tables) (encode ps rest) (product rest) h.0
      (encode-lt-product ps rest h.1)

-- For every set of options, as the bits of a number, and every index into the tables of each choice
-- there is a variant below the count of variants that has these options and selects these tables.
pub selected_tables-reach :
    (composition : QueryComposition) (mask : ℕ) (ps : List ℕ)
    → mask < 2 ^ length composition.options
    → Picks ps composition.tables
    → (variant : ℕ) × (variant < 2 ^ length composition.options * product composition.tables)
      × (variant % 2 ^ length composition.options ≡ mask)
      × (selected_tables composition variant ≡ choose [] ps composition.tables)
unfolding selected_tables
selected_tables-reach composition mask ps small h =
    let n = 2 ^ length composition.options in
    let e = encode ps composition.tables in
    (
      mask + n * e,
      below mask n e (product composition.tables) small (encode-lt-product ps composition.tables h),
      low_digit mask n e small,
      rw (high_digits mask n e small) (select-encode [] ps composition.tables h),
    )

-- ===== src/Composition.antt =====
-- The finite variants of a composed query: `compositionVariantCount`, `selectedTables`,
-- `enabledOptions` and `appendUnique` of internal/engine/composition.go. A variant is a number: its
-- low bits are the options that are on, and the rest is read in the mixed radix of the table choices.
pub mod Bounds
pub mod Choices
pub mod Unique
pub mod Merge
use chgen.Base.{
  ℕ, zero, suc, ◌+◌, ◌*◌, ◌/◌, ◌%◌, ◌^◌, String, Bool, true, false, not, ◌||◌, Option, none, some,
  List, [], ◌∷◌, ◌++◌, length, get_elem?, any, ltb, ◌==◌, if◌then◌else◌, str_eq, Result, ok, err,
  reject,
}
use chgen.Base.Dict.{Dict, assign}

pub record TableChoice : Type 0 where
  pub name : String
  pub tables : List String

-- `QueryComposition` less its owners and its resolved variants.
pub record QueryComposition : Type 0 where
  pub options : List String
  pub tables : List TableChoice

pub data CompositionError : Type 0 where
  too_many_variants : CompositionError
  duplicate_option : String → CompositionError

-- slices.Contains
abbrev pub contains : List String → String → Bool
contains names name = any (λ x. str_eq x name) names

-- The loop over the choices, with the names seen and the count so far.
unfoldable pub count_choices : ℕ → List String → List TableChoice → Result CompositionError ℕ
count_choices count names [] = ok count
count_choices count names (choice ∷ rest) =
    reject (contains names choice.name) (duplicate_option choice.name) (
      reject (length choice.tables == 0 || ltb (32 / length choice.tables) count) too_many_variants
        (count_choices (count * length choice.tables) (names ++ (choice.name ∷ [])) rest))

unfoldable pub composition_variant_count :
    List String → List TableChoice → Result CompositionError ℕ
composition_variant_count options tables =
    reject (ltb 5 (length options)) too_many_variants
      (count_choices (2 ^ length options) options tables)

-- `choice.Tables[i]`, which is in range for an index below the length.
abbrev pub text_at : List String → ℕ → String
text_at xs i = elim (get_elem? xs i) [ none ↦ "" | some s ↦ s ]

unfoldable pub select : Dict String → List TableChoice → ℕ → Dict String
select selected [] index = selected
select selected (choice ∷ rest) index =
    select (assign selected choice.name (text_at choice.tables (index % length choice.tables))) rest
      (index / length choice.tables)

-- `variant >> len(options)` is a division.
unfoldable pub selected_tables : QueryComposition → ℕ → Dict String
unfolding select
selected_tables composition variant =
    select [] composition.tables (variant / 2 ^ length composition.options)

-- `mask&(1<<i) != 0`
abbrev pub bit : ℕ → ℕ → Bool
bit mask i = (mask / 2 ^ i) % 2 == 1

unfoldable pub enabled_from : ℕ → List String → ℕ → List String
enabled_from i [] mask = []
enabled_from i (name ∷ rest) mask =
    let others = enabled_from (suc i) rest mask in if bit mask i then name ∷ others else others

unfoldable pub enabled_options : List String → ℕ → List String
unfolding enabled_from
enabled_options options mask = enabled_from 0 options mask

unfoldable pub append_unique : List String → List String → List String
append_unique values [] = values
append_unique values (value ∷ more) =
    append_unique (if contains values value then values else values ++ (value ∷ [])) more

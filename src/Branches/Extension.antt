-- ===== src/Branches/Extension.antt =====
-- What greatest and least add to the rule for branches: a pair of a signed integer and UInt64, that
-- the rule for branches refuses.
use chgen.Base.{
  ◌≡◌, refl, sym, ◌∙◌, ap, Bool, true, false, ◌&&◌, Option, none, some, List, [], ◌∷◌,
  if◌then◌else◌, String, fold_eq, fold_eq_same, fold_in, fold_in-All, fold_in_same, fold_switch,
  fold_switch_same, ok, err, arith, and-eq-true,
}
use chgen.ChType.{ChType, ch_type, nil, cons, name, named}
use chgen.Branches.{no_common_integer, common_ch_types}
use chgen.Branches.GreatestLeast.{
  is_bare_signed_integer, is_bare_unsigned64, greatest_least_pair, signed_pair, or_common,
  greatest_least_common,
}
use chgen.MixedSign.{branch_info, mixed_sign_integer_ch_types, refused, collect, integer_of}
use chgen.MixedSign.{integer_base, conclude, tally, count_bits, first_width, outcome_of, no_tally}
use chgen.MixedSign.Pairs.{answer}
use chgen.Wrappers.{split_ch_wrappers, peel}
use chgen.LowCardinality.{
  strip_deep, strip_deep_fuel, unwrap_low_cardinality, map_params, map_types,
}
use chgen.ChType.{unwrap_as, size}
use chgen.Numeric.{
  NumericInfo, info, candidates, unsigned, signed, numeric_table, numeric_info_for_type,
}

-- What a branch without parameters is as an integer depends on its name, without case.
named_info : String → Option (NumericInfo × Bool)
named_info n =
    if fold_eq n "Bool"
    then some (info unsigned 8, false)
    else elim (fold_switch n numeric_table) [ none ↦ none | some i ↦ integer_of i.kind i false ]

-- The rest of `branch_info`, after the wrappers.
base_info : ChType → Option (NumericInfo × Bool)
base_info base = elim (numeric_info_for_type base) [
  | none ↦ none
  | some i ↦ integer_of i.kind i false
]

base_info-if :
    (n : String) (ls ns : List String) (b : Bool)
    → base_info (if b && true then named "UInt8" else ch_type n nil ls ns) ≡ (
        if b then some (info unsigned 8, false) else elim (fold_switch n numeric_table) [
          | none ↦ none
          | some i ↦ integer_of i.kind i false
        ])
unfolding base_info numeric_info_for_type fold_switch fold_eq
base_info-if n ls ns true = refl
base_info-if n ls ns false = refl

branch_info-named :
    (n : String) (ls ns : List String) → branch_info (ch_type n nil ls ns) ≡ named_info n
unfolding branch_info integer_base split_ch_wrappers peel unwrap_as strip_deep strip_deep_fuel
    unwrap_low_cardinality map_params map_types size named_info base_info
branch_info-named n ls ns = base_info-if n ls ns (fold_eq n "Bool")

named_info_same : (n m : String) → fold_eq n m ≡ true → named_info n ≡ named_info m
unfolding named_info
named_info_same n m h = rw (fold_eq_same n m "Bool" h, fold_switch_same n m numeric_table h)

-- An integer that has no supertype with UInt64, on either side.
IsNarrow : String → Type 0
IsNarrow n =
    (i : NumericInfo) × ((named_info n ≡ some (i, false))
      × (conclude (tally no_tally (i ∷ info unsigned 64 ∷ [])) false ≡ refused false)
      × (conclude (tally no_tally (info unsigned 64 ∷ i ∷ [])) false ≡ refused false))

bare_signed-IsNarrow :
    (n : String) → fold_in n ("int8" ∷ "int16" ∷ "int32" ∷ "int64" ∷ "int" ∷ []) ≡ true → IsNarrow n
unfolding IsNarrow named_info fold_switch fold_eq conclude tally count_bits first_width candidates
    outcome_of
bare_signed-IsNarrow n h =
    fold_in-All IsNarrow n ("int8" ∷ "int16" ∷ "int32" ∷ "int64" ∷ "int" ∷ [])
      (λ s e p. (p.0, (named_info_same n s e ∙ p.1.0, p.1.1, p.1.2)))
      (
        (info signed 8, (refl, refl, refl)),
        (
          (info signed 16, (refl, refl, refl)),
          (
            (info signed 32, (refl, refl, refl)),
            ((info signed 64, (refl, refl, refl)), ((info signed 64, (refl, refl, refl)), tt)),
          ),
        ),
      )
      h

uint64_info :
    (n : String) → fold_eq n "UInt64" ≡ true → named_info n ≡ some (info unsigned 64, false)
unfolding named_info fold_switch fold_eq
uint64_info n h = named_info_same n "UInt64" h

mixed_of :
    (left right : ChType) (i j : NumericInfo)
    → branch_info left ≡ some (i, false)
    → branch_info right ≡ some (j, false)
    → mixed_sign_integer_ch_types (left ∷ right ∷ []) ≡ conclude (tally no_tally (i ∷ j ∷ [])) false
unfolding mixed_sign_integer_ch_types collect
mixed_of left right i j h k =
    ap (λ x. answer x (branch_info right)) h ∙ ap (λ y. answer (some (i, false)) y) k

-- A pair that greatest and least join by their own rule has no common type.
Refused : ChType → ChType → Type 0
Refused left right =
    common_ch_types (left ∷ right ∷ []) ≡ err (no_common_integer (left ∷ right ∷ []))

or_pairwise-refused :
    (left right : ChType)
    → mixed_sign_integer_ch_types (left ∷ right ∷ []) ≡ refused false
    → Refused left right
unfolding Refused common_ch_types
or_pairwise-refused left right h = rw h

bare_pair-Refused :
    (s u : ChType)
    → is_bare_signed_integer s ≡ true
    → is_bare_unsigned64 u ≡ true
    → Refused s u × Refused u s
unfolding is_bare_signed_integer is_bare_unsigned64 IsNarrow
bare_pair-Refused (ch_type n nil ls ns) (ch_type m nil ks ms) h k =
    let signed_name = (and-eq-true true (fold_in n _) h).1 in
    let (i, (e, l, r)) = bare_signed-IsNarrow n h in
    let f = uint64_info m (and-eq-true (fold_eq m "UInt64") true k).0 in
    let left = branch_info-named n ls ns ∙ e in
    let right = branch_info-named m ks ms ∙ f in
    (
      or_pairwise-refused _ _ (mixed_of _ _ i (info unsigned 64) left right ∙ l),
      or_pairwise-refused _ _ (mixed_of _ _ (info unsigned 64) i right left ∙ r),
    )
bare_pair-Refused (ch_type n (cons t ts) ls ns) u h k = cc
bare_pair-Refused (ch_type n nil ls ns) (ch_type m (cons t ts) ks ms) h k =
    let none_left = (and-eq-true (fold_eq m "UInt64") false k).1 in cc

-- Where the rule for branches gives two types a common type, greatest and least give them the same
-- one, whichever of the two is called: they only add types where the rule for branches has none.
pub greatest_least-common_ch_types :
    (function : String) (left right t : ChType)
    → common_ch_types (left ∷ right ∷ []) ≡ ok t
    → greatest_least_common function (left ∷ right ∷ []) ≡ ok t
unfolding greatest_least_common greatest_least_pair Refused
greatest_least-common_ch_types function left right t h = go _ _ _ refl refl
  where
    go :
        (f a b : Bool)
        → (is_bare_signed_integer left && is_bare_unsigned64 right) ≡ a
        → (is_bare_signed_integer right && is_bare_unsigned64 left) ≡ b
        → or_common (left ∷ right ∷ []) (
            if f
            then if a
              then some (signed_pair function left)
              else if b
              then some (signed_pair function right)
              else none
            else none)
          ≡ ok t
    go false a b p q = h
    go true false false p q = h
    go true true b p q =
        let (s, u) = and-eq-true (is_bare_signed_integer left) (is_bare_unsigned64 right) p in
        let r = (bare_pair-Refused left right s u).0 in cc
    go true false true p q =
        let (s, u) = and-eq-true (is_bare_signed_integer right) (is_bare_unsigned64 left) q in
        let r = (bare_pair-Refused right left s u).1 in cc

uint64-not_signed : fold_in "UInt64" ("int8" ∷ "int16" ∷ "int32" ∷ "int64" ∷ "int" ∷ []) ≡ false
unfolding fold_in fold_eq
uint64-not_signed = refl

exclusive :
    (t : ChType) → is_bare_signed_integer t ≡ true → is_bare_unsigned64 t ≡ true → false ≡ true
unfolding is_bare_signed_integer is_bare_unsigned64
exclusive t h k =
    let n = name t in
    let (p, q) = and-eq-true (fold_eq n "UInt64") _ k in
    let (a, b) = and-eq-true _ (fold_in n ("int8" ∷ "int16" ∷ "int32" ∷ "int64" ∷ "int" ∷ [])) h in
    sym (fold_in_same n "UInt64" _ p ∙ uint64-not_signed) ∙ b

-- The pair rule of greatest and least does not depend on the order of the two types.
pub greatest_least_pair_comm :
    (function : String) (left right : ChType)
    → greatest_least_pair function left right ≡ greatest_least_pair function right left
unfolding greatest_least_pair
greatest_least_pair_comm function left right = ground (arith, exclusive left, exclusive right)

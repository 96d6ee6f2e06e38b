-- ===== src/MixedSign/Pairs.antt =====
-- On two branches the rule for whole lists and the rule for pairs are one.
use chgen.Base.{
  ◌≡◌, refl, sym, subst, ℕ, Bool, true, false, ◌||◌, Option, none, some, List, [], ◌∷◌, ltb,
  if◌then◌else◌, Result, ok, err, arith,
}
use chgen.ChType.{ChType}
use chgen.Numeric.{
  Kind, unsigned, signed, float, NumericInfo, info, numeric_info_for_type, candidates, first_fit,
  signed_of, join_mixed, join_info, NumericError, no_common_type, not_numeric, or_refuse,
  join_infos, common_numeric,
}
use chgen.MixedSign.{
  integer_base, integer_of, branch_info, join_branch, collect, Tally, no_tally, count_bits, tally,
  first_width, Outcome, not_handled, refused, found, outcome_of, conclude,
  mixed_sign_integer_ch_types,
}

-- Where the list rule answers, the pair rule has the same answer.
abbrev pub Agrees : ChType → ChType → Outcome → Result NumericError ChType → Type 0
Agrees left right not_handled r = Unit
Agrees left right (refused nullable) r = r ≡ err (no_common_type left right)
Agrees left right (found t nullable) r = r ≡ ok t

abbrev pair_tally : ℕ → ℕ → Tally
pair_tally u s = record {
  has_signed = true;
  has_unsigned = true;
  max_signed_bits = s;
  max_unsigned_bits = u;
  seen_unsigned_bits = u ∷ [];
}

self_max : (b : ℕ) → (if ltb 0 b then b else 0) ≡ b
self_max b = ground arith

-- What the second loop makes of two integers of both signs.
abbrev counted : ℕ → ℕ → Tally
counted u s = record (pair_tally u s) {
  max_signed_bits = if ltb 0 s then s else 0;
  max_unsigned_bits = if ltb 0 u then u else 0;
}

counted-eq : (u s : ℕ) → counted u s ≡ pair_tally u s
counted-eq u s = rw (self_max u, self_max s)

first_width-pair : (u s : ℕ) (ws : List ℕ) → first_width (pair_tally u s) ws ≡ first_fit u s ws
unfolding first_width first_fit
first_width-pair u s [] = refl
first_width-pair u s (w ∷ ws) = ground (arith, first_width-pair u s ws)

outcome-Agrees :
    (left right : ChType) (w : Option ℕ) (nullable : Bool)
    → Agrees left right (outcome_of w nullable) (or_refuse left right (signed_of w))
unfolding outcome_of signed_of
outcome-Agrees left right none nullable = refl
outcome-Agrees left right (some w) nullable = refl

pair_tally-Agrees :
    (left right : ChType) (u s : ℕ) (nullable : Bool)
    → Agrees left right (conclude (pair_tally u s) nullable) (or_refuse left right (join_mixed u s))
unfolding conclude join_mixed
pair_tally-Agrees left right u s nullable =
    subst
      (λ w.
        Agrees left right (outcome_of w nullable)
          (or_refuse left right (signed_of (first_fit u s (candidates u s)))))
      (sym (first_width-pair u s (candidates u s)))
      (outcome-Agrees left right (first_fit u s (candidates u s)) nullable)

conclude-Agrees :
    (left right : ChType) (u s : ℕ) (nullable : Bool)
    → Agrees left right (conclude (counted u s) nullable) (or_refuse left right (join_mixed u s))
conclude-Agrees left right u s nullable =
    subst (λ t. Agrees left right (conclude t nullable) (or_refuse left right (join_mixed u s)))
      (sym (counted-eq u s)) (pair_tally-Agrees left right u s nullable)

abbrev pub answer : Option (NumericInfo × Bool) → Option (NumericInfo × Bool) → Outcome
answer x y = elim (join_branch x (join_branch y (some ([], false)))) [
  | none ↦ not_handled
  | some (infos, nullable) ↦ conclude (tally no_tally infos) nullable
]

kinds-Agree :
    (left right : ChType) (k k' : Kind) (b b' : ℕ) (n m : Bool)
    → Agrees left right
        (answer (integer_of k (info k b) n) (integer_of k' (info k' b') m))
        (or_refuse left right (join_info k k' b b'))
unfolding join_info tally count_bits
kinds-Agree left right float k' b b' n m = tt
kinds-Agree left right unsigned float b b' n m = tt
kinds-Agree left right signed float b b' n m = tt
kinds-Agree left right unsigned unsigned b b' n m = unfold conclude in tt
kinds-Agree left right signed signed b b' n m = unfold conclude in tt
kinds-Agree left right unsigned signed b b' n m =
    conclude-Agrees left right b b' (n || (m || false))
kinds-Agree left right signed unsigned b b' n m =
    conclude-Agrees left right b' b (n || (m || false))

infos-Agree :
    (left right : ChType) (n m : Bool) (o o' : Option NumericInfo)
    → Agrees left right
        (answer
          (elim o [ none ↦ none | some i ↦ integer_of i.kind i n ])
          (elim o' [ none ↦ none | some i ↦ integer_of i.kind i m ]))
        (join_infos left right o o')
infos-Agree left right n m none o' = tt
infos-Agree left right n m (some i) none = none_right i.kind
  where
    none_right :
        (k : Kind)
        → Agrees left right (answer (integer_of k i n) none) (err (not_numeric left right))
    none_right float = tt
    none_right unsigned = tt
    none_right signed = tt
infos-Agree left right n m (some i) (some j) =
    kinds-Agree left right i.kind j.kind i.bits j.bits n m

-- On two branches the rule for lists gives a supertype only if the pair rule gives the same one for
-- the two bare integer types, and refuses only if the pair rule refuses them.
pub mixed_sign-Agrees :
    (left right : ChType)
    → Agrees
        (integer_base left).0
        (integer_base right).0
        (mixed_sign_integer_ch_types (left ∷ right ∷ []))
        (common_numeric (integer_base left).0 (integer_base right).0)
unfolding mixed_sign_integer_ch_types collect branch_info common_numeric
mixed_sign-Agrees left right =
    infos-Agree (integer_base left).0 (integer_base right).0 (integer_base left).1
      (integer_base right).1 (numeric_info_for_type (integer_base left).0)
      (numeric_info_for_type (integer_base right).0)

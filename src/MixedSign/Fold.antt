-- ===== src/MixedSign/Fold.antt =====
-- The two loops of the rule are one fold over the branches, whose state holds only largest widths.
use chgen.Base.{
  ◌≡◌, refl, ◌∙◌, ℕ, ◌*◌, Bool, true, false, ◌&&◌, ◌||◌, Option, none, some, List, [], ◌∷◌, leb,
  ltb, if◌then◌else◌, all, arith,
}
use chgen.ChType.{ChType}
use chgen.Numeric.{Kind, unsigned, signed, float, NumericInfo, candidates}
use chgen.MixedSign.{
  branch_info, collect, join_branch, Tally, no_tally, count_bits, tally, first_width, Outcome,
  not_handled, outcome_of, conclude, mixed_sign_integer_ch_types,
}

-- The tally without the widths that were seen.
pub record Summary : Type 0 where
  pub has_signed : Bool
  pub has_unsigned : Bool
  pub max_signed_bits : ℕ
  pub max_unsigned_bits : ℕ
  pub nullable : Bool

abbrev pub summarize : Tally → Bool → Summary
summarize t n = record {
  has_signed = t.has_signed;
  has_unsigned = t.has_unsigned;
  max_signed_bits = t.max_signed_bits;
  max_unsigned_bits = t.max_unsigned_bits;
  nullable = n;
}

unfoldable pub add_bits : Summary → Kind → ℕ → Bool → Summary
add_bits s signed b n = record s {
  has_signed = true;
  max_signed_bits = if ltb s.max_signed_bits b then b else s.max_signed_bits;
  nullable = s.nullable || n;
}
add_bits s unsigned b n = record s {
  has_unsigned = true;
  max_unsigned_bits = if ltb s.max_unsigned_bits b then b else s.max_unsigned_bits;
  nullable = s.nullable || n;
}
add_bits s float b n = record s {
  has_unsigned = true;
  max_unsigned_bits = if ltb s.max_unsigned_bits b then b else s.max_unsigned_bits;
  nullable = s.nullable || n;
}

abbrev pub add_branch : Summary → Option (NumericInfo × Bool) → Option Summary
add_branch s none = none
add_branch s (some (i, n)) = some (add_bits s i.kind i.bits n)

unfoldable pub step : Option Summary → ChType → Option Summary
step none t = none
step (some s) t = add_branch s (branch_info t)

unfoldable pub summary_fold : Option Summary → List ChType → Option Summary
summary_fold s [] = s
summary_fold s (t ∷ ts) = summary_fold (step s t) ts

fold_none : (ts : List ChType) → summary_fold none ts ≡ none
unfolding summary_fold step
fold_none [] = refl
fold_none (t ∷ ts) = fold_none ts

-- Every width that was seen fits exactly if the largest does.
abbrev pub Sees : Tally → Type 0
Sees t = (w : ℕ) → all (λ u. leb (u * 2) w) t.seen_unsigned_bits ≡ leb (t.max_unsigned_bits * 2) w

count_bits-Sees : (t : Tally) (k : Kind) (b : ℕ) → Sees t → Sees (count_bits t k b)
unfolding count_bits
count_bits-Sees t signed b h w = h w
count_bits-Sees t unsigned b h w = ground (arith, h w)
count_bits-Sees t float b h w = ground (arith, h w)

pub tally-Sees : (t : Tally) (is : List NumericInfo) → Sees t → Sees (tally t is)
unfolding tally
tally-Sees t [] h = h
tally-Sees t (i ∷ is) h =
    tally-Sees (count_bits t i.kind i.bits) is (count_bits-Sees t i.kind i.bits h)

summarize-count :
    (t : Tally) (n m : Bool) (k : Kind) (b : ℕ)
    → add_bits (summarize t n) k b m ≡ summarize (count_bits t k b) (n || m)
unfolding add_bits count_bits
summarize-count t n m signed b = refl
summarize-count t n m unsigned b = refl
summarize-count t n m float b = refl

abbrev finish : Tally → Bool → Option (List NumericInfo × Bool) → Option Summary
finish acc n none = none
finish acc n (some (is, m)) = some (summarize (tally acc is) (n || m))

or_assoc : (a b c : Bool) → ((a || b) || c) ≡ (a || (b || c))
or_assoc true b c = refl
or_assoc false b c = refl

or_none : (b : Bool) → b ≡ (b || false)
or_none true = refl
or_none false = refl

fold-collect :
    (acc : Tally) (n : Bool) (ts : List ChType)
    → summary_fold (some (summarize acc n)) ts ≡ finish acc n (collect ts)
unfolding summary_fold collect step tally
fold-collect acc n [] = rw (← or_none n)
fold-collect acc n (t ∷ ts) = go (branch_info t) (collect ts) (λ a m. fold-collect a m ts)
  where
    go :
        (b : Option (NumericInfo × Bool)) (o : Option (List NumericInfo × Bool))
        → ((a : Tally) (m : Bool) → summary_fold (some (summarize a m)) ts ≡ finish a m o)
        → summary_fold (add_branch (summarize acc n) b) ts ≡ finish acc n (join_branch b o)
    go none o ih = fold_none ts
    go (some (i, m)) none ih =
        rw (summarize-count acc n m i.kind i.bits) (ih (count_bits acc i.kind i.bits) (n || m))
    go (some (i, m)) (some (is, m')) ih =
        rw (summarize-count acc n m i.kind i.bits)
          (ih (count_bits acc i.kind i.bits) (n || m) ∙ rw (or_assoc n m m'))

abbrev pub width_of : ℕ → ℕ → List ℕ → Option ℕ
width_of max_signed max_unsigned [] = none
width_of max_signed max_unsigned (w ∷ ws) =
    if leb max_signed w && leb (max_unsigned * 2) w
    then some w
    else width_of max_signed max_unsigned ws

first_width-eq :
    (t : Tally) (ws : List ℕ)
    → Sees t
    → first_width t ws ≡ width_of t.max_signed_bits t.max_unsigned_bits ws
unfolding first_width
first_width-eq t [] h = refl
first_width-eq t (w ∷ ws) h = rw (h w, first_width-eq t ws h)

-- The outcome, by the state at the end of the fold.
abbrev pub outcome : Option Summary → Outcome
outcome none = not_handled
outcome (some s) =
    if s.has_signed && s.has_unsigned
    then outcome_of
        (width_of s.max_signed_bits s.max_unsigned_bits
          (candidates s.max_unsigned_bits s.max_signed_bits))
        s.nullable
    else not_handled

abbrev pub empty_summary : Summary
empty_summary = summarize no_tally false

outcome-finish :
    (o : Option (List NumericInfo × Bool))
    → elim o [ none ↦ not_handled | some (is, n) ↦ conclude (tally no_tally is) n ]
      ≡ outcome (finish no_tally false o)
unfolding conclude
outcome-finish none = refl
outcome-finish (some (is, n)) =
    rw (first_width-eq (tally no_tally is) _ (tally-Sees no_tally is (λ w. ground arith)))

pub mixed_sign-eq-fold :
    (types : List ChType)
    → mixed_sign_integer_ch_types types ≡ outcome (summary_fold (some empty_summary) types)
unfolding mixed_sign_integer_ch_types
mixed_sign-eq-fold types = rw (fold-collect no_tally false types) (outcome-finish (collect types))

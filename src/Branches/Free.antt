-- ===== src/Branches/Free.antt =====
-- The supertype of a list of branches keeps no LowCardinality.
use chgen.Base.{
  ◌≡◌, refl, Bool, true, false, Option, none, some, List, [], ◌∷◌, if◌then◌else◌, Result, ok, err,
  AllOk, AllOk-bind, AllOk-ok, ◌&&◌, String,
}
use chgen.Base.Integers.{ℤ, pos, negsuc, itoa_int}
use chgen.ChType.{ChType, ch_type, nil, named}
use chgen.Wrappers.{apply_ch_wrappers}
use chgen.LowCardinality.{strip_deep, has_low_cardinality}
use chgen.Transport.Marker.{simple_aggregate_wrapper_inner}
use chgen.Transport.Aggregates.{wrap_nullable-free}
use chgen.Numeric.{NumericInfo}
use chgen.MixedSign.{
  Outcome, not_handled, refused, found, Tally, mixed_sign_integer_ch_types, conclude, outcome_of,
  collect, tally, no_tally,
}
use chgen.Supertype.Step.{SupertypeError, common_ch_type}
use chgen.Supertype.Free.{IsFree, strip_deep-IsFree, common_ch_type-IsFree}
use chgen.Branches.{
  ListError, of_pair, fold_types, fold_seed, fold_ordered, or_fold, or_pairwise, ordered,
  common_ch_types,
}
use chgen.Branches.DateTimes.{
  DateTimeBranch, timezone_params, max_precision, every_at, first_timezone, last_at, same_int,
  render, read_branches, conclude_branches, date_time_timezone_ch_types,
}

apply-IsFree :
    (t : ChType) (nullable : Bool) → IsFree t → IsFree (apply_ch_wrappers t nullable false)
unfolding apply_ch_wrappers
apply-IsFree t true h = wrap_nullable-free t h
apply-IsFree t false h = h

named-IsFree : (n : String) → IsFree (named n)
unfolding has_low_cardinality
named-IsFree n = refl

pub of_pair-keeps :
    (P : ChType → Type 0) (r : Result SupertypeError ChType) → AllOk P r → AllOk P (of_pair r)
of_pair-keeps P (err e) h = tt
of_pair-keeps P (ok t) h = h

fold_types-IsFree : (t : ChType) (ts : List ChType) → IsFree t → AllOk IsFree (fold_types t ts)
unfolding fold_types
fold_types-IsFree t [] h = h
fold_types-IsFree t (u ∷ us) h = AllOk-bind IsFree (of_pair (common_ch_type t u)) _ (λ r e.
    fold_types-IsFree r us
      (AllOk-ok IsFree _ (of_pair-keeps IsFree _ (common_ch_type-IsFree t u)) e))

fold_seed-IsFree : (ts : List ChType) → AllOk IsFree (fold_seed ts)
fold_seed-IsFree [] = tt
fold_seed-IsFree (t ∷ ts) = fold_types-IsFree (strip_deep t) ts (strip_deep-IsFree t)

either-IsFree :
    (b : Bool) (n m : String) (ls ms : List String)
    → IsFree (if b then ch_type n nil ls [] else ch_type m nil ms [])
unfolding has_low_cardinality
either-IsFree true n m ls ms = refl
either-IsFree false n m ls ms = refl

render-IsFree : (p : ℤ) (zone : String) → IsFree (render p zone)
unfolding render
render-IsFree p zone =
    either-IsFree (same_int p (pos 0)) "DateTime" "DateTime64" (timezone_params zone)
      (itoa_int p ∷ timezone_params zone)

conclude-IsFree : (bs : List DateTimeBranch) → IsFree (conclude_branches bs)
unfolding conclude_branches
conclude-IsFree bs =
    let best = max_precision (negsuc 0) bs in
    render-IsFree best (if every_at best bs then first_timezone bs else last_at best "" bs)

or_fold-IsFree :
    (o : Option (List DateTimeBranch × Bool)) (rest : Result ListError ChType)
    → AllOk IsFree rest
    → AllOk IsFree
        (or_fold (elim o [ none ↦ none | some (bs, n) ↦ some (conclude_branches bs, n) ]) rest)
or_fold-IsFree none rest h = h
or_fold-IsFree (some (bs, n)) rest h = apply-IsFree (conclude_branches bs) n (conclude-IsFree bs)

-- A supertype that the rule for integers gives has no parameters.
abbrev FoundFree : Outcome → Type 0
FoundFree not_handled = Unit
FoundFree (refused n) = Unit
FoundFree (found t n) = IsFree t

conclude-FoundFree : (t : Tally) (nullable : Bool) → FoundFree (conclude t nullable)
unfolding conclude outcome_of
conclude-FoundFree t nullable = go (t.has_signed && t.has_unsigned) _
  where
    go : (b : Bool) (o : _) → FoundFree (if b then outcome_of o nullable else not_handled)
    go false o = tt
    go true none = tt
    go true (some w) = named-IsFree _

mixed-FoundFree : (ts : List ChType) → FoundFree (mixed_sign_integer_ch_types ts)
unfolding mixed_sign_integer_ch_types
mixed-FoundFree ts = go (collect ts)
  where
    go :
        (o : Option (List NumericInfo × Bool))
        → FoundFree (elim o [ none ↦ not_handled | some (is, n) ↦ conclude (tally no_tally is) n ])
    go none = tt
    go (some (is, n)) = conclude-FoundFree _ n

or_pairwise-IsFree :
    (ts : List ChType) (o : Outcome) (rest : Result ListError ChType)
    → FoundFree o
    → AllOk IsFree rest
    → AllOk IsFree (or_pairwise ts o rest)
or_pairwise-IsFree ts not_handled rest h k = k
or_pairwise-IsFree ts (refused n) rest h k = tt
or_pairwise-IsFree ts (found t n) rest h k = apply-IsFree t n h

fold_ordered-IsFree :
    (t : ChType) (o : Option ChType) (ts : List ChType)
    → o ≡ none
    → AllOk IsFree (fold_ordered t o ts)
fold_ordered-IsFree t none ts h = fold_seed-IsFree ts
fold_ordered-IsFree t (some a) ts h = cc

-- The common type of a list of branches holds no LowCardinality at any depth, if the first branch is
-- no SimpleAggregateFunction.
pub common_ch_types-IsFree :
    (first : ChType) (rest : List ChType)
    → simple_aggregate_wrapper_inner first ≡ none
    → AllOk (λ t. has_low_cardinality t ≡ false) (common_ch_types (first ∷ rest))
unfolding common_ch_types date_time_timezone_ch_types
common_ch_types-IsFree first rest h =
    or_pairwise-IsFree (first ∷ rest) _ _ (mixed-FoundFree (first ∷ rest)) (
      or_fold-IsFree (read_branches (first ∷ rest)) _
        (fold_ordered-IsFree first _ (ordered (first ∷ rest)) h))

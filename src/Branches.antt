-- ===== src/Branches.antt =====
-- The supertype of a whole list of branches, of internal/engine/supertype.go: `commonCHTypes`, which
-- tries the rule for integers of both signs and the rule for date times, then folds the pairs in the
-- order Decimal, float, other; `greatestLeastCommonCHTypes`.
pub mod DateTimes
pub mod Maximal
pub mod Zones
pub mod Free
pub mod GreatestLeast
pub mod Extension
use chgen.Base.{
  ℕ, Bool, true, false, Option, none, some, List, [], ◌∷◌, ◌++◌, ◌==◌, if◌then◌else◌, Result, ok,
  err, ◌>>=◌,
}
use chgen.ChType.{ChType, name}
use chgen.Wrappers.{split_ch_wrappers, apply_ch_wrappers}
use chgen.LowCardinality.{strip_deep}
use chgen.Transport.Marker.{simple_aggregate_wrapper_inner}
use chgen.MixedSign.{Outcome, not_handled, refused, found, mixed_sign_integer_ch_types}
use chgen.Supertype.Shapes.{is_float_name}
use chgen.Supertype.Decimals.{is_decimal_with_params}
use chgen.Supertype.Step.{SupertypeError, same_text, common_ch_type}
use DateTimes.{date_time_timezone_ch_types}

pub data ListError : Type 0 where
  no_expressions : ListError
  no_common_integer : List ChType → ListError
  pair_error : SupertypeError → ListError

abbrev pub of_pair : Result SupertypeError ChType → Result ListError ChType
of_pair (err e) = err (pair_error e)
of_pair (ok t) = ok t

unfoldable pub priority : ChType → ℕ
priority value =
    let (base, nullable, low_cardinality) = split_ch_wrappers value in
    if is_decimal_with_params base then 0 else if is_float_name (name base) then 1 else 2

-- The branches of one rank, in their order.
unfoldable pub of_rank : ℕ → List ChType → List ChType
of_rank rank [] = []
of_rank rank (t ∷ ts) = let rest = of_rank rank ts in if priority t == rank then t ∷ rest else rest

unfoldable pub ordered : List ChType → List ChType
unfolding of_rank
ordered types = of_rank 0 types ++ (of_rank 1 types ++ of_rank 2 types)

unfoldable pub fold_types : ChType → List ChType → Result ListError ChType
fold_types result [] = ok result
fold_types result (next ∷ rest) = of_pair (common_ch_type result next) >>= λ r. fold_types r rest

-- The fold that starts at the first branch, which meets every branch that is not written like it.
unfoldable pub fold_from_first : ChType → ChType → List ChType → Result ListError ChType
fold_from_first first result [] = ok result
fold_from_first first result (next ∷ rest) =
    (if same_text next first then ok result else of_pair (common_ch_type result next)) >>= λ r.
    fold_from_first first r rest

-- There is a branch at each of the two calls.
abbrev pub fold_seed : List ChType → Result ListError ChType
fold_seed [] = err no_expressions
fold_seed (t ∷ ts) = fold_types (strip_deep t) ts

abbrev pub fold_ordered : ChType → Option ChType → List ChType → Result ListError ChType
fold_ordered first none types = fold_seed types
fold_ordered first (some inner) types = fold_from_first first first types

abbrev pub or_fold : Option (ChType × Bool) → Result ListError ChType → Result ListError ChType
or_fold (some (t, nullable)) rest = ok (apply_ch_wrappers t nullable false)
or_fold none rest = rest

abbrev pub or_pairwise : List ChType → Outcome → Result ListError ChType → Result ListError ChType
or_pairwise types not_handled rest = rest
or_pairwise types (refused nullable) rest = err (no_common_integer types)
or_pairwise types (found t nullable) rest = ok (apply_ch_wrappers t nullable false)

-- `commonCHTypes`
unfoldable pub common_ch_types : List ChType → Result ListError ChType
unfolding ordered fold_types fold_from_first
common_ch_types [] = err no_expressions
common_ch_types (t ∷ ts) = or_pairwise (t ∷ ts) (mixed_sign_integer_ch_types (t ∷ ts)) (
    or_fold (date_time_timezone_ch_types (t ∷ ts))
      (fold_ordered t (simple_aggregate_wrapper_inner t) (ordered (t ∷ ts))))

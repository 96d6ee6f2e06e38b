-- ===== src/Branches/DateTimes.antt =====
-- `dateTimeTimezoneCHTypes` of internal/engine/supertype.go: the supertype of DateTime and DateTime64
-- branches, in which the order of the branches decides the timezone.
use chgen.Base.{
  String, Bool, true, false, ◌&&◌, ◌||◌, Option, none, some, List, [], ◌∷◌, if◌then◌else◌, fold_eq,
  str_eq, ◌==◌,
}
use chgen.Base.Integers.{ℤ, pos, negsuc, atoi, itoa_int, gtb}
use chgen.ChType.{ChType, ch_type, nil, name, literal_params}
use chgen.Wrappers.{split_ch_wrappers}
use chgen.LowCardinality.{strip_deep}

-- `dateTimeBranch`: precision and timezone.
pub data DateTimeBranch : Type 0 where
  date_time : ℤ → String → DateTimeBranch

abbrev pub precision : DateTimeBranch → ℤ
precision (date_time p z) = p

abbrev pub timezone : DateTimeBranch → String
timezone (date_time p z) = z

abbrev first_or_empty : List String → String
first_or_empty [] = ""
first_or_empty (z ∷ zs) = z

abbrev with_timezone : List String → Option ℤ → Option DateTimeBranch
with_timezone zs none = none
with_timezone zs (some p) = some (date_time p (first_or_empty zs))

abbrev date_time64 : List String → Option DateTimeBranch
date_time64 [] = none
date_time64 (p ∷ zs) = with_timezone zs (atoi p)

unfoldable pub date_time_branch : ChType → Option DateTimeBranch
date_time_branch base =
    if fold_eq (name base) "DateTime64"
    then date_time64 (literal_params base)
    else if fold_eq (name base) "DateTime"
    then some (date_time (pos 0) (first_or_empty (literal_params base)))
    else none

-- One branch without its wrappers, and whether it was Nullable.
unfoldable pub read_branch : ChType → Option (DateTimeBranch × Bool)
read_branch value =
    let (base, nullable, low_cardinality) = split_ch_wrappers (strip_deep value) in
    elim (date_time_branch base) [ none ↦ none | some b ↦ some (b, nullable) ]

abbrev pub join_branches :
    Option (DateTimeBranch × Bool)
    → Option (List DateTimeBranch × Bool)
    → Option (List DateTimeBranch × Bool)
join_branches none rest = none
join_branches (some b) none = none
join_branches (some (b, n)) (some (bs, m)) = some (b ∷ bs, n || m)

-- The first loop: every branch is a date time, and whether one is Nullable.
unfoldable pub read_branches : List ChType → Option (List DateTimeBranch × Bool)
read_branches [] = some ([], false)
read_branches (t ∷ ts) = join_branches (read_branch t) (read_branches ts)

unfoldable pub max_precision : ℤ → List DateTimeBranch → ℤ
max_precision best [] = best
max_precision best (b ∷ bs) =
    max_precision (if gtb (precision b) best then precision b else best) bs

abbrev pub same_int : ℤ → ℤ → Bool
same_int (pos a) (pos b) = a == b
same_int (negsuc a) (negsuc b) = a == b
same_int _ _ = false

unfoldable pub every_at : ℤ → List DateTimeBranch → Bool
every_at best [] = true
every_at best (b ∷ bs) = same_int (precision b) best && every_at best bs

-- The timezone of the last branch of a precision.
unfoldable pub last_at : ℤ → String → List DateTimeBranch → String
last_at best last [] = last
last_at best last (b ∷ bs) =
    last_at best (if same_int (precision b) best then timezone b else last) bs

-- There is a first branch, since the function has no call with no types.
abbrev pub first_timezone : List DateTimeBranch → String
first_timezone [] = ""
first_timezone (b ∷ bs) = timezone b

abbrev pub timezone_params : String → List String
timezone_params zone = if str_eq zone "" then [] else zone ∷ []

-- The type that a branch stands for: a DateTime at precision 0.
unfoldable pub render : ℤ → String → ChType
render p zone =
    if same_int p (pos 0)
    then ch_type "DateTime" nil (timezone_params zone) []
    else ch_type "DateTime64" nil (itoa_int p ∷ timezone_params zone) []

unfoldable pub conclude_branches : List DateTimeBranch → ChType
unfolding max_precision every_at last_at render
conclude_branches branches =
    let best = max_precision (negsuc 0) branches in
    render best
      (if every_at best branches then first_timezone branches else last_at best "" branches)

-- The result, and whether a branch is Nullable, where the rule handles the list.
unfoldable pub date_time_timezone_ch_types : List ChType → Option (ChType × Bool)
unfolding read_branches conclude_branches
date_time_timezone_ch_types types = elim (read_branches types) [
  | none ↦ none
  | some (branches, nullable) ↦ some (conclude_branches branches, nullable)
]

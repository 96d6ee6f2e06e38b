-- ===== src/MixedSign.antt =====
-- `mixedSignIntegerCHTypes` of internal/engine/supertype.go: the supertype of a whole list of
-- integers of both signs.
pub mod Fold
pub mod Order
pub mod Pairs
use chgen.Base.{
  ℕ, ◌+◌, ◌*◌, Bool, true, false, ◌&&◌, ◌||◌, Option, none, some, List, [], ◌∷◌, leb, ltb,
  if◌then◌else◌, fold_eq, all, str_eq,
}
use chgen.ChType.{ChType, ch_type, nil, cons, name, params, named, ChTypes}
use chgen.Wrappers.{split_ch_wrappers}
use chgen.LowCardinality.{strip_deep}
use chgen.Numeric.{
  Kind, unsigned, signed, float, NumericInfo, numeric_info_for_type, numeric_type_name, candidates,
}

abbrev no_params : ChTypes → Bool
no_params nil = true
no_params (cons t ts) = false

-- A branch without its wrappers, where Bool counts as UInt8, and whether it was Nullable.
unfoldable pub integer_base : ChType → ChType × Bool
integer_base value =
    let (base, nullable, low_cardinality) = split_ch_wrappers (strip_deep value) in
    (
      if fold_eq (name base) "Bool" && no_params (params base) then named "UInt8" else base,
      nullable,
    )

-- The integer of a branch, or `none` where the branch is no integer.
abbrev pub integer_of : Kind → NumericInfo → Bool → Option (NumericInfo × Bool)
integer_of float i nullable = none
integer_of unsigned i nullable = some (i, nullable)
integer_of signed i nullable = some (i, nullable)

unfoldable pub branch_info : ChType → Option (NumericInfo × Bool)
branch_info value =
    let (base, nullable) = integer_base value in
    elim (numeric_info_for_type base) [ none ↦ none | some i ↦ integer_of i.kind i nullable ]

abbrev pub join_branch :
    Option (NumericInfo × Bool)
    → Option (List NumericInfo × Bool)
    → Option (List NumericInfo × Bool)
join_branch none rest = none
join_branch (some b) none = none
join_branch (some (i, n)) (some (is, m)) = some (i ∷ is, n || m)

-- The first loop: every branch is an integer, and whether one is Nullable.
unfoldable pub collect : List ChType → Option (List NumericInfo × Bool)
collect [] = some ([], false)
collect (t ∷ ts) = join_branch (branch_info t) (collect ts)

pub record Tally : Type 0 where
  pub has_signed : Bool
  pub has_unsigned : Bool
  pub max_signed_bits : ℕ
  pub max_unsigned_bits : ℕ
  pub seen_unsigned_bits : List ℕ

abbrev pub no_tally : Tally
no_tally = record {
  has_signed = false;
  has_unsigned = false;
  max_signed_bits = 0;
  max_unsigned_bits = 0;
  seen_unsigned_bits = [];
}

-- One round of the second loop, in which a kind that is not signed counts as unsigned.
unfoldable pub count_bits : Tally → Kind → ℕ → Tally
count_bits t signed b = record t {
  has_signed = true;
  max_signed_bits = if ltb t.max_signed_bits b then b else t.max_signed_bits;
}
count_bits t _ b = record t {
  has_unsigned = true;
  max_unsigned_bits = if ltb t.max_unsigned_bits b then b else t.max_unsigned_bits;
  seen_unsigned_bits = b ∷ t.seen_unsigned_bits;
}

unfoldable pub tally : Tally → List NumericInfo → Tally
tally acc [] = acc
tally acc (i ∷ is) = tally (count_bits acc i.kind i.bits) is

-- The search for the first width that every operand fits.
unfoldable pub first_width : Tally → List ℕ → Option ℕ
first_width t [] = none
first_width t (w ∷ ws) =
    if leb t.max_signed_bits w && all (λ u. leb (u * 2) w) t.seen_unsigned_bits
    then some w
    else first_width t ws

-- Not handled, or handled: with the supertype or a refusal, and whether a branch is Nullable.
pub data Outcome : Type 0 where
  not_handled : Outcome
  refused : Bool → Outcome
  found : ChType → Bool → Outcome

unfoldable pub outcome_of : Option ℕ → Bool → Outcome
outcome_of none nullable = refused nullable
outcome_of (some w) nullable = found (named (numeric_type_name signed w)) nullable

unfoldable pub conclude : Tally → Bool → Outcome
conclude t nullable =
    if t.has_signed && t.has_unsigned
    then outcome_of (first_width t (candidates t.max_unsigned_bits t.max_signed_bits)) nullable
    else not_handled

unfoldable pub mixed_sign_integer_ch_types : List ChType → Outcome
mixed_sign_integer_ch_types types = elim (collect types) [
  | none ↦ not_handled
  | some (infos, nullable) ↦ conclude (tally no_tally infos) nullable
]

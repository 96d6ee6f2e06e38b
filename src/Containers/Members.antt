-- ===== src/Containers/Members.antt =====
-- `commonContainerMemberCHType` and `restoreContainerMemberLowCardinality` of
-- internal/engine/supertype.go: the members join without LowCardinality, and a wrapper that every
-- member had is put back, at every depth.
use chgen.Base.{
  ℕ, zero, suc, Bool, true, false, ◌&&◌, Option, none, some, List, [], ◌∷◌, ◌==◌, if◌then◌else◌,
  fold_eq, all, String, Result, ok, ◌>>=◌, map,
}
use chgen.ChType.{ChType, ch_type, ChTypes, nil, cons, name, params, unwrap_as}
use chgen.ChType.{length as count}
use chgen.Wrappers.{wrap_low_cardinality}
use chgen.LowCardinality.{unwrap_low_cardinality}
use chgen.Branches.{ListError, common_ch_types}

-- `strings.EqualFold(value.Name, "LowCardinality") && len(value.Params) == 1`
unfoldable pub is_low_cardinality : ChType → Bool
is_low_cardinality value = elim (unwrap_as "LowCardinality" value) [ none ↦ false | some t ↦ true ]

abbrev pub param_at : ℕ → ChTypes → Option ChType
param_at i nil = none
param_at zero (cons t ts) = some t
param_at (suc i) (cons t ts) = param_at i ts

abbrev prepend : Option ChType → Option (List ChType) → Option (List ChType)
prepend (some t) (some ts) = some (t ∷ ts)
prepend (some t) none = none
prepend none rest = none

-- The parameters of all members at one position, where each member is a node like the result.
unfoldable pub positions : String → ℕ → ℕ → List ChType → Option (List ChType)
positions n total i [] = some []
positions n total i (m ∷ ms) =
    let rest = positions n total i ms in
    let bare = unwrap_low_cardinality m in
    if fold_eq (name bare) n && count (params bare) == total
    then prepend (param_at i (params bare)) rest
    else none

abbrev pub members_at : Option (List ChType) → List ChType
members_at none = []
members_at (some ts) = ts

-- The parameter as it is where there is no position to read, and the restored one otherwise.
abbrev pub restored_at : List ChType → ChType → ChType → ChType
restored_at [] value nested = value
restored_at (t ∷ ts) value nested =
    if all is_low_cardinality (t ∷ ts) then wrap_low_cardinality nested else nested

unfoldable mutual
  pub restore : ChType → List ChType → ChType
  restore (ch_type n ps ls ns) members = ch_type n (restore_params n (count ps) 0 ps members) ls ns

  pub restore_params : String → ℕ → ℕ → ChTypes → List ChType → ChTypes
  restore_params n total i nil members = nil
  restore_params n total i (cons t ts) members =
      let position = members_at (positions n total i members) in
      cons (restored_at position t (restore t (map unwrap_low_cardinality position)))
        (restore_params n total (suc i) ts members)

-- `commonContainerMemberCHType`; a call with no members is refused with the list.
unfoldable pub common_container_member : List ChType → Result ListError ChType
common_container_member members =
    let inner = map unwrap_low_cardinality members in
    common_ch_types inner >>= λ result. ok (
      if all is_low_cardinality members
      then wrap_low_cardinality (restore result inner)
      else restore result inner)

-- ===== src/Containers/Wrappers.antt =====
-- LowCardinality in containers and in their elements.
use chgen.Base.{
  ◌≡◌, refl, Bool, true, false, not, none, some, List, [], ◌∷◌, if◌then◌else◌, fold_eq, all, map,
  ok, err, AllOk, AllOk-bind, AllOk-ok, or-eq-false, Bool-cases, inl, inr,
}
use chgen.ChType.{ChType, ch_type, ChTypes, nil, cons, name, params, unwrap_as}
use chgen.Wrappers.{split_ch_wrappers, can_be_inside_nullable, wrap_nullable}
use chgen.LowCardinality.{strip_nested, unwrap_low_cardinality, has_low_cardinality}
use chgen.LowCardinality.Removal.{has_low_cardinality-strip_nested}
use chgen.Transport.Marker.{simple_aggregate_wrapper_inner}
use chgen.Transport.Aggregates.{wrap_nullable-free}
use chgen.Supertype.Free.{IsFree}
use chgen.Branches.{common_ch_types}
use chgen.Branches.Free.{common_ch_types-IsFree}
use chgen.Containers.{
  ContainerError, array_element_function, array_element_of, at_index, not_nullable,
}
use chgen.Containers.Members.{is_low_cardinality, restore, common_container_member}

at_index-IsFree :
    (t : ChType) (indices : List ChType) → IsFree t → AllOk IsFree (at_index t indices)
at_index-IsFree t [] h = h
at_index-IsFree t (index ∷ rest) h = go (split_ch_wrappers index).1 (not (can_be_inside_nullable t))
  where
    go :
        (b c : Bool)
        → AllOk {E = ContainerError} IsFree
            (if b then if c then err (not_nullable t) else ok (wrap_nullable t) else ok t)
    go false c = h
    go true true = tt
    go true false = wrap_nullable-free t h

element_of-IsFree :
    (array : ChType) (ps : ChTypes) (indices : List ChType)
    → AllOk IsFree (array_element_of array ps indices)
element_of-IsFree array nil indices = tt
element_of-IsFree array (cons t (cons u us)) indices = tt
element_of-IsFree array (cons t nil) indices = elim (Bool-cases (fold_eq (name array) "Array")) [
  | inr e ↦ rw e tt
  | inl e ↦ rw e (at_index-IsFree (strip_nested t) indices (has_low_cardinality-strip_nested t))
]

-- The type of an element that arrayElement reads, where it accepts the arguments, holds no
-- LowCardinality at any depth, whatever the array holds.
pub array_element_function-IsFree :
    (args : List ChType) → AllOk (λ t. has_low_cardinality t ≡ false) (array_element_function args)
unfolding array_element_function
array_element_function-IsFree [] = tt
array_element_function-IsFree (array ∷ indices) = element_of-IsFree array (params array) indices

not_wrapper :
    (b : Bool) (t : ChType)
    → b ≡ false
    → elim (if b then some t else none) as (λ _. Bool) [ none ↦ false | some t ↦ true ] ≡ false
not_wrapper false t h = refl
not_wrapper true t h = cc

restore-unwrapped :
    (t : ChType) (members : List ChType) → IsFree t → is_low_cardinality (restore t members) ≡ false
unfolding is_low_cardinality restore has_low_cardinality unwrap_as
restore-unwrapped (ch_type n nil ls ns) members h = refl
restore-unwrapped (ch_type n (cons t nil) ls ns) members h =
    let other = (or-eq-false (fold_eq n "LowCardinality") _ h).0 in
    not_wrapper (fold_eq n "LowCardinality") _ other
restore-unwrapped (ch_type n (cons t (cons u us)) ls ns) members h = refl

-- The member type of a container is LowCardinality only if every member is, where the first member is
-- no SimpleAggregateFunction, below a LowCardinality or not.
pub common_container_member-is_low_cardinality :
    (first : ChType) (rest : List ChType)
    → simple_aggregate_wrapper_inner (unwrap_low_cardinality first) ≡ none
    → all is_low_cardinality (first ∷ rest) ≡ false
    → AllOk (λ t. is_low_cardinality t ≡ false) (common_container_member (first ∷ rest))
unfolding common_container_member
common_container_member-is_low_cardinality first rest h k =
    let inner = map unwrap_low_cardinality (first ∷ rest) in
    AllOk-bind (λ t. is_low_cardinality t ≡ false) (common_ch_types inner) _
      (λ t e.
        let free =
          AllOk-ok IsFree (common_ch_types inner)
            (common_ch_types-IsFree (unwrap_low_cardinality first) (map unwrap_low_cardinality rest)
              h)
            e in
        rw k (restore-unwrapped t inner free))

-- ===== src/GoType/Wrappers.antt =====
-- LowCardinality does not change the Go type.
use chgen.Base.{
  ◌≡◌, refl, sym, ◌∙◌, ap, String, Bool, true, false, ◌||◌, [], ◌∷◌, fold_eq, fold_eq_iff, fold_in,
  fold_switch, Bool-cases, inl, inr,
}
use chgen.ChType.{ChType, ch_type, ChTypes, nil, cons}
use chgen.LowCardinality.{strip_nested, strip_nested_all}
use chgen.GoType.{
  go_rules, or_default, low_cardinality, rule_of, is_wide_name, contains_wide_integer,
  contain_wide_integer, go_type, go_types,
}
use chgen.GoType.Names.{canonical_of, canonical_ch_type_name}

canonical-low_cardinality :
    (n : String) → fold_eq n "LowCardinality" ≡ true → canonical_ch_type_name n ≡ "LowCardinality"
unfolding canonical_ch_type_name fold_eq
canonical-low_cardinality n h =
    ap (λ key. canonical_of key n) ((fold_eq_iff n "LowCardinality").0 h)

rule_of-low_cardinality :
    (n : String) → fold_eq n "LowCardinality" ≡ true → rule_of n ≡ low_cardinality
unfolding rule_of fold_switch fold_eq
rule_of-low_cardinality n h =
    ap (λ name. or_default (fold_switch name go_rules)) (canonical-low_cardinality n h)

is_wide_name-low_cardinality :
    (n : String) → fold_eq n "LowCardinality" ≡ true → is_wide_name n ≡ false
unfolding is_wide_name fold_in fold_eq
is_wide_name-low_cardinality n h =
    ap (λ name. fold_in name ("int128" ∷ "uint128" ∷ "int256" ∷ "uint256" ∷ []))
      (canonical-low_cardinality n h)

or_false : (b : Bool) → (b || false) ≡ b
or_false true = refl
or_false false = refl

mutual
  unfolding strip_nested contains_wide_integer

  wide_stripped : (t : ChType) → contains_wide_integer (strip_nested t) ≡ contains_wide_integer t
  wide_stripped (ch_type n nil ls ns) = refl
  wide_stripped (ch_type n (cons t nil) ls ns) = elim (Bool-cases (fold_eq n "LowCardinality")) [
    | inl e ↦
        let narrow = is_wide_name-low_cardinality n e in
        rw (e, narrow) (wide_stripped t ∙ sym (or_false (contains_wide_integer t)))
    | inr e ↦ rw (e, wide_stripped t)
  ]
  wide_stripped (ch_type n (cons t (cons u us)) ls ns) =
      rw (wide_stripped t, wide_stripped u, wide_all_stripped us)

  wide_all_stripped :
      (ts : ChTypes) → contain_wide_integer (strip_nested_all ts) ≡ contain_wide_integer ts
  wide_all_stripped nil = refl
  wide_all_stripped (cons t ts) = rw (wide_stripped t, wide_all_stripped ts)

mutual
  unfolding strip_nested contains_wide_integer go_type

  go_stripped : (t : ChType) → go_type (strip_nested t) ≡ go_type t
  go_stripped (ch_type n nil ls ns) = refl
  go_stripped (ch_type n (cons t nil) ls ns) = elim (Bool-cases (fold_eq n "LowCardinality")) [
    | inl e ↦ let rule = rule_of-low_cardinality n e in rw (e, rule) (go_stripped t)
    | inr e ↦ rw (e, wide_stripped t, go_stripped t)
  ]
  go_stripped (ch_type n (cons t (cons u us)) ls ns) = rw (
    wide_stripped t,
    wide_stripped u,
    wide_all_stripped us,
    go_stripped t,
    go_stripped u,
    go_all_stripped us,
  )

  go_all_stripped : (ts : ChTypes) → go_types (strip_nested_all ts) ≡ go_types ts
  go_all_stripped nil = refl
  go_all_stripped (cons t ts) = rw (go_stripped t, go_all_stripped ts)

-- LowCardinality, at whatever depth, changes neither the Go type of a ClickHouse type nor whether it
-- has one.
pub go_type-strip_nested : (t : ChType) → go_type (strip_nested t) ≡ go_type t
go_type-strip_nested t = go_stripped t

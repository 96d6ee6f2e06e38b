-- ===== src/GoType/Pointers.antt =====
-- A Go type is never a pointer to a pointer.
use chgen.Base.{
  ◌≡◌, refl, ◌∙◌, ap, ℕ, String, Bool, true, false, List, [], ◌∷◌, ◌==◌, codes, codes-concat,
  Bool-cases, inl, inr, AllOk, AllOk-bind, AllOk-ok, AllOk-reject, Option, none, some, All,
  fold_switch, str_eq, ◌&&◌, not, all, all-All, arith,
}
use Prim.Native.String.{◌++◌ as concat}
use chgen.ChType.{ChType, ch_type, ChTypes, nil, cons}
use chgen.Numeric.Ranges.{fold_switch-All}
use chgen.GoType.Names.{canonical_ch_type_name}
use chgen.GoType.{
  GoRule, low_cardinality, nullable, simple_aggregate, array, map, refuse, plain, go_rules,
  or_default, rule_of, is_pointer, GoText, pointer_to, map_text, map_go_type, apply_rule, go_type,
  go_types, contain_wide_integer, first_is_star,
}

-- The text starts with two stars.
abbrev two_stars : List ℕ → Bool
two_stars [] = false
two_stars (c ∷ []) = false
two_stars (c ∷ d ∷ rest) = (c == b'*') && (d == b'*')

unfoldable pub is_double_pointer : String → Bool
is_double_pointer s = two_stars (codes s)

IsSingle : String → Type 0
IsSingle s = is_double_pointer s ≡ false

not_pointer : (cs : List ℕ) → first_is_star cs ≡ false → two_stars cs ≡ false
not_pointer [] h = refl
not_pointer (c ∷ []) h = refl
not_pointer (c ∷ d ∷ rest) h = rw h

star-single : (cs : List ℕ) → first_is_star cs ≡ false → two_stars (b'*' ∷ cs) ≡ false
star-single [] h = refl
star-single (c ∷ cs) h = h

pointer_to-IsSingle : (s : String) → IsSingle s → IsSingle (pointer_to s)
unfolding IsSingle is_double_pointer is_pointer
pointer_to-IsSingle s h = elim (Bool-cases (is_pointer s)) [
  | inl e ↦ rw e h
  | inr e ↦ rw e (ap two_stars (codes-concat "*" s) ∙ star-single (codes s) e)
]

array-IsSingle : (s : String) → IsSingle (concat "[]" s)
unfolding IsSingle is_double_pointer
array-IsSingle s = ap two_stars (codes-concat "[]" s)

map-IsSingle : (k v : String) → IsSingle (map_text k v)
unfolding IsSingle is_double_pointer
map-IsSingle k v = ap two_stars (codes-concat "map[" (concat k (concat "]" v)))

-- A rule with a fixed text has one that is no pointer to a pointer.
rule_is_single : GoRule → Bool
rule_is_single (plain text) = not (is_double_pointer text)
rule_is_single _ = true

rules-single : all (λ e. rule_is_single e.1) go_rules ≡ true
unfolding rule_is_single is_double_pointer
rules-single = refl

rule_of-single : (n : String) → rule_is_single (rule_of n) ≡ true
unfolding rule_of rule_is_single
rule_of-single n = go _ refl
  where
    go :
        (o : Option GoRule)
        → fold_switch (canonical_ch_type_name n) go_rules ≡ o
        → rule_is_single (or_default o) ≡ true
    go none e = refl
    go (some rule) e =
        fold_switch-All (λ r. rule_is_single r ≡ true) (canonical_ch_type_name n) go_rules rule
          (all-All (λ e. rule_is_single e.1) go_rules rules-single) e

AllSingle : List GoText → Type 0
AllSingle ts = All (λ t. AllOk IsSingle t) ts

map_go_type-IsSingle : (wide : Bool) (k v : GoText) → AllOk IsSingle (map_go_type wide k v)
map_go_type-IsSingle true k v = tt
map_go_type-IsSingle false k v = AllOk-bind IsSingle k _ (λ key e.
    AllOk-reject IsSingle (is_pointer key) _ _ (λ _.
      AllOk-reject IsSingle (str_eq key "net.IP") _ _
        (λ _. AllOk-bind IsSingle v _ (λ value f. map-IsSingle key value))))

apply_rule-IsSingle :
    (rule : GoRule) (wide : Bool) (ts : List GoText)
    → rule_is_single rule ≡ true
    → AllSingle ts
    → AllOk IsSingle (apply_rule rule wide ts)
unfolding AllSingle rule_is_single IsSingle
apply_rule-IsSingle (refuse e) wide ts s h = tt
apply_rule-IsSingle (plain text) wide ts s h = ground (arith, s)
apply_rule-IsSingle low_cardinality wide [] s h = tt
apply_rule-IsSingle low_cardinality wide (t ∷ []) s h = h.0
apply_rule-IsSingle low_cardinality wide (t ∷ u ∷ ts) s h = tt
apply_rule-IsSingle nullable wide [] s h = tt
apply_rule-IsSingle nullable wide (t ∷ []) s h =
    AllOk-bind IsSingle t _ (λ inner e. pointer_to-IsSingle inner (AllOk-ok IsSingle t h.0 e))
apply_rule-IsSingle nullable wide (t ∷ u ∷ ts) s h = tt
apply_rule-IsSingle simple_aggregate wide [] s h = tt
apply_rule-IsSingle simple_aggregate wide (t ∷ []) s h = tt
apply_rule-IsSingle simple_aggregate wide (f ∷ t ∷ []) s h = h.1.0
apply_rule-IsSingle simple_aggregate wide (f ∷ t ∷ u ∷ ts) s h = tt
apply_rule-IsSingle array wide [] s h = tt
apply_rule-IsSingle array wide (t ∷ []) s h =
    AllOk-bind IsSingle t _ (λ inner e. array-IsSingle inner)
apply_rule-IsSingle array wide (t ∷ u ∷ ts) s h = tt
apply_rule-IsSingle map wide [] s h = tt
apply_rule-IsSingle map wide (t ∷ []) s h = tt
apply_rule-IsSingle map wide (k ∷ v ∷ []) s h = map_go_type-IsSingle wide k v
apply_rule-IsSingle map wide (k ∷ v ∷ u ∷ ts) s h = tt

mutual
  unfolding go_type AllSingle

  go-IsSingle : (t : ChType) → AllOk IsSingle (go_type t)
  go-IsSingle (ch_type n ps ls ns) =
      apply_rule-IsSingle (rule_of n) (contain_wide_integer ps) (go_types ps) (rule_of-single n)
        (go-AllSingle ps)

  go-AllSingle : (ts : ChTypes) → AllSingle (go_types ts)
  go-AllSingle nil = tt
  go-AllSingle (cons t ts) = (go-IsSingle t, go-AllSingle ts)

-- The Go type of a ClickHouse type, where it has one, is not a pointer to a pointer, however its
-- Nullable and LowCardinality wrappers nest.
pub go_type-single : (t : ChType) → AllOk (λ s. is_double_pointer s ≡ false) (go_type t)
unfolding IsSingle
go_type-single t = go-IsSingle t

-- ===== src/Temporal/Switches.antt =====
-- The switch of `goType` and that of `temporalShapeOf` agree on every name.
use chgen.Base.{
  ◌≡◌, refl, sym, ap, subst, String, true, false, List, [], ◌∷◌, fold_eq, fold_switch,
  fold_switch_same, Bool-cases, inl, inr, All,
}
use chgen.GoType.Names.{canonical_ch_type_name}
use chgen.GoType.{
  GoRule, low_cardinality, simple_aggregate, refuse, plain, go_rules, or_default, rule_of, GoError,
}
use chgen.GoType.{nullable as go_nullable, array as go_array, map as go_map}
use chgen.Temporal.{
  TemporalKind, TemporalRule, first_param, nullable, array, map, no_time, kind, or_no_time,
  temporal_rules, temporal_rule_at,
}
use chgen.Temporal.Texts.{has_time}

-- The two switches, side by side.
pub data Consistent : GoRule → TemporalRule → Type 0 where
  through : Consistent low_cardinality first_param
  nulls : Consistent go_nullable nullable
  arrays : Consistent go_array array
  maps : Consistent go_map map
  time : {k : TemporalKind} → Consistent (plain "time.Time") (kind k)
  other : {text : String} → has_time text ≡ false → Consistent (plain text) no_time
  refused : {e : GoError} {q : TemporalRule} → Consistent (refuse e) q
  marker : {q : TemporalRule} → Consistent simple_aggregate q

rules-Consistent : All (λ e. Consistent e.1 (temporal_rule_at e.0)) go_rules
unfolding temporal_rule_at fold_switch fold_eq has_time
rules-Consistent = (
  through,
  (
    nulls,
    (
      refused,
      (
        marker,
        (
          refused,
          (
            refused,
            (
              refused,
              (
                refused,
                (
                  refused,
                  (
                    refused,
                    (
                      refused,
                      (
                        refused,
                        (
                          refused,
                          (
                            refused,
                            (
                              refused,
                              (
                                refused,
                                (
                                  refused,
                                  (
                                    refused,
                                    (
                                      other refl,
                                      (
                                        other refl,
                                        (
                                          refused,
                                          (
                                            other refl,
                                            (
                                              other refl,
                                              (
                                                other refl,
                                                (
                                                  other refl,
                                                  (
                                                    other refl,
                                                    (
                                                      other refl,
                                                      (
                                                        other refl,
                                                        (
                                                          other refl,
                                                          (
                                                            other refl,
                                                            (
                                                            other refl,
                                                            (
                                                            other refl,
                                                            (
                                                            other refl,
                                                            (
                                                            other refl,
                                                            (
                                                            other refl,
                                                            (
                                                            other refl,
                                                            (
                                                            other refl,
                                                            (
                                                            other refl,
                                                            (
                                                            other refl,
                                                            (
                                                            other refl,
                                                            (
                                                            other refl,
                                                            (
                                                            other refl,
                                                            (
                                                            time,
                                                            (
                                                            time,
                                                            (time, (time, (arrays, (maps, tt)))),
                                                            ),
                                                            ),
                                                            ),
                                                            ),
                                                            ),
                                                            ),
                                                            ),
                                                            ),
                                                            ),
                                                            ),
                                                            ),
                                                            ),
                                                            ),
                                                            ),
                                                          ),
                                                        ),
                                                      ),
                                                    ),
                                                  ),
                                                ),
                                              ),
                                            ),
                                          ),
                                        ),
                                      ),
                                    ),
                                  ),
                                ),
                              ),
                            ),
                          ),
                        ),
                      ),
                    ),
                  ),
                ),
              ),
            ),
          ),
        ),
      ),
    ),
  ),
)

rule_at_same : (n m : String) → fold_eq n m ≡ true → temporal_rule_at n ≡ temporal_rule_at m
unfolding temporal_rule_at
rule_at_same n m e = ap (λ o. or_no_time o) (fold_switch_same n m temporal_rules e)

by_rules :
    (canonical : String) (rules : List (String × GoRule))
    → All (λ e. Consistent e.1 (temporal_rule_at e.0)) rules
    → Consistent (or_default (fold_switch canonical rules)) (temporal_rule_at canonical)
unfolding fold_switch
by_rules canonical [] h = refused
by_rules canonical ((s, rule) ∷ rest) h = elim (Bool-cases (fold_eq canonical s)) [
  | inl e ↦ rw e (subst (λ q. Consistent rule q) (sym (rule_at_same canonical s e)) h.0)
  | inr e ↦ rw e (by_rules canonical rest h.1)
]

pub rule_of-Consistent :
    (n : String) → Consistent (rule_of n) (temporal_rule_at (canonical_ch_type_name n))
unfolding rule_of
rule_of-Consistent n = by_rules (canonical_ch_type_name n) go_rules rules-Consistent

-- ===== src/Composition/Merge/Columns.antt =====
-- All variants of a merged query have its columns.
use chgen.Base.{
  ◌≡◌, refl, sym, ap, subst, ◌∙◌, ℕ, suc, ◌+◌, String, Bool, true, false, not, Option, none, some,
  List, [], ◌∷◌, length, map, All, str_eq, eq_iff, ◌==◌, and-eq-true, Result, ok, reject, AllOk,
  AllOk-reject, AllOk-bind, AllOk-map, AllOk-ok, arith,
}
use chgen.Base.Dict.{Dict, lookup, assign}
use chgen.Composition.{TableChoice}
use chgen.Composition.Merge.{
  ResultColumn, Param, ExternalParam, Query, Merged, MergeError, parameter_changes, same_column,
  merge_columns, indices_of, add_param, param_shape, with_param, add_params, with_external_param,
  add_external_params, with_results, merge_variant, merge_loop, owners_of, check_choices, started,
  merge_query_variants,
}

-- What callers see of a column: its names and its types.
abbrev pub heading : ResultColumn → String × String × String × String
heading c = (c.sql_name, c.go_name, c.go_type, c.type_text)

abbrev pub headings : List ResultColumn → List (String × String × String × String)
headings columns = map heading columns

same_column-heading :
    (want result : ResultColumn) → same_column want result ≡ true → heading result ≡ heading want
unfolding same_column
same_column-heading want result h =
    let (a, rest) = and-eq-true _ _ h in
    let (b, rest') = and-eq-true _ _ rest in
    let (c, d) = and-eq-true _ _ rest' in
    rw (
      (eq_iff result.sql_name want.sql_name).0 a,
      (eq_iff result.go_name want.go_name).0 b,
      (eq_iff result.go_type want.go_type).0 c,
      (eq_iff result.type_text want.type_text).0 d,
    )

abbrev Agree : List ResultColumn → List ResultColumn → List ResultColumn → Type 0
Agree wants results merged =
    (headings merged ≡ headings wants) × (headings results ≡ headings wants)

merge_columns-Agree :
    (index : ℕ) (wants results : List ResultColumn)
    → length results ≡ length wants
    → AllOk (Agree wants results) (merge_columns index wants results)
unfolding merge_columns
merge_columns-Agree index [] [] h = (refl, refl)
merge_columns-Agree index [] (r ∷ rs) h = absurd (omega arith)
merge_columns-Agree index (w ∷ ws) [] h = absurd (omega arith)
merge_columns-Agree index (w ∷ ws) (r ∷ rs) h =
    let P = Agree (w ∷ ws) (r ∷ rs) in
    AllOk-reject P (not (same_column w r)) _ _ (λ same.
      AllOk-bind P (merge_columns index ws rs) _ (λ merged e.
        let (m, n) =
          AllOk-ok (Agree ws rs) (merge_columns index ws rs)
            (merge_columns-Agree index ws rs (omega arith)) e in
        (ap (λ l. heading w ∷ l) m, cc (same_column-heading w r (ground arith), n))))

add_param-query :
    (m : Merged) (index : ℕ) (name shape : String)
    → AllOk (λ r. r.0.query ≡ m.query) (add_param m index name shape)
unfolding add_param
add_param-query m index name shape = go (lookup m.param_types name)
  where
    go :
        (found : Option String)
        → AllOk
            (λ r. r.0.query ≡ m.query)
            (elim found as (λ _. Result MergeError (Merged × Bool)) [
              | none ↦ ok (
                record m {
                  param_types = assign m.param_types name shape;
                  presence = assign m.presence name (index ∷ []);
                },
                true,
              )
              | some previous ↦
                  reject (not (str_eq previous shape)) (parameter_changes (index + 1) name) (
                    ok (
                      record m {
                        presence =
                            assign m.presence name (index ∷ indices_of (lookup m.presence name));
                      },
                      false,
                    ))
            ])
    go none = refl
    go (some previous) =
        AllOk-reject (λ r. r.0.query ≡ m.query) (not (str_eq previous shape)) _ _ (λ _. refl)

-- The state has the same result columns.
abbrev Keeps : Merged → Merged → Type 0
Keeps m after = after.query.results ≡ m.query.results

add_params-Keeps :
    (m : Merged) (index : ℕ) (params : List Param) → AllOk (Keeps m) (add_params m index params)
unfolding add_params
add_params-Keeps m index [] = refl
add_params-Keeps m index (p ∷ rest) =
    AllOk-bind (Keeps m) (add_param m index p.go_name (param_shape p)) _ (λ r e.
      let same =
        AllOk-ok (λ r. r.0.query ≡ m.query) (add_param m index p.go_name (param_shape p))
          (add_param-query m index p.go_name (param_shape p)) e in
      AllOk-map (Keeps (with_param r.0 p r.1)) (Keeps m)
        (add_params (with_param r.0 p r.1) index rest) (λ after k. k ∙ ap (λ q. q.results) same)
        (add_params-Keeps (with_param r.0 p r.1) index rest))

add_external_params-Keeps :
    (m : Merged) (index : ℕ) (params : List ExternalParam)
    → AllOk (Keeps m) (add_external_params m index params)
unfolding add_external_params
add_external_params-Keeps m index [] = refl
add_external_params-Keeps m index (p ∷ rest) =
    AllOk-bind (Keeps m) (add_param m index p.go_name _) _ (λ r e.
      let same =
        AllOk-ok (λ r. r.0.query ≡ m.query) (add_param m index p.go_name _)
          (add_param-query m index p.go_name _) e in
      AllOk-map (Keeps (with_external_param r.0 p r.1)) (Keeps m)
        (add_external_params (with_external_param r.0 p r.1) index rest)
        (λ after k. k ∙ ap (λ q. q.results) same)
        (add_external_params-Keeps (with_external_param r.0 p r.1) index rest))

abbrev Step : Merged → Query → Merged → Type 0
Step m variant after =
    (headings after.query.results ≡ headings m.query.results)
    × (headings variant.results ≡ headings m.query.results)

merge_variant-Step :
    (m : Merged) (index : ℕ) (variant : Query)
    → AllOk (Step m variant) (merge_variant m index variant)
unfolding merge_variant
merge_variant-Step m index variant =
    let P = Step m variant in
    AllOk-reject P (not (length variant.results == length m.query.results)) _ _ (λ same.
      AllOk-bind P (merge_columns index m.query.results variant.results) _ (λ columns e.
        AllOk-bind P (add_params (with_results m columns) index variant.params) _ (λ with_params e'.
          AllOk-bind P (add_external_params with_params index variant.external_params) _
            (λ with_all e''.
              let (agree, of_variant) =
                AllOk-ok (Agree m.query.results variant.results)
                  (merge_columns index m.query.results variant.results)
                  (merge_columns-Agree index m.query.results variant.results (ground arith)) e in
              let k =
                AllOk-ok (Keeps (with_results m columns))
                  (add_params (with_results m columns) index variant.params)
                  (add_params-Keeps (with_results m columns) index variant.params) e' in
              let k' =
                AllOk-ok (Keeps with_params)
                  (add_external_params with_params index variant.external_params)
                  (add_external_params-Keeps with_params index variant.external_params) e'' in
              (ap headings (k' ∙ k) ∙ agree, of_variant)))))

abbrev Loop : Merged → List Query → Merged → Type 0
Loop m variants after =
    (headings after.query.results ≡ headings m.query.results)
    × All (λ v. headings v.results ≡ headings m.query.results) variants

merge_loop-Loop :
    (m : Merged) (index : ℕ) (variants : List Query)
    → AllOk (Loop m variants) (merge_loop m index variants)
unfolding merge_loop
merge_loop-Loop m index [] = (refl, tt)
merge_loop-Loop m index (v ∷ rest) =
    AllOk-bind (Loop m (v ∷ rest)) (merge_variant m index v) _ (λ merged e.
      let (same, first) =
        AllOk-ok (Step m v) (merge_variant m index v) (merge_variant-Step m index v) e in
      AllOk-map (Loop merged rest) (Loop m (v ∷ rest)) (merge_loop merged (suc index) rest)
        (λ after (a, b).
          (a ∙ same, (first, subst (λ h. All (λ v. headings v.results ≡ h) rest) same b)))
        (merge_loop-Loop merged (suc index) rest))

check_choices-same :
    (m : Merged) (tables : List TableChoice) → AllOk (λ after. after ≡ m) (check_choices m tables)
unfolding check_choices
check_choices-same m [] = refl
check_choices-same m (choice ∷ rest) =
    AllOk-reject (λ after. after ≡ m) _ _ _ (λ _. check_choices-same m rest)

abbrev Columned : List Query → Query × Dict String → Type 0
Columned variants r = All (λ v. headings v.results ≡ headings r.0.results) variants

merge_query_variants-Columned :
    (options : List String) (tables : List TableChoice) (variants : List Query)
    → AllOk (Columned variants) (merge_query_variants options tables variants)
unfolding merge_query_variants
merge_query_variants-Columned options tables [] = tt
merge_query_variants-Columned options tables (first ∷ rest) =
    let P = Columned (first ∷ rest) in
    AllOk-bind P (merge_loop (started first) 0 (first ∷ rest)) _ (λ m e.
      AllOk-bind P (owners_of m (suc (length rest)) 0 [] options) _ (λ owners _.
        AllOk-bind P (check_choices m tables) _ (λ checked e'.
          let (same, every) =
            AllOk-ok (Loop (started first) (first ∷ rest))
              (merge_loop (started first) 0 (first ∷ rest))
              (merge_loop-Loop (started first) 0 (first ∷ rest)) e in
          let still =
            AllOk-ok (λ after. after ≡ m) (check_choices m tables) (check_choices-same m tables)
              e' in
          subst (λ h. All (λ v. headings v.results ≡ h) (first ∷ rest))
            (sym same ∙ sym (ap (λ x. headings x.query.results) still)) every)))

-- If the variants of a query merge, every variant has the columns of the merged query: as many, in
-- the same order, each with the same SQL name, Go name, Go type and ClickHouse type.
pub merge_query_variants-headings :
    (options : List String) (tables : List TableChoice) (variants : List Query) (merged : Query)
    (owners : Dict String)
    → merge_query_variants options tables variants ≡ ok (merged, owners)
    → All (λ v. headings v.results ≡ headings merged.results) variants
merge_query_variants-headings options tables variants merged owners h =
    AllOk-ok (Columned variants) (merge_query_variants options tables variants)
      (merge_query_variants-Columned options tables variants) h

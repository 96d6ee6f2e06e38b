-- ===== src/Tests/Variants.antt =====
-- The properties of composed queries, at a query with one option and two table choices.
use chgen.Base.{
  ◌≡◌, refl, ◌↔◌, ℕ, ◌*◌, ◌%◌, ◌^◌, ◌<◌, String, true, false, List, [], ◌∷◌, length, All, ok, arith,
}
use chgen.Base.Dict.{lookup, assign}
use chgen.Composition.{
  TableChoice, QueryComposition, count_choices, composition_variant_count, selected_tables,
  enabled_options, append_unique,
}
use chgen.Composition.Bounds.{Accepted, product, composition_variant_count_iff}
use chgen.Composition.Choices.{choose, selected_tables-reach}
use chgen.Composition.Unique.{is_distinct}
use chgen.Composition.Merge.{
  Param, Query, merge_query_variants, merge_loop, merge_variant, merge_columns, same_column,
  add_params, add_param, add_external_params, owners_of, own_all, owned_by, check_choices,
}
use chgen.Composition.Merge.Columns.{headings, merge_query_variants-headings}

abbrev choices : List TableChoice
choices =
    record { name = "Source"; tables = "log" ∷ "copy" ∷ [] }
    ∷ record { name = "Target"; tables = "a" ∷ "b" ∷ "c" ∷ [] }
    ∷ []

abbrev composition : QueryComposition
composition = record { options = "Recent" ∷ []; tables = choices }

count_run : composition_variant_count ("Recent" ∷ []) choices ≡ ok 12
unfolding composition_variant_count count_choices
count_run = refl

options_run : enabled_options ("A" ∷ "B" ∷ "C" ∷ []) 5 ≡ "A" ∷ "C" ∷ []
unfolding enabled_options
options_run = refl

composition_variant_count_iff_example :
    (composition_variant_count ("Recent" ∷ []) choices ≡ ok 12)
    ↔ Accepted (2 ^ length {A = String} ("Recent" ∷ [])) ("Recent" ∷ []) choices 12
composition_variant_count_iff_example = composition_variant_count_iff ("Recent" ∷ []) choices 12

selected_tables-reach_example :
    (variant : ℕ) × (variant < 2 ^ length composition.options * product composition.tables)
    × (variant % 2 ^ length composition.options ≡ 1)
    × (selected_tables composition variant ≡ choose [] (1 ∷ 2 ∷ []) choices)
selected_tables-reach_example =
    selected_tables-reach composition 1 (1 ∷ 2 ∷ []) (omega arith) (omega arith, (omega arith, tt))

two_values : is_distinct ("x" ∷ "y" ∷ []) ≡ true
unfolding is_distinct
two_values = refl

abbrev variant : List Param → Query
variant params = record {
  params = params;
  external_params = [];
  results =
      record {
        sql_name = "id";
        go_name = "ID";
        go_type = "uint64";
        type_text = "UInt64";
        asserted = false;
      }
      ∷ [];
  unverified_expressions = [];
  unverified_results = [];
  unchecked_settings = [];
}

abbrev since : Param
since = record { go_name = "Since"; go_type = "time.Time"; type_text = "DateTime" }

-- The parameter of the second variant belongs to the option.
merge_run :
    merge_query_variants ("Recent" ∷ []) [] (variant [] ∷ variant (since ∷ []) ∷ [])
    ≡ ok (variant (since ∷ []), ("Since", "Recent") ∷ [])
unfolding merge_query_variants merge_loop merge_variant merge_columns same_column add_params
    add_param add_external_params append_unique owners_of own_all owned_by check_choices lookup
    assign
merge_run = refl

merge_query_variants-headings_example :
    All
      (λ (v : Query). headings v.results ≡ headings (variant (since ∷ [])).results)
      (variant [] ∷ variant (since ∷ []) ∷ [])
merge_query_variants-headings_example =
    merge_query_variants-headings ("Recent" ∷ []) [] (variant [] ∷ variant (since ∷ []) ∷ [])
      (variant (since ∷ [])) (("Since", "Recent") ∷ []) merge_run

-- ===== src/Composition/Merge.antt =====
-- `mergeQueryVariants` of internal/engine/composition.go: one query from its resolved variants. A
-- type stands for the text that `CHType.String` prints, and an external parameter for the text that
-- `%#v` prints.
pub mod Columns
use Prim.Native.String.{◌++◌ as concat}
use chgen.Base.{
  ℕ, zero, suc, ◌+◌, String, Bool, true, false, not, ◌&&◌, ◌||◌, Option, none, some, List, [], ◌∷◌,
  ◌++◌, length, any, all, ◌==◌, if◌then◌else◌, str_eq, Result, ok, err, ◌>>=◌, reject,
}
use chgen.Base.Dict.{Dict, has, lookup, assign}
use chgen.Composition.{TableChoice, bit, append_unique}

pub record ResultColumn : Type 0 where
  pub sql_name : String
  pub go_name : String
  pub go_type : String
  pub type_text : String
  pub asserted : Bool

pub record Param : Type 0 where
  pub go_name : String
  pub go_type : String
  pub type_text : String

pub record ExternalParam : Type 0 where
  pub go_name : String
  pub text : String

-- The fields of a resolved query that the merge reads or builds.
pub record Query : Type 0 where
  pub params : List Param
  pub external_params : List ExternalParam
  pub results : List ResultColumn
  pub unverified_expressions : List String
  pub unverified_results : List String
  pub unchecked_settings : List String

pub data MergeError : Type 0 where
  no_variants : MergeError
  column_count_changes : ℕ → MergeError
  column_changes : ℕ → String → MergeError
  parameter_changes : ℕ → String → MergeError
  option_collides : String → MergeError
  table_choice_collides : String → MergeError

-- The query so far, with the shape of each parameter and the indices of the variants that have it.
pub record Merged : Type 0 where
  pub query : Query
  pub param_types : Dict String
  pub presence : Dict (List ℕ)

unfoldable pub same_column : ResultColumn → ResultColumn → Bool
same_column want result =
    str_eq result.sql_name want.sql_name
    && (str_eq result.go_name want.go_name
        && (str_eq result.go_type want.go_type && str_eq result.type_text want.type_text))

-- The loop over the columns of a variant; the lengths are equal.
unfoldable pub merge_columns :
    ℕ → List ResultColumn → List ResultColumn → Result MergeError (List ResultColumn)
merge_columns index (want ∷ wants) (result ∷ results) =
    reject (not (same_column want result)) (column_changes (index + 1) want.sql_name) (
      merge_columns index wants results >>= λ merged.
      ok (record want { asserted = want.asserted || result.asserted } ∷ merged))
merge_columns index [] results = ok []
merge_columns index (want ∷ wants) [] = ok (want ∷ wants)

abbrev pub indices_of : Option (List ℕ) → List ℕ
indices_of none = []
indices_of (some is) = is

-- The closure `add`: the state, and whether the parameter is new.
unfoldable pub add_param : Merged → ℕ → String → String → Result MergeError (Merged × Bool)
add_param m index name shape = elim (lookup m.param_types name) [
  | none ↦ ok (
    record m {
      param_types = assign m.param_types name shape;
      presence = assign m.presence name (index ∷ []);
    },
    true,
  )
  | some previous ↦ reject (not (str_eq previous shape)) (parameter_changes (index + 1) name) (
      ok (
        record m {
          presence = assign m.presence name (index ∷ indices_of (lookup m.presence name));
        },
        false,
      ))
]

abbrev pub param_shape : Param → String
param_shape p = concat p.go_type (concat ":" p.type_text)

abbrev pub with_param : Merged → Param → Bool → Merged
with_param m p added = record m {
  query = record (m.query) {
    params = if added then m.query.params ++ (p ∷ []) else m.query.params;
  };
}

unfoldable pub add_params : Merged → ℕ → List Param → Result MergeError Merged
add_params m index [] = ok m
add_params m index (p ∷ rest) = add_param m index p.go_name (param_shape p) >>= λ r.
    add_params (with_param r.0 p r.1) index rest

abbrev pub with_external_param : Merged → ExternalParam → Bool → Merged
with_external_param m p added = record m {
  query = record (m.query) {
    external_params =
        if added then m.query.external_params ++ (p ∷ []) else m.query.external_params;
  };
}

unfoldable pub add_external_params : Merged → ℕ → List ExternalParam → Result MergeError Merged
add_external_params m index [] = ok m
add_external_params m index (p ∷ rest) =
    add_param m index p.go_name (concat "external:" p.text) >>= λ r.
    add_external_params (with_external_param r.0 p r.1) index rest

abbrev pub with_results : Merged → List ResultColumn → Merged
with_results m columns = record m { query = record (m.query) { results = columns } }

abbrev pub with_notes : Merged → Query → Merged
with_notes m variant = record m {
  query = record (m.query) {
    unverified_expressions =
        append_unique m.query.unverified_expressions variant.unverified_expressions;
    unverified_results = append_unique m.query.unverified_results variant.unverified_results;
    unchecked_settings = append_unique m.query.unchecked_settings variant.unchecked_settings;
  };
}

-- One variant.
unfoldable pub merge_variant : Merged → ℕ → Query → Result MergeError Merged
merge_variant m index variant =
    reject (not (length variant.results == length m.query.results))
      (column_count_changes (index + 1))
      (merge_columns index m.query.results variant.results >>= λ columns.
        add_params (with_results m columns) index variant.params >>= λ with_params.
        add_external_params with_params index variant.external_params >>= λ with_all.
        ok (with_notes with_all variant))

unfoldable pub merge_loop : Merged → ℕ → List Query → Result MergeError Merged
merge_loop m index [] = ok m
merge_loop m index (variant ∷ rest) =
    merge_variant m index variant >>= λ merged. merge_loop merged (suc index) rest

-- The parameter is present in exactly the variants of the first `count` that have the option.
unfoldable pub owned_by : ℕ → List ℕ → ℕ → Bool
owned_by zero variants option_bit = true
owned_by (suc count) variants option_bit =
    let others = owned_by count variants option_bit in
    let present = any (λ v. v == count) variants in
    others && (if bit count option_bit then present else not present)

unfoldable pub own_all : Dict String → Dict (List ℕ) → ℕ → ℕ → String → Dict String
own_all owners [] count option_bit option = owners
own_all owners ((name, variants) ∷ rest) count option_bit option =
    own_all (if owned_by count variants option_bit then assign owners name option else owners) rest
      count option_bit option

-- The loop over the options, which gives each parameter the last option that owns it.
unfoldable pub owners_of :
    Merged → ℕ → ℕ → Dict String → List String → Result MergeError (Dict String)
owners_of m count option_bit owners [] = ok owners
owners_of m count option_bit owners (option ∷ rest) =
    reject (has m.param_types option) (option_collides option)
      (owners_of m count (suc option_bit) (own_all owners m.presence count option_bit option) rest)

unfoldable pub check_choices : Merged → List TableChoice → Result MergeError Merged
check_choices m [] = ok m
check_choices m (choice ∷ rest) =
    reject (has m.param_types choice.name) (table_choice_collides choice.name)
      (check_choices m rest)

abbrev pub started : Query → Merged
started first = record {
  query = record {
    params = [];
    external_params = [];
    results = first.results;
    unverified_expressions = [];
    unverified_results = [];
    unchecked_settings = [];
  };
  param_types = [];
  presence = [];
}

-- The merged query and the owners of the parameters.
unfoldable pub merge_query_variants :
    List String → List TableChoice → List Query → Result MergeError (Query × Dict String)
merge_query_variants options tables [] = err no_variants
merge_query_variants options tables (first ∷ rest) =
    merge_loop (started first) 0 (first ∷ rest) >>= λ m.
    owners_of m (suc (length rest)) 0 [] options >>= λ owners.
    check_choices m tables >>= λ checked. ok (checked.query, owners)

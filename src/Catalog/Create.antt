-- ===== src/Catalog/Create.antt =====
-- CREATE TABLE: `applyExternalCreate` and `applyPhysicalCreate` of internal/engine/catalog.go.
use chgen.Base.{
  ℕ, String, Bool, ◌||◌, Option, none, some, if◌then◌else◌, str_eq, Result, ok, err, ◌>>=◌, reject,
  require,
}
use chgen.Base.Dict.{is_some, has, lookup, assign}
use chgen.Catalog.{
  Table, TableEngine, SchemaCatalogs, migrations_table_name, CatalogError, no_table_name,
  external_needs_columns, external_has_engine, external_collides, duplicate_table,
  qualified_reference, unknown_source,
}
use chgen.Catalog.Statements.{EngineExpr, TableSchema, CreateTable}
use chgen.Catalog.Columns.{parse_engine, parse_create_table}

-- strings.HasSuffix
unfoldable pub has_suffix : String → String → Bool
has_suffix String.[] suffix = str_eq String.[] suffix
has_suffix (String.◌∷◌ c s) suffix = str_eq (String.◌∷◌ c s) suffix || has_suffix s suffix

-- What stands in the clause, or else in the source.
abbrev pub inherited {ℓ κ} : {A : Type ℓ} {B : Type κ} → Option A → B → B → B
inherited none own source = source
inherited (some clause) own source = own

-- The engine of CREATE TABLE AS with an engine clause of its own.
unfoldable pub inherit_engine : Option TableEngine → EngineExpr → TableEngine
inherit_engine none clause = parse_engine clause
inherit_engine (some source) clause =
    let engine = parse_engine clause in
    if has_suffix engine.name "MergeTree"
    then record engine {
      order_by = inherited clause.order_by engine.order_by source.order_by;
      partition_by = inherited clause.partition_by engine.partition_by source.partition_by;
      primary_key = inherited clause.primary_key engine.primary_key source.primary_key;
      sample_by = inherited clause.sample_by engine.sample_by source.sample_by;
    }
    else engine

abbrev pub copied_engine : Option TableEngine → Option EngineExpr → Option TableEngine
copied_engine source none = source
copied_engine source (some clause) = some (inherit_engine source clause)

abbrev pub alias_of : Option TableSchema → Option String
alias_of none = none
alias_of (some schema) = schema.alias_table

unfoldable pub apply_external_create :
    SchemaCatalogs → String → ℕ → CreateTable → Result CatalogError SchemaCatalogs
apply_external_create catalogs path line statement =
    reject (is_some (alias_of statement.table_schema)) external_needs_columns (
      parse_create_table statement >>= λ table.
      reject (is_some statement.engine) (external_has_engine table.name) (
        reject (has catalogs.physical table.name) (external_collides table.name) (
          reject (has catalogs.external table.name) (duplicate_table table.name) (
            ok (record catalogs {
              external =
                  assign catalogs.external table.name (record table { file = path; line = line });
            })))))

-- The table of the statement: a copy of another table, or the one that its columns declare.
unfoldable pub new_table : SchemaCatalogs → String → CreateTable → Result CatalogError Table
new_table catalogs name statement = elim (alias_of statement.table_schema) [
  | none ↦ parse_create_table statement
  | some source_name ↦
      require (lookup catalogs.physical source_name) (unknown_source name source_name) (λ source.
        ok (record source { name = name; engine = copied_engine source.engine statement.engine }))
]

unfoldable pub apply_physical_create :
    SchemaCatalogs → String → ℕ → CreateTable → Result CatalogError SchemaCatalogs
apply_physical_create catalogs path line statement =
    require statement.table_name no_table_name (λ name.
      if str_eq name migrations_table_name
      then ok catalogs
      else reject (is_some statement.foreign_reference) (qualified_reference name) (
          reject (has catalogs.external name) (external_collides name) (
            if has catalogs.physical name
            then (if statement.if_not_exists then ok catalogs else err (duplicate_table name))
            else (new_table catalogs name statement >>= λ table. ok (record catalogs {
              physical =
                  assign catalogs.physical table.name (record table { file = path; line = line });
            })))))

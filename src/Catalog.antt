-- ===== src/Catalog.antt =====
-- The catalog of tables that a run of schema statements builds: `Schema`, `Table`, `TableEngine` and
-- `Column` of internal/engine/schema.go, `SchemaCatalogs` of internal/engine/catalog.go. A nil map is
-- the empty one, which the code reads alike, and a value is copied where the code shares it: no two
-- tables of a catalog hold one map, slice or engine, since CREATE TABLE AS clones them, and the
-- caller drops the catalog at the first error. The children have the statements as the SQL parser
-- gives them, the operations, and their invariant.
pub mod Statements
pub mod Columns
pub mod Create
pub mod Alter
pub mod Change
pub mod Run
pub mod Order
pub mod Sound
pub mod Renames
pub mod AddDrop
pub mod Exchanges
use chgen.Base.{ℕ, String, Bool, Option, List, []}
use chgen.Base.Dict.{Dict}
use chgen.ChType.{ChType}

pub record Column : Type 0 where
  pub name : String
  pub column_type : ChType
  pub insertable : Bool
  pub default_expr : String
  pub materialized_expr : String
  pub alias_expr : String
  pub codec : String
  pub comment : String
  pub ttl : String

pub record TableEngine : Type 0 where
  pub name : String
  pub params : List String
  pub order_by : List String
  pub partition_by : String
  pub primary_key : String
  pub sample_by : String
  pub ttl : String
  pub settings : Dict String

pub record Table : Type 0 where
  pub name : String
  pub file : String
  pub line : ℕ
  pub columns : Dict Column
  pub column_order : List String
  pub engine : Option TableEngine

pub record SchemaCatalogs : Type 0 where
  pub physical : Dict Table
  pub external : Dict Table

abbrev pub empty_catalogs : SchemaCatalogs
empty_catalogs = record { physical = []; external = [] }

abbrev pub migrations_table_name : String
migrations_table_name = "schema_migrations"

-- The errors that the operations return, each with the names that its message shows.
pub data CatalogError : Type 0 where
  no_table_name : CatalogError
  no_column_list requires_source_resolution : String → CatalogError
  column_without_name : String → CatalogError
  column_without_type : String → String → CatalogError
  bad_column_type : String → String → String → CatalogError
  duplicate_column : String → String → CatalogError
  external_needs_columns : CatalogError
  external_has_engine : String → CatalogError
  external_collides : String → CatalogError
  duplicate_table : String → CatalogError
  qualified_reference : String → CatalogError
  unknown_source : String → String → CatalogError
  targets_external : String → CatalogError
  unknown_table : String → CatalogError
  unsupported_operation system_table_reference : CatalogError
  no_name_pairs incomplete_pair qualified_name : CatalogError
  excluded_table : CatalogError
  target_exists : String → CatalogError
  needs_two_names : CatalogError
  same_name : String → CatalogError
  nil_dereference : CatalogError
  clause_without_definition : String → CatalogError
  unknown_column : String → String → CatalogError
  after_unknown_column : String → String → String → CatalogError

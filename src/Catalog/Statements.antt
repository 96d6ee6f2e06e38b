-- ===== src/Catalog/Statements.antt =====
-- The statements of a schema file, as far as the catalog reads the tree of the SQL parser. A pointer
-- of the tree is an option. An expression is the text that `catalogExprSQL`, `engineExprText` or
-- `engineSortKeyTerms` of internal/engine/schema.go prints for it, the type of a column is what
-- `parseCHType` makes of it, and `foreign_reference` is the error of `checkQualifiedReferences`.
use chgen.Base.{ℕ, String, Bool, Option, List, Result}
use chgen.ChType.{ChType}

pub record ColumnDef : Type 0 where
  pub ident : Option String
  pub dot_ident : Option String
  pub column_type : Option (Result String ChType)
  pub default_expr : Option String
  pub materialized_expr : Option String
  pub alias_expr : Option String
  pub codec : Option String
  pub comment : Option String
  pub ttl : Option String

pub record EngineExpr : Type 0 where
  pub name : String
  pub params : List String
  pub order_by : Option (List String)
  pub partition_by : Option String
  pub primary_key : Option String
  pub sample_by : Option String
  pub ttl : Option String
  pub settings : List (String × String)

-- A column, or an index, constraint, projection or other clause.
pub data TableElement : Type 0 where
  column : ColumnDef → TableElement
  other_clause : TableElement

pub record TableSchema : Type 0 where
  pub alias_table : Option String
  pub table_function : Option String
  pub columns : List TableElement

pub record CreateTable : Type 0 where
  pub table_name : Option String
  pub if_not_exists : Bool
  pub table_schema : Option TableSchema
  pub engine : Option EngineExpr
  pub foreign_reference : Option String

pub data AlterClause : Type 0 where
  add_column :
      (definition : Option ColumnDef)
      → (after : Option String) → (if_not_exists : Bool) → AlterClause
  modify_column : (definition : Option ColumnDef) → (if_exists : Bool) → AlterClause
  drop_column : (column_name : Option String) → (if_exists : Bool) → AlterClause
  remove_ttl : AlterClause
  modify_setting : List (String × String) → AlterClause
  reset_setting : List String → AlterClause
  add_projection materialize_projection drop_projection clear_projection : AlterClause
  add_index materialize_index drop_index clear_index : AlterClause
  other_alter : AlterClause

pub record AlterTable : Type 0 where
  pub table_name : Option String
  pub clauses : List AlterClause

pub data DropTarget : Type 0 where
  view table other_target : DropTarget

pub record DropStmt : Type 0 where
  pub object_name : Option String
  pub target : DropTarget
  pub if_exists : Bool

pub record TablePair : Type 0 where
  pub old_table : Option String
  pub old_database : Option String
  pub new_table : Option String
  pub new_database : Option String

pub record RenameStmt : Type 0 where
  pub of_tables : Bool
  pub pairs : List TablePair

-- `external` is a create statement under an external marker, `exchange` a RENAME statement that
-- stands for EXCHANGE TABLES.
pub data Action : Type 0 where
  create_table : (external : Bool) → CreateTable → Action
  alter_table : AlterTable → Action
  drop_table : DropStmt → Action
  rename_table : (exchange : Bool) → RenameStmt → Action
  create_view create_materialized_view insert_stmt : Action
  other_statement : Action

-- `system_reference`: the walk over the statement finds a table of the database `system`.
pub record Statement : Type 0 where
  pub line : ℕ
  pub system_reference : Bool
  pub action : Action

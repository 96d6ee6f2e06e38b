-- ===== src/Tests/SchemaData.antt =====
-- A schema file with every kind of statement, and the catalogs it passes through.
use chgen.Base.{ℕ, String, true, false, none, some, List, [], ◌∷◌, ok}
use chgen.ChType.{named}
use chgen.Catalog.{Column, Table, SchemaCatalogs}
use chgen.Catalog.Statements.{
  ColumnDef, column, other_clause, CreateTable, AlterTable, add_column, drop_column, add_index,
  table, RenameStmt, Action, Statement, create_table, alter_table, drop_table, rename_table,
  create_view,
}

abbrev pub definition : String → ColumnDef
definition name = record {
  ident = some name;
  dot_ident = none;
  column_type = some (ok (named "String"));
  default_expr = none;
  materialized_expr = none;
  alias_expr = none;
  codec = none;
  comment = none;
  ttl = none;
}

abbrev pub stored : String → Column
stored name = record {
  name = name;
  column_type = named "String";
  insertable = true;
  default_expr = "";
  materialized_expr = "";
  alias_expr = "";
  codec = "";
  comment = "";
  ttl = "";
}

abbrev pub create : String → CreateTable
create name = record {
  table_name = some name;
  if_not_exists = false;
  table_schema = some (record {
    alias_table = none;
    table_function = none;
    columns = column (definition "id") ∷ other_clause ∷ column (definition "body") ∷ [];
  });
  engine = none;
  foreign_reference = none;
}

abbrev pub create_copy : CreateTable
create_copy = record (create "copy") {
  table_schema = some (record { alias_table = some "log"; table_function = none; columns = [] });
}

abbrev pub alter : String → AlterTable
alter name = record {
  table_name = some name;
  clauses =
      add_column (some (definition "at")) (some "id") false
      ∷ add_index
      ∷ drop_column (some "body") false
      ∷ [];
}

abbrev pub rename : String → String → RenameStmt
rename a b = record {
  of_tables = true;
  pairs =
      record { old_table = some a; old_database = none; new_table = some b; new_database = none }
      ∷ [];
}

abbrev pub created : String → Table
created name = record {
  name = name;
  file = "schema.sql";
  line = 1;
  columns = ("id", stored "id") ∷ ("body", stored "body") ∷ [];
  column_order = "id" ∷ "body" ∷ [];
  engine = none;
}

abbrev pub at_line : ℕ → Action → Statement
at_line n a = record { line = n; system_reference = false; action = a }

abbrev pub two_creates : List Statement
two_creates =
    at_line 1 (create_table false (create "log"))
    ∷ at_line 1 (create_table true (create "row"))
    ∷ at_line 1 (create_table false create_copy)
    ∷ []

abbrev pub every_kind : List Statement
every_kind =
    at_line 1 (create_table false (create "log"))
    ∷ at_line 1 (create_table true (create "row"))
    ∷ at_line 1 (create_table false create_copy)
    ∷ at_line 2 create_view
    ∷ at_line 3 (alter_table (alter "log"))
    ∷ at_line 4 (rename_table true (rename "log" "copy"))
    ∷ at_line 5 (rename_table false (rename "log" "old"))
    ∷ at_line 6
        (drop_table (record { object_name = some "old"; target = table; if_exists = false }))
    ∷ []

abbrev pub after_creates : SchemaCatalogs
after_creates = record {
  physical = ("log", created "log") ∷ ("copy", created "copy") ∷ [];
  external = ("row", created "row") ∷ [];
}

abbrev pub at_the_end : SchemaCatalogs
at_the_end = record {
  physical =
      (
        "copy",
        record (created "copy") {
          columns = ("id", stored "id") ∷ ("at", stored "at") ∷ [];
          column_order = "id" ∷ "at" ∷ [];
        },
      )
      ∷ [];
  external = ("row", created "row") ∷ [];
}

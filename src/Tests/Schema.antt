-- ===== src/Tests/Schema.antt =====
-- The properties of the catalog, at a schema file with every kind of statement.
use chgen.Base.{
  ◌≡◌, refl, String, true, false, some, [], ◌∷◌, take, drop, ◌++◌, ok, err, arith, List,
}
use chgen.Base.Dict.{Dict, has, lookup, assign, delete}
use chgen.Catalog.{Table, SchemaCatalogs, empty_catalogs, system_table_reference}
use chgen.Catalog.Statements.{
  add_column, drop_column, table, rename_table, alter_table, drop_table, Statement, create_view,
}
use chgen.Catalog.Columns.{parse_column_def, parse_create_table, parse_columns, append_column}
use chgen.Catalog.Create.{apply_external_create, apply_physical_create, new_table}
use chgen.Catalog.Alter.{
  apply_alter_table, alter_clauses, place_column, index_of, insert_after, remove_name, alter_clause,
  apply_catalog_alter,
}
use chgen.Catalog.Change.{
  rename_one, exchange_names, apply_catalog_exchange, exchanged_table, apply_catalog_rename,
  rename_pairs, rename_pair, apply_catalog_drop, drop_target, drop_from,
}
use chgen.Catalog.Run.{apply_action, apply_statements, apply_sources, parse_schema_catalogs}
use chgen.Catalog.Order.{insert_after-eq}
use chgen.Catalog.Sound.{IsSound, empty-IsSound}
use chgen.Catalog.Sound.Statements.{apply_statements-IsSound, parse_schema_catalogs-IsSound}
use chgen.Catalog.Renames.{rename_one-back}
use chgen.Catalog.Exchanges.{exchange_names-twice}
use chgen.Catalog.AddDrop.{add_column-drop_column}
use chgen.Tests.SchemaData.{
  definition, stored, alter, created, two_creates, every_kind, after_creates, at_the_end, at_line,
  rename,
}

creates_run : apply_statements empty_catalogs "schema.sql" two_creates ≡ ok after_creates
unfolding apply_statements apply_action apply_external_create apply_physical_create new_table
    parse_create_table parse_columns parse_column_def append_column lookup assign
creates_run = refl

every_kind_run : apply_statements empty_catalogs "schema.sql" every_kind ≡ ok at_the_end
unfolding apply_statements apply_action apply_external_create apply_physical_create new_table
    parse_create_table parse_columns parse_column_def append_column lookup assign delete
    apply_catalog_alter apply_alter_table alter_clauses alter_clause place_column index_of
    insert_after remove_name apply_catalog_exchange exchange_names exchanged_table
    apply_catalog_rename rename_pairs rename_pair rename_one apply_catalog_drop drop_target
    drop_from
every_kind_run = refl

creates-IsSound : IsSound after_creates
creates-IsSound =
    apply_statements-IsSound empty_catalogs after_creates "schema.sql" two_creates empty-IsSound
      creates_run

-- A statement that names a system table stops the load.
system_statement :
    apply_statements empty_catalogs "schema.sql"
      (record { line = 1; system_reference = true; action = create_view } ∷ [])
    ≡ err system_table_reference
unfolding apply_statements
system_statement = refl

apply_statements-IsSound_example : IsSound at_the_end
apply_statements-IsSound_example =
    apply_statements-IsSound empty_catalogs at_the_end "schema.sql" every_kind empty-IsSound
      every_kind_run

abbrev log_as_old : Dict Table
log_as_old = ("copy", created "copy") ∷ ("old", record (created "log") { name = "old" }) ∷ []

rename_run : rename_one after_creates.external after_creates.physical "log" "old" ≡ ok log_as_old
unfolding rename_one lookup assign delete
rename_run = refl

rename_one-back_example :
    (back : Dict Table) × (rename_one after_creates.external log_as_old "old" "log" ≡ ok back)
    × ((k : String) → lookup back k ≡ lookup after_creates.physical k)
rename_one-back_example =
    rename_one-back after_creates.external after_creates.physical log_as_old "log" "old"
      (creates-IsSound.physical) rename_run

abbrev exchanged : SchemaCatalogs
exchanged = record after_creates {
  physical =
      ("log", record (created "copy") { name = "log" })
      ∷ ("copy", record (created "log") { name = "copy" })
      ∷ [];
}

exchange_run : exchange_names after_creates "log" "copy" ≡ ok exchanged
unfolding exchange_names exchanged_table lookup assign
exchange_run = refl

exchange_names-twice_example :
    (back : SchemaCatalogs) × (exchange_names exchanged "log" "copy" ≡ ok back)
    × ((k : String) → lookup back.physical k ≡ lookup after_creates.physical k)
    × (back.external ≡ after_creates.external)
exchange_names-twice_example =
    exchange_names-twice after_creates exchanged "log" "copy" creates-IsSound exchange_run

abbrev altered : SchemaCatalogs
altered = record after_creates {
  physical =
      (
        "log",
        record (created "log") {
          columns = ("id", stored "id") ∷ ("at", stored "at") ∷ [];
          column_order = "id" ∷ "at" ∷ [];
        },
      )
      ∷ ("copy", created "copy")
      ∷ [];
}

alter_run : apply_catalog_alter after_creates (alter "log") ≡ ok altered
unfolding apply_catalog_alter apply_alter_table alter_clauses alter_clause parse_column_def
    place_column index_of insert_after remove_name lookup assign delete
alter_run = refl

insert_after-eq_example :
    insert_after ("id" ∷ "body" ∷ []) 0 "at"
    ≡ take 1 ("id" ∷ "body" ∷ []) ++ ("at" ∷ drop 1 ("id" ∷ "body" ∷ []))
insert_after-eq_example = insert_after-eq ("id" ∷ "body" ∷ []) 0 "at" (omega arith)

abbrev grown_log : Table
grown_log = record (created "log") {
  columns = ("id", stored "id") ∷ ("body", stored "body") ∷ ("at", stored "at") ∷ [];
  column_order = "id" ∷ "at" ∷ "body" ∷ [];
}

definition_run : parse_column_def "log" (definition "at") ≡ ok (stored "at")
unfolding parse_column_def
definition_run = refl

at_absent : has (created "log").columns "at" ≡ false
unfolding lookup
at_absent = refl

grown_run :
    alter_clause "log" (created "log") (add_column (some (definition "at")) (some "id") false)
    ≡ ok grown_log
unfolding alter_clause parse_column_def place_column index_of insert_after lookup assign
grown_run = refl

add_column-drop_column_example :
    (back : Table) × (alter_clause "log" grown_log (drop_column (some "at") true) ≡ ok back)
    × (back.column_order ≡ "id" ∷ "body" ∷ [])
    × ((k : String) → lookup back.columns k ≡ lookup (created "log").columns k)
unfolding lookup
add_column-drop_column_example =
    add_column-drop_column "log" (created "log") grown_log (definition "at") (stored "at")
      (some "id") false true (creates-IsSound.physical.tables "log" (created "log") refl).1
      definition_run at_absent grown_run

abbrev more : List Statement
more =
    at_line 1 (alter_table (alter "log"))
    ∷ at_line 2 (rename_table true (rename "log" "copy"))
    ∷ at_line 3 (rename_table false (rename "log" "old"))
    ∷ at_line 4
        (drop_table (record { object_name = some "old"; target = table; if_exists = false }))
    ∷ []

two_files :
    parse_schema_catalogs (("schema.sql", two_creates) ∷ ("more.sql", more) ∷ []) ≡ ok at_the_end
unfolding parse_schema_catalogs apply_sources apply_statements apply_action apply_external_create
    apply_physical_create new_table parse_create_table parse_columns parse_column_def append_column
    lookup assign delete apply_catalog_alter apply_alter_table alter_clauses alter_clause
    place_column index_of insert_after remove_name apply_catalog_exchange exchange_names
    exchanged_table apply_catalog_rename rename_pairs rename_pair rename_one apply_catalog_drop
    drop_target drop_from
two_files = refl

parse_schema_catalogs-IsSound_example : IsSound at_the_end
parse_schema_catalogs-IsSound_example =
    parse_schema_catalogs-IsSound at_the_end (("schema.sql", two_creates) ∷ ("more.sql", more) ∷ [])
      two_files

-- ===== src/Catalog/Sound/Statements.antt =====
-- Any run of statements keeps the catalog sound.
use chgen.Base.{
  ◌≡◌, ℕ, String, true, false, List, [], ◌∷◌, ok, AllOk, AllOk-bind, AllOk-ok, AllOk-reject, reject,
}
use chgen.Catalog.{SchemaCatalogs, empty_catalogs}
use chgen.Catalog.Statements.{
  Action, create_table, alter_table, drop_table, rename_table, create_view,
  create_materialized_view, insert_stmt, other_statement, Statement,
}
use chgen.Catalog.Run.{apply_action, apply_statements, apply_sources, parse_schema_catalogs}
use chgen.Catalog.Sound.{IsSound, empty-IsSound}
use chgen.Catalog.Sound.Creates.{apply_external_create-IsSound, apply_physical_create-IsSound}
use chgen.Catalog.Sound.Changes.{
  apply_catalog_alter-IsSound, apply_catalog_drop-IsSound, apply_catalog_rename-IsSound,
  apply_catalog_exchange-IsSound,
}

pub apply_action-IsSound :
    (catalogs : SchemaCatalogs) (path : String) (line : ℕ) (action : Action)
    → IsSound catalogs
    → AllOk IsSound (apply_action catalogs path line action)
unfolding apply_action
apply_action-IsSound catalogs path line (create_table true c) s =
    apply_external_create-IsSound catalogs path line c s
apply_action-IsSound catalogs path line (create_table false c) s =
    apply_physical_create-IsSound catalogs path line c s
apply_action-IsSound catalogs path line (alter_table a) s = apply_catalog_alter-IsSound catalogs a s
apply_action-IsSound catalogs path line (drop_table d) s = apply_catalog_drop-IsSound catalogs d s
apply_action-IsSound catalogs path line (rename_table true r) s =
    apply_catalog_exchange-IsSound catalogs r s
apply_action-IsSound catalogs path line (rename_table false r) s =
    apply_catalog_rename-IsSound catalogs r s
apply_action-IsSound catalogs path line create_view s = s
apply_action-IsSound catalogs path line create_materialized_view s = s
apply_action-IsSound catalogs path line insert_stmt s = s
apply_action-IsSound catalogs path line other_statement s = tt

statements-IsSound :
    (catalogs : SchemaCatalogs) (path : String) (statements : List Statement)
    → IsSound catalogs
    → AllOk IsSound (apply_statements catalogs path statements)
unfolding apply_statements
statements-IsSound catalogs path [] s = s
statements-IsSound catalogs path (st ∷ rest) s =
    let first = reject st.system_reference _ (apply_action catalogs path st.line st.action) in
    AllOk-bind IsSound first _ (λ changed e. statements-IsSound changed path rest (
      AllOk-ok IsSound first
        (AllOk-reject IsSound st.system_reference _ _
          (λ _. apply_action-IsSound catalogs path st.line st.action s))
        e))

-- Every statement file that is accepted takes a sound catalog to a sound one: each table and each
-- column stands under its name, the column order of a table names each of its columns exactly once
-- and nothing else, no name is that of a physical and of an external table, and the table of the
-- migration tool is no physical table.
pub apply_statements-IsSound :
    (catalogs result : SchemaCatalogs) (path : String) (statements : List Statement)
    → IsSound catalogs
    → apply_statements catalogs path statements ≡ ok result
    → IsSound result
apply_statements-IsSound catalogs result path statements s h =
    AllOk-ok IsSound (apply_statements catalogs path statements)
      (statements-IsSound catalogs path statements s) h

sources-IsSound :
    (catalogs : SchemaCatalogs) (sources : List (String × List Statement))
    → IsSound catalogs
    → AllOk IsSound (apply_sources catalogs sources)
unfolding apply_sources
sources-IsSound catalogs [] s = s
sources-IsSound catalogs ((path, statements) ∷ rest) s =
    AllOk-bind IsSound (apply_statements catalogs path statements) _ (λ changed e.
      sources-IsSound changed rest (apply_statements-IsSound catalogs changed path statements s e))

-- The catalogs that a list of schema files gives, if all are accepted, are sound: each table and each
-- column stands under its name, the column order of a table names each of its columns exactly once
-- and nothing else, no name is that of a physical and of an external table, and the table of the
-- migration tool is no physical table.
pub parse_schema_catalogs-IsSound :
    (result : SchemaCatalogs) (sources : List (String × List Statement))
    → parse_schema_catalogs sources ≡ ok result
    → IsSound result
unfolding parse_schema_catalogs
parse_schema_catalogs-IsSound result sources h =
    AllOk-ok IsSound (apply_sources empty_catalogs sources)
      (sources-IsSound empty_catalogs sources empty-IsSound) h

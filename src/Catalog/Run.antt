-- ===== src/Catalog/Run.antt =====
-- The statements of a schema file one after the other: the loop of `applySchemaSource` of
-- internal/engine/catalog.go, and the loop over the files of `ParseSchemaCatalogs`.
use chgen.Base.{ℕ, String, true, false, List, [], ◌∷◌, Result, ok, err, ◌>>=◌, reject}
use chgen.Catalog.{
  SchemaCatalogs, empty_catalogs, CatalogError, unsupported_operation, system_table_reference,
}
use chgen.Catalog.Statements.{
  Action, create_table, alter_table, drop_table, rename_table, create_view,
  create_materialized_view, insert_stmt, other_statement, Statement,
}
use chgen.Catalog.Create.{apply_external_create, apply_physical_create}
use chgen.Catalog.Alter.{apply_catalog_alter}
use chgen.Catalog.Change.{apply_catalog_drop, apply_catalog_rename, apply_catalog_exchange}

unfoldable pub apply_action :
    SchemaCatalogs → String → ℕ → Action → Result CatalogError SchemaCatalogs
apply_action catalogs path line (create_table true s) = apply_external_create catalogs path line s
apply_action catalogs path line (create_table false s) = apply_physical_create catalogs path line s
apply_action catalogs path line (alter_table s) = apply_catalog_alter catalogs s
apply_action catalogs path line (drop_table s) = apply_catalog_drop catalogs s
apply_action catalogs path line (rename_table true s) = apply_catalog_exchange catalogs s
apply_action catalogs path line (rename_table false s) = apply_catalog_rename catalogs s
apply_action catalogs path line create_view = ok catalogs
apply_action catalogs path line create_materialized_view = ok catalogs
apply_action catalogs path line insert_stmt = ok catalogs
apply_action catalogs path line other_statement = err unsupported_operation

unfoldable pub apply_statements :
    SchemaCatalogs → String → List Statement → Result CatalogError SchemaCatalogs
apply_statements catalogs path [] = ok catalogs
apply_statements catalogs path (s ∷ rest) =
    reject s.system_reference system_table_reference (apply_action catalogs path s.line s.action)
    >>= λ changed. apply_statements changed path rest

-- The files of `ParseSchemaCatalogs`, each with its statements, from the empty catalogs.
unfoldable pub apply_sources :
    SchemaCatalogs → List (String × List Statement) → Result CatalogError SchemaCatalogs
apply_sources catalogs [] = ok catalogs
apply_sources catalogs ((path, statements) ∷ rest) =
    apply_statements catalogs path statements >>= λ changed. apply_sources changed rest

unfoldable pub parse_schema_catalogs :
    List (String × List Statement) → Result CatalogError SchemaCatalogs
parse_schema_catalogs sources = apply_sources empty_catalogs sources

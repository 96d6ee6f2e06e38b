-- ===== src/Catalog/Change.antt =====
-- DROP, RENAME TABLE and EXCHANGE TABLES: `applyCatalogDrop`, `applyCatalogRename` of
-- internal/engine/catalog.go, `applyCatalogExchange` of internal/engine/catalog_exchange.go.
use chgen.Base.{
  String, Bool, true, false, not, ◌||◌, List, [], ◌∷◌, if◌then◌else◌, str_eq, Result, ok, err,
  ◌>>=◌, reject, require,
}
use chgen.Base.Dict.{Dict, is_some, has, lookup, assign, delete}
use chgen.Catalog.{
  Table, SchemaCatalogs, migrations_table_name, CatalogError, no_table_name, targets_external,
  unknown_table, unsupported_operation, no_name_pairs, incomplete_pair, qualified_name,
  excluded_table, target_exists, needs_two_names, same_name, nil_dereference,
}
use chgen.Catalog.Statements.{
  DropTarget, view, table, other_target, DropStmt, TablePair, RenameStmt,
}

unfoldable pub drop_from : SchemaCatalogs → String → Bool → Result CatalogError SchemaCatalogs
drop_from catalogs name if_exists =
    if str_eq name migrations_table_name
    then ok catalogs
    else reject (has catalogs.external name) (targets_external name) (
        if has catalogs.physical name
        then ok (record catalogs { physical = delete catalogs.physical name })
        else (if if_exists then ok catalogs else err (unknown_table name)))

unfoldable pub drop_target :
    SchemaCatalogs → DropTarget → String → Bool → Result CatalogError SchemaCatalogs
drop_target catalogs view name if_exists = ok catalogs
drop_target catalogs table name if_exists = drop_from catalogs name if_exists
drop_target catalogs other_target name if_exists = err unsupported_operation

unfoldable pub apply_catalog_drop : SchemaCatalogs → DropStmt → Result CatalogError SchemaCatalogs
apply_catalog_drop catalogs statement =
    require statement.object_name no_table_name
      (λ name. drop_target catalogs statement.target name statement.if_exists)

-- The body of the loop over the pairs, with the names that it reads.
unfoldable pub rename_one :
    Dict Table → Dict Table → String → String → Result CatalogError (Dict Table)
rename_one external tables old_name new_name =
    reject (str_eq old_name migrations_table_name || str_eq new_name migrations_table_name)
      excluded_table
      (reject (has external old_name) (targets_external old_name) (
        reject (has external new_name) (targets_external new_name) (
          require (lookup tables old_name) (unknown_table old_name) (λ t.
            reject (has tables new_name) (target_exists new_name)
              (ok (assign (delete tables old_name) new_name (record t { name = new_name })))))))

unfoldable pub rename_pair : Dict Table → Dict Table → TablePair → Result CatalogError (Dict Table)
rename_pair external tables pair = require pair.old_table incomplete_pair (λ old_name.
    require pair.new_table incomplete_pair (λ new_name.
      reject (is_some pair.old_database || is_some pair.new_database) qualified_name
        (rename_one external tables old_name new_name)))

unfoldable pub rename_pairs :
    Dict Table → Dict Table → List TablePair → Result CatalogError (Dict Table)
rename_pairs external tables [] = ok tables
rename_pairs external tables (pair ∷ rest) =
    rename_pair external tables pair >>= λ renamed. rename_pairs external renamed rest

abbrev pub is_empty {ℓ} : {A : Type ℓ} → List A → Bool
is_empty [] = true
is_empty (x ∷ xs) = false

unfoldable pub apply_catalog_rename :
    SchemaCatalogs → RenameStmt → Result CatalogError SchemaCatalogs
apply_catalog_rename catalogs statement = reject (not statement.of_tables) unsupported_operation (
    reject (is_empty statement.pairs) no_name_pairs (
      rename_pairs catalogs.external catalogs.physical statement.pairs >>= λ tables.
      ok (record catalogs { physical = tables })))

-- The check of one of the two names of an exchange, which finds its table.
unfoldable pub exchanged_table : SchemaCatalogs → String → Result CatalogError Table
exchanged_table catalogs name = reject (str_eq name migrations_table_name) excluded_table (
    reject (has catalogs.external name) (targets_external name)
      (require (lookup catalogs.physical name) (unknown_table name) (λ t. ok t)))

unfoldable pub exchange_names :
    SchemaCatalogs → String → String → Result CatalogError SchemaCatalogs
exchange_names catalogs a b = reject (str_eq a b) (same_name a) (
    exchanged_table catalogs a >>= λ left. exchanged_table catalogs b >>= λ right.
    ok (record catalogs {
      physical =
          assign (assign catalogs.physical a (record right { name = a })) b
            (record left { name = b });
    }))

-- A missing name is dereferenced.
unfoldable pub apply_catalog_exchange :
    SchemaCatalogs → RenameStmt → Result CatalogError SchemaCatalogs
apply_catalog_exchange catalogs statement = elim statement.pairs [
  | [] ↦ err needs_two_names
  | pair ∷ more ↦ reject (not (is_empty more)) needs_two_names (
      reject (is_some pair.old_database || is_some pair.new_database) qualified_name (
        require pair.old_table nil_dereference
          (λ a. require pair.new_table nil_dereference (λ b. exchange_names catalogs a b))))
]

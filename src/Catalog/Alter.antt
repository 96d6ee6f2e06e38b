-- ===== src/Catalog/Alter.antt =====
-- ALTER TABLE: `applyCatalogAlter` of internal/engine/catalog.go, `classifyCatalogAlter` and
-- `applyAlterTable` of internal/engine/schema.go.
use chgen.Base.{
  ℕ, suc, ◌-◌, String, Bool, true, false, ◌||◌, Option, none, some, List, [], ◌∷◌, ◌++◌, any, take,
  drop, set, length, if◌then◌else◌, str_eq, Result, ok, err, ◌>>=◌, reject, require,
}
use chgen.Base.Dict.{Dict, is_some, has, lookup, assign, delete}
use chgen.Catalog.{
  Column, TableEngine, Table, SchemaCatalogs, migrations_table_name, CatalogError, no_table_name,
  duplicate_column, targets_external, unknown_table, unsupported_operation,
  clause_without_definition, unknown_column, after_unknown_column,
}
use chgen.Catalog.Statements.{
  ColumnDef, AlterClause, AlterTable, add_column, modify_column, drop_column, remove_ttl,
  modify_setting, reset_setting, add_projection, materialize_projection, drop_projection,
  clear_projection, add_index, materialize_index, drop_index, clear_index, other_alter,
}
use chgen.Catalog.Columns.{parse_column_def, set_all}

abbrev pub map_suc : Option ℕ → Option ℕ
map_suc none = none
map_suc (some i) = some (suc i)

-- The first index of a name.
unfoldable pub index_of : List String → String → Option ℕ
index_of [] name = none
index_of (x ∷ xs) name =
    let later = map_suc (index_of xs name) in if str_eq x name then some 0 else later

-- `copy(xs[to:], xs[from:])`, where the parts overlap.
unfoldable pub copy_within : List String → ℕ → ℕ → List String
copy_within xs to from = take to xs ++ take (length xs - to) (drop from xs)

-- `append(order, "")`, the shift of what is behind `index` by one place, and the write of the gap.
unfoldable pub insert_after : List String → ℕ → String → List String
unfolding copy_within
insert_after order index name =
    let grown = order ++ ("" ∷ []) in
    let shifted = copy_within grown (suc (suc index)) (suc index) in set shifted (suc index) name

-- `append(order[:index], order[index+1:]...)` at the index, if there is one.
abbrev pub cut_at : List String → Option ℕ → List String
cut_at order none = order
cut_at order (some index) = take index order ++ drop (suc index) order

unfoldable pub remove_name : List String → String → List String
remove_name order name = cut_at order (index_of order name)

abbrev pub on_engine : (TableEngine → TableEngine) → Table → Table
on_engine f t = record t { engine = elim t.engine [ none ↦ none | some e ↦ some (f e) ] }

unfoldable pub delete_all : Dict String → List String → Dict String
delete_all m [] = m
delete_all m (k ∷ rest) = delete_all (delete m k) rest

unfoldable pub place_column : String → Table → Column → Option String → Result CatalogError Table
place_column table_name t c none = ok (record t {
  columns = assign t.columns c.name c;
  column_order = t.column_order ++ (c.name ∷ []);
})
place_column table_name t c (some after) =
    require (index_of t.column_order after) (after_unknown_column table_name c.name after) (λ index.
      ok (record t {
        columns = assign t.columns c.name c;
        column_order = insert_after t.column_order index c.name;
      }))

abbrev pub kept {ℓ κ} : {A : Type ℓ} {B : Type κ} → Option A → B → B → B
kept none own previous = previous
kept (some clause) own previous = own

-- MODIFY COLUMN keeps the modifiers that it omits.
unfoldable pub modified : ColumnDef → Column → Column → Column
modified def c previous =
    let keeps_default =
      is_some def.default_expr || (is_some def.materialized_expr || is_some def.alias_expr) in
    record c {
      default_expr = if keeps_default then c.default_expr else previous.default_expr;
      materialized_expr = if keeps_default then c.materialized_expr else previous.materialized_expr;
      alias_expr = if keeps_default then c.alias_expr else previous.alias_expr;
      insertable = if keeps_default then c.insertable else previous.insertable;
      codec = kept def.codec c.codec previous.codec;
      comment = kept def.comment c.comment previous.comment;
      ttl = kept def.ttl c.ttl previous.ttl;
    }

-- `if exists` or `if not exists` passes over the clause, and else it is an error.
abbrev pub passed_over : Bool → CatalogError → Table → Result CatalogError Table
passed_over true failure t = ok t
passed_over false failure t = err failure

-- One clause.
unfoldable pub alter_clause : String → Table → AlterClause → Result CatalogError Table
alter_clause table_name t remove_ttl = ok (on_engine (λ e. record e { ttl = "" }) t)
alter_clause table_name t (modify_setting settings) =
    ok (on_engine (λ e. record e { settings = set_all e.settings settings }) t)
alter_clause table_name t (reset_setting names) =
    ok (on_engine (λ e. record e { settings = delete_all e.settings names }) t)
alter_clause table_name t (add_column definition after if_not_exists) =
    require definition (clause_without_definition table_name) (λ def.
      parse_column_def table_name def >>= λ c.
      if has t.columns c.name
      then passed_over if_not_exists (duplicate_column table_name c.name) t
      else place_column table_name t c after)
alter_clause table_name t (modify_column definition if_exists) =
    require definition (clause_without_definition table_name) (λ def.
      parse_column_def table_name def >>= λ c. elim (lookup t.columns c.name) [
        | none ↦ passed_over if_exists (unknown_column table_name c.name) t
        | some previous ↦
            ok (record t { columns = assign t.columns c.name (modified def c previous) })
      ])
alter_clause table_name t (drop_column column_name if_exists) =
    require column_name (clause_without_definition table_name) (λ name.
      if has t.columns name
      then ok (record t {
        columns = delete t.columns name;
        column_order = remove_name t.column_order name;
      })
      else passed_over if_exists (unknown_column table_name name) t)
alter_clause table_name t other_alter = err unsupported_operation
alter_clause table_name t add_projection = ok t
alter_clause table_name t materialize_projection = ok t
alter_clause table_name t drop_projection = ok t
alter_clause table_name t clear_projection = ok t
alter_clause table_name t add_index = ok t
alter_clause table_name t materialize_index = ok t
alter_clause table_name t drop_index = ok t
alter_clause table_name t clear_index = ok t

unfoldable pub alter_clauses : String → Table → List AlterClause → Result CatalogError Table
alter_clauses table_name t [] = ok t
alter_clauses table_name t (c ∷ rest) =
    alter_clause table_name t c >>= λ altered. alter_clauses table_name altered rest

unfoldable pub apply_alter_table :
    Dict Table → String → List AlterClause → Result CatalogError (Dict Table)
apply_alter_table tables table_name clauses =
    require (lookup tables table_name) (unknown_table table_name)
      (λ t. alter_clauses table_name t clauses >>= λ altered. ok (assign tables table_name altered))

-- `classifyCatalogAlter(clause) == catalogAlterReject`
abbrev pub is_rejected : AlterClause → Bool
is_rejected other_alter = true
is_rejected _ = false

unfoldable pub apply_catalog_alter :
    SchemaCatalogs → AlterTable → Result CatalogError SchemaCatalogs
apply_catalog_alter catalogs statement = require statement.table_name no_table_name (λ name.
    if str_eq name migrations_table_name
    then ok catalogs
    else reject (has catalogs.external name) (targets_external name) (
        reject (any is_rejected statement.clauses) unsupported_operation (
          apply_alter_table catalogs.physical name statement.clauses >>= λ tables.
          ok (record catalogs { physical = tables }))))

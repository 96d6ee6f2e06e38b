-- ===== src/Catalog/Sound/Tables.antt =====
-- CREATE TABLE and the clauses of ALTER TABLE make sound tables.
use chgen.Base.{
  ◌≡◌, refl, sym, ◌∙◌, ap, subst, ◌+◌, String, Bool, true, false, Option, none, some, List, [], ◌∷◌,
  ◌++◌, arith, Result, ok, AllOk, AllOk-if, AllOk-reject, AllOk-require, AllOk-bind, AllOk-ok,
}
use chgen.Base.Dict.{is_some, has, lookup, assign}
use chgen.Catalog.{Column, Table, CatalogError, duplicate_column, unknown_column}
use chgen.Catalog.Statements.{
  ColumnDef, TableElement, column, other_clause, CreateTable, AlterClause, add_column,
  modify_column, drop_column, remove_ttl, modify_setting, reset_setting, add_projection,
  materialize_projection, drop_projection, clear_projection, add_index, materialize_index,
  drop_index, clear_index, other_alter,
}
use chgen.Catalog.Columns.{
  parse_column_def, append_column, parse_columns, empty_table, parse_create_table,
}
use chgen.Catalog.Alter.{index_of, place_column, modified, passed_over, alter_clause, alter_clauses}
use chgen.Catalog.Order.{
  count, one_if, count-append, count-insert_after, count-remove_name, index_of-lt-length,
}
use chgen.Catalog.Sound.{TableSound, ColumnsSound-add, ColumnsSound-update, ColumnsSound-remove}

-- A sound table of that name.
abbrev pub NamedSound : String → Table → Type 0
NamedSound name t = (t.name ≡ name) × TableSound t

count-last :
    (order : List String) (name k : String)
    → count k (order ++ (name ∷ [])) ≡ count k order + one_if name k
count-last order name k = count-append k order (name ∷ []) ∙ (unfold count in ground arith)

append_column-NamedSound :
    (t : Table) (c : Column) → TableSound t → AllOk (NamedSound t.name) (append_column t c)
unfolding append_column
append_column-NamedSound t c s =
    AllOk-reject (NamedSound t.name) (has t.columns c.name) _ _ (λ absent. (
      refl,
      ColumnsSound-add t.columns t.column_order _ c s absent (count-last t.column_order c.name),
    ))

parse_columns-NamedSound :
    (t : Table) (elements : List TableElement) (name : String)
    → NamedSound name t
    → AllOk (NamedSound name) (parse_columns t elements)
unfolding parse_columns
parse_columns-NamedSound t [] name s = s
parse_columns-NamedSound t (other_clause ∷ rest) name s = parse_columns-NamedSound t rest name s
parse_columns-NamedSound t (column def ∷ rest) name s =
    AllOk-bind (NamedSound name) (parse_column_def t.name def) _ (λ c e.
      AllOk-bind (NamedSound name) (append_column t c) _ (λ grown e'.
        let g =
          AllOk-ok (NamedSound t.name) (append_column t c) (append_column-NamedSound t c s.1) e' in
        parse_columns-NamedSound grown rest name (g.0 ∙ s.0, g.1)))

empty_table-NamedSound : (name : String) → NamedSound name (empty_table name)
unfolding lookup count
empty_table-NamedSound name = (refl, record { keyed = λ k c h. cc; ordered = λ k. refl })

-- The table that a column list declares.
pub parse_create_table-NamedSound :
    (statement : CreateTable) (name : String)
    → statement.table_name ≡ some name
    → AllOk (NamedSound name) (parse_create_table statement)
unfolding parse_create_table
parse_create_table-NamedSound statement name named =
    AllOk-require (NamedSound name) statement.table_name _ _ (λ own e.
      AllOk-require (NamedSound name) statement.table_schema _ _ (λ schema e'.
        AllOk-reject (NamedSound name) (is_some schema.alias_table) _ _ (λ h.
          AllOk-reject (NamedSound name) (is_some schema.table_function) _ _ (λ h'.
            AllOk-bind (NamedSound name) (parse_columns (empty_table own) schema.columns) _
              (λ t e''.
                let same : some own ≡ some name = sym e ∙ named in
                AllOk-ok (NamedSound name) (parse_columns (empty_table own) schema.columns)
                  (parse_columns-NamedSound (empty_table own) schema.columns name
                    (subst (λ n. NamedSound n (empty_table own)) (cc) (empty_table-NamedSound own)))
                  e'')))))

passed_over-NamedSound :
    (over : Bool) (failure : CatalogError) (t : Table) (name : String)
    → NamedSound name t
    → AllOk (NamedSound name) (passed_over over failure t)
passed_over-NamedSound true failure t name s = s
passed_over-NamedSound false failure t name s = tt

place_column-NamedSound :
    (table_name name : String) (t : Table) (c : Column) (after : Option String)
    → NamedSound name t
    → has t.columns c.name ≡ false
    → AllOk (NamedSound name) (place_column table_name t c after)
unfolding place_column
place_column-NamedSound table_name name t c none s absent = (
  s.0,
  ColumnsSound-add t.columns t.column_order _ c s.1 absent (count-last t.column_order c.name),
)
place_column-NamedSound table_name name t c (some after) s absent =
    AllOk-require (NamedSound name) (index_of t.column_order after) _ _ (λ index e. (
      s.0,
      ColumnsSound-add t.columns t.column_order _ c s.1 absent (λ k.
          count-insert_after t.column_order index c.name k
            (index_of-lt-length t.column_order after index e)),
    ))

modified-name : (def : ColumnDef) (c previous : Column) → (modified def c previous).name ≡ c.name
unfolding modified
modified-name def c previous = refl

modify-NamedSound :
    (table_name name : String) (t : Table) (def : ColumnDef) (c : Column) (over : Bool)
    → NamedSound name t
    → (found : Option Column) → lookup t.columns c.name ≡ found
    → AllOk (NamedSound name) (elim found as (λ _. Result CatalogError Table) [
      | none ↦ passed_over over (unknown_column table_name c.name) t
      | some previous ↦
          ok (record t { columns = assign t.columns c.name (modified def c previous) })
    ])
modify-NamedSound table_name name t def c over s none e =
    passed_over-NamedSound over (unknown_column table_name c.name) t name s
modify-NamedSound table_name name t def c over s (some previous) e = (
  s.0,
  ColumnsSound-update t.columns t.column_order c.name (modified def c previous) s.1 (ap is_some e)
      (modified-name def c previous),
)

alter_clause-NamedSound :
    (table_name name : String) (t : Table) (clause : AlterClause)
    → NamedSound name t
    → AllOk (NamedSound name) (alter_clause table_name t clause)
unfolding alter_clause
alter_clause-NamedSound table_name name t (add_column definition after over) s =
    AllOk-require (NamedSound name) definition _ _ (λ def e.
      AllOk-bind (NamedSound name) (parse_column_def table_name def) _ (λ c e'.
        AllOk-if (NamedSound name) (has t.columns c.name) _ _
          (λ _. passed_over-NamedSound over (duplicate_column table_name c.name) t name s)
          (λ absent. place_column-NamedSound table_name name t c after s absent)))
alter_clause-NamedSound table_name name t (modify_column definition over) s =
    AllOk-require (NamedSound name) definition _ _ (λ def e.
      AllOk-bind (NamedSound name) (parse_column_def table_name def) _
        (λ c e'. modify-NamedSound table_name name t def c over s (lookup t.columns c.name) refl))
alter_clause-NamedSound table_name name t (drop_column column_name over) s =
    AllOk-require (NamedSound name) column_name _ _ (λ k e.
      AllOk-if (NamedSound name) (has t.columns k) _ _
        (λ _. (
          s.0,
          ColumnsSound-remove t.columns t.column_order _ k s.1 (count-remove_name t.column_order k),
        ))
        (λ _. passed_over-NamedSound over (unknown_column table_name k) t name s))
alter_clause-NamedSound table_name name t remove_ttl s = s
alter_clause-NamedSound table_name name t (modify_setting settings) s = s
alter_clause-NamedSound table_name name t (reset_setting names) s = s
alter_clause-NamedSound table_name name t add_projection s = s
alter_clause-NamedSound table_name name t materialize_projection s = s
alter_clause-NamedSound table_name name t drop_projection s = s
alter_clause-NamedSound table_name name t clear_projection s = s
alter_clause-NamedSound table_name name t add_index s = s
alter_clause-NamedSound table_name name t materialize_index s = s
alter_clause-NamedSound table_name name t drop_index s = s
alter_clause-NamedSound table_name name t clear_index s = s
alter_clause-NamedSound table_name name t other_alter s = tt

-- The clauses of an ALTER TABLE keep the name of the table and its soundness.
pub alter_clauses-NamedSound :
    (table_name name : String) (t : Table) (clauses : List AlterClause)
    → NamedSound name t
    → AllOk (NamedSound name) (alter_clauses table_name t clauses)
unfolding alter_clauses
alter_clauses-NamedSound table_name name t [] s = s
alter_clauses-NamedSound table_name name t (c ∷ rest) s =
    AllOk-bind (NamedSound name) (alter_clause table_name t c) _ (λ altered e.
      alter_clauses-NamedSound table_name name altered rest (
        AllOk-ok (NamedSound name) (alter_clause table_name t c)
          (alter_clause-NamedSound table_name name t c s) e))

-- ===== src/Catalog/Columns.antt =====
-- Columns and engines as the catalog stores them: `parseColumnDefWithType`, `parseTableEngine` and
-- the column loop of `parseCreateTableWithType` of internal/engine/schema.go.
use Prim.Native.Char.{code}
use Prim.Native.String.{◌++◌ as concat}
use chgen.Base.{
  String, ◌&&◌, not, Option, none, some, List, [], ◌∷◌, ◌++◌, ◌==◌, if◌then◌else◌, Result, ok, err,
  ◌>>=◌, reject, require,
}
use chgen.Base.Dict.{Dict, is_some, has, assign}
use chgen.ChType.{ChType}
use chgen.Catalog.{
  Column, TableEngine, Table, CatalogError, no_table_name, no_column_list,
  requires_source_resolution, column_without_name, column_without_type, bad_column_type,
  duplicate_column,
}
use chgen.Catalog.Statements.{
  ColumnDef, EngineExpr, TableElement, column, other_clause, CreateTable,
}

abbrev pub text_or_empty : Option String → String
text_or_empty none = ""
text_or_empty (some s) = s

-- What is left of a text behind a prefix.
unfoldable pub cut_prefix : String → String → Option String
cut_prefix s String.[] = some s
cut_prefix String.[] (String.◌∷◌ p ps) = none
cut_prefix (String.◌∷◌ c s) (String.◌∷◌ p ps) =
    let rest = cut_prefix s ps in if code c == code p then rest else none

-- strings.TrimPrefix
unfoldable pub trim_prefix : String → String → String
unfolding cut_prefix
trim_prefix s p = elim (cut_prefix s p) [ none ↦ s | some rest ↦ rest ]

abbrev pub column_name : String → Option String → String
column_name ident none = ident
column_name ident (some dot) = concat ident (concat "." dot)

abbrev pub typed : String → String → Result String ChType → Result CatalogError ChType
typed table_name name (ok t) = ok t
typed table_name name (err e) = err (bad_column_type table_name name e)

unfoldable pub parse_column_def : String → ColumnDef → Result CatalogError Column
unfolding trim_prefix
parse_column_def table_name def = require def.ident (column_without_name table_name) (λ ident.
    require def.column_type (column_without_type table_name ident) (λ parsed.
      let name = column_name ident def.dot_ident in
      typed table_name name parsed >>= λ t. ok (record {
        name = name;
        column_type = t;
        insertable = not (is_some def.materialized_expr) && not (is_some def.alias_expr);
        default_expr = text_or_empty def.default_expr;
        materialized_expr = text_or_empty def.materialized_expr;
        alias_expr = text_or_empty def.alias_expr;
        codec = text_or_empty def.codec;
        comment = text_or_empty def.comment;
        ttl = trim_prefix (text_or_empty def.ttl) "TTL ";
      })))

unfoldable pub set_all : Dict String → List (String × String) → Dict String
set_all m [] = m
set_all m ((k, v) ∷ rest) = set_all (assign m k v) rest

abbrev pub terms_or_empty : Option (List String) → List String
terms_or_empty none = []
terms_or_empty (some terms) = terms

unfoldable pub parse_engine : EngineExpr → TableEngine
unfolding trim_prefix set_all
parse_engine engine = record {
  name = engine.name;
  params = engine.params;
  order_by = terms_or_empty engine.order_by;
  partition_by = text_or_empty engine.partition_by;
  primary_key = text_or_empty engine.primary_key;
  sample_by = text_or_empty engine.sample_by;
  ttl = trim_prefix (text_or_empty engine.ttl) "TTL ";
  settings = set_all [] engine.settings;
}

abbrev pub parse_table_engine : Option EngineExpr → Option TableEngine
parse_table_engine none = none
parse_table_engine (some engine) = some (parse_engine engine)

-- One column at the end of the table.
unfoldable pub append_column : Table → Column → Result CatalogError Table
append_column t c = reject (has t.columns c.name) (duplicate_column t.name c.name) (
    ok (record t {
      columns = assign t.columns c.name c;
      column_order = t.column_order ++ (c.name ∷ []);
    }))

unfoldable pub parse_columns : Table → List TableElement → Result CatalogError Table
parse_columns t [] = ok t
parse_columns t (other_clause ∷ rest) = parse_columns t rest
parse_columns t (column def ∷ rest) =
    parse_column_def t.name def >>= λ c. append_column t c >>= λ grown. parse_columns grown rest

abbrev pub empty_table : String → Table
empty_table name = record {
  name = name;
  file = "";
  line = 0;
  columns = [];
  column_order = [];
  engine = none;
}

unfoldable pub parse_create_table : CreateTable → Result CatalogError Table
parse_create_table statement = require statement.table_name no_table_name (λ name.
    require statement.table_schema (no_column_list name) (λ schema.
      reject (is_some schema.alias_table) (requires_source_resolution name) (
        reject (is_some schema.table_function) (requires_source_resolution name) (
          parse_columns (empty_table name) schema.columns >>= λ t.
          ok (record t { engine = parse_table_engine statement.engine })))))

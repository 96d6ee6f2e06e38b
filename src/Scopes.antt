-- ===== src/Scopes.antt =====
-- Name lookup in nested queries: the fields of `queryScope` of internal/engine/resolver.go that its
-- lookups read, and the lookups of internal/engine/supertype.go. A scope and its parents are a list,
-- the innermost first. A scope with a bound document (`irBinding`) answers columns elsewhere: the
-- column lookup modelled is that of a scope without one.
pub mod Tables
pub mod Columns
use chgen.Base.{
  ℕ, String, Bool, true, false, not, ◌&&◌, ◌||◌, Option, none, some, List, [], ◌∷◌, ◌==◌, ◌-◌, ltb,
  if◌then◌else◌, str_eq, fold_eq, length, drop, any, Result, ok, err,
}
use chgen.Base.Dict.{Dict, lookup, has}
use Prim.Native.String.{◌++◌ as concat}
use chgen.ChType.{ChType}
use chgen.Catalog.{Table, Column}

pub record ScopedTable : Type 0 where
  pub table : Table
  pub alias : String

-- One `queryScope`, without its parent.
pub record QueryScope : Type 0 where
  pub tables : List ScopedTable
  pub from_binding_start : ℕ
  pub relations : Dict Table
  pub reserved_relations : Dict Bool
  pub scalars : Dict ChType
  pub projection_aliases : Dict ChType
  pub reserved_scalars : Dict Bool
  pub exact_scalar_names : Bool
  pub using_types : Dict ChType
  pub using_qualified : Dict ChType
  pub array_join_types : Dict ChType
  pub array_join_qualified : Dict ChType

-- The value of a Go map to bool, false where the key is missing.
abbrev pub flag : Dict Bool → String → Bool
flag m k = elim (lookup m k) [ none ↦ false | some b ↦ b ]

abbrev pub or_else {ℓ} : {A : Type ℓ} → Option A → Option A → Option A
or_else (some a) rest = some a
or_else none rest = rest

abbrev pub is_called : String → ScopedTable → Bool
is_called n scoped = str_eq n scoped.alias || str_eq n scoped.table.name

-- `lookupLocalTable`: the loop from the last table to the first.
unfoldable pub lookup_local_table : List ScopedTable → String → Option Table
lookup_local_table [] n = none
lookup_local_table (scoped ∷ rest) n =
    or_else (lookup_local_table rest n) (if is_called n scoped then some scoped.table else none)

-- `lookupTable`
unfoldable pub lookup_table : List QueryScope → String → Option Table
unfolding lookup_local_table
lookup_table [] n = none
lookup_table (scope ∷ parents) n =
    let outer = lookup_table parents n in
    or_else (lookup_local_table scope.tables n)
      (or_else (lookup scope.relations n) (if flag scope.reserved_relations n then none else outer))

-- `hasReservedRelation`
unfoldable pub has_reserved_relation : List QueryScope → String → Bool
has_reserved_relation [] n = false
has_reserved_relation (scope ∷ parents) n =
    flag scope.reserved_relations n || has_reserved_relation parents n

-- `hasFromAlias`
unfoldable pub has_from_alias : QueryScope → String → Bool
has_from_alias scope n =
    any (λ scoped. str_eq scoped.alias n) (drop scope.from_binding_start scope.tables)

-- The loop over the scalars, in the order in which they are listed.
unfoldable pub fold_lookup : Dict ChType → String → Option ChType
fold_lookup [] n = none
fold_lookup ((key, t) ∷ rest) n = if fold_eq n key then some t else fold_lookup rest n

-- `lookupLocalScalar`
unfoldable pub lookup_local_scalar : QueryScope → String → Option ChType
unfolding fold_lookup
lookup_local_scalar scope n = or_else (lookup scope.projection_aliases n) (
    or_else (lookup scope.scalars n)
      (if not scope.exact_scalar_names then fold_lookup scope.scalars n else none))

-- `lookupScalar`
unfoldable pub lookup_scalar : List QueryScope → String → Option ChType
unfolding lookup_local_scalar
lookup_scalar [] n = none
lookup_scalar (scope ∷ parents) n =
    let outer = lookup_scalar parents n in
    or_else (lookup_local_scalar scope n) (if flag scope.reserved_scalars n then none else outer)

pub data ColumnError : Type 0 where
  not_present ambiguous : String → ColumnError

-- The columns of a name in the tables that the qualifier, if there is one, names.
unfoldable pub found_columns : List ScopedTable → String → String → List Column
found_columns [] qualifier n = []
found_columns (scoped ∷ rest) qualifier n =
    let others = found_columns rest qualifier n in
    if not (str_eq qualifier "") && not (is_called qualifier scoped)
    then others
    else elim (lookup scoped.table.columns n) [ none ↦ others | some column ↦ column ∷ others ]

-- `localQualifier`: the qualifier names a table of this scope.
unfoldable pub is_local_qualifier : List ScopedTable → String → Bool
is_local_qualifier tables qualifier = not (str_eq qualifier "") && any (is_called qualifier) tables

-- ARRAY JOIN and USING columns, which come before the tables.
unfoldable pub joined_column : QueryScope → String → String → Option ChType
joined_column scope qualifier n =
    if str_eq qualifier ""
    then or_else (lookup scope.array_join_types n) (lookup scope.using_types n)
    else let key = concat qualifier (concat "." n) in
      or_else (lookup scope.array_join_qualified key) (lookup scope.using_qualified key)

-- Several columns without a qualifier are refused, but where the FROM clause joins two tables.
abbrev pub first_column :
    QueryScope
    → String
    → String
    → List Column
    → Result ColumnError ChType
    → Result ColumnError ChType
first_column scope qualifier n [] none_found = none_found
first_column scope qualifier n (c ∷ []) none_found = ok c.column_type
first_column scope qualifier n (c ∷ d ∷ more) none_found =
    if str_eq qualifier "" && not (length scope.tables - scope.from_binding_start == 2)
    then err (ambiguous n)
    else ok c.column_type

abbrev pub or_found : Option ChType → Result ColumnError ChType → Result ColumnError ChType
or_found (some t) rest = ok t
or_found none rest = rest

-- `lookupColumn`, after its first branch
unfoldable pub lookup_column : List QueryScope → String → String → Result ColumnError ChType
unfolding found_columns is_local_qualifier joined_column
lookup_column [] qualifier n = err (not_present n)
lookup_column (scope ∷ parents) qualifier n =
    let outer = lookup_column parents qualifier n in
    or_found (joined_column scope qualifier n) (
      first_column scope qualifier n (found_columns scope.tables qualifier n)
        (if is_local_qualifier scope.tables qualifier then err (not_present n) else outer))

-- `lookupLocalColumn`
unfoldable pub lookup_local_column : QueryScope → String → String → Result ColumnError ChType
unfolding lookup_column
lookup_local_column scope qualifier n = lookup_column (scope ∷ []) qualifier n

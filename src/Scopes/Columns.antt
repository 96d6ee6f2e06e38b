-- ===== src/Scopes/Columns.antt =====
-- A qualified column stays in the scope whose table the qualifier names.
use chgen.Base.{◌≡◌, sym, ◌∙◌, ap, String, true, List, [], ◌∷◌, if◌then◌else◌, err}
use chgen.Scopes.{
  QueryScope, not_present, found_columns, is_local_qualifier, joined_column, first_column, or_found,
  lookup_column, lookup_local_column,
}

-- A column whose qualifier names a table of the innermost scope has the answer of that scope alone:
-- no outer scope is read, whether the scope has the column or not.
pub lookup_column-is_local :
    (scope : QueryScope) (parents : List QueryScope) (qualifier n : String)
    → is_local_qualifier scope.tables qualifier ≡ true
    → lookup_column (scope ∷ parents) qualifier n ≡ lookup_local_column scope qualifier n
unfolding lookup_column lookup_local_column
lookup_column-is_local scope parents qualifier n h =
    ap
      (λ b. or_found (joined_column scope qualifier n) (
        first_column scope qualifier n (found_columns scope.tables qualifier n)
          (if b then err (not_present n) else lookup_column parents qualifier n)))
      h
    ∙ sym (
        ap
          (λ b. or_found (joined_column scope qualifier n) (
            first_column scope qualifier n (found_columns scope.tables qualifier n)
              (if b then err (not_present n) else lookup_column [] qualifier n)))
          h)

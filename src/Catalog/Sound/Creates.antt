-- ===== src/Catalog/Sound/Creates.antt =====
-- CREATE TABLE keeps the catalog sound.
use chgen.Base.{
  ◌≡◌, refl, sym, ◌∙◌, subst, ℕ, String, Bool, true, false, Option, none, some, arith, str_eq,
  eq_iff, Result, ok, err, AllOk, AllOk-if, AllOk-reject, AllOk-require, AllOk-bind, AllOk-ok,
  require, Bool-cases, inl, inr,
}
use chgen.Base.Dict.{Dict, is_some, has, lookup, assign}
use chgen.Catalog.{
  Table, SchemaCatalogs, migrations_table_name, CatalogError, no_table_name, unknown_source,
}
use chgen.Catalog.Statements.{CreateTable}
use chgen.Catalog.Columns.{parse_create_table}
use chgen.Catalog.Create.{
  alias_of, apply_external_create, new_table, apply_physical_create, copied_engine,
}
use chgen.Catalog.Sound.{
  TableSound, PhysicalSound, IsSound, PhysicalSound-assign, assign-cases, has-assign,
}
use chgen.Catalog.Sound.Tables.{NamedSound, parse_create_table-NamedSound}

abbrev pub with_physical : SchemaCatalogs → Dict Table → SchemaCatalogs
with_physical catalogs tables = record catalogs { physical = tables }

pub physical_IsSound :
    (catalogs : SchemaCatalogs) (tables : Dict Table)
    → IsSound catalogs
    → PhysicalSound catalogs.external tables
    → IsSound (with_physical catalogs tables)
physical_IsSound catalogs tables s p = record { physical = p; external = s.external }

-- A name that a table of the catalog has is not that of the migration tool.
pub present-ne-migrations :
    (catalogs : SchemaCatalogs) (k : String)
    → IsSound catalogs
    → has catalogs.physical k ≡ true
    → str_eq k migrations_table_name ≡ false
present-ne-migrations catalogs k s h = go (str_eq k migrations_table_name) refl
  where
    go : (b : Bool) → str_eq k migrations_table_name ≡ b → b ≡ false
    go false e = refl
    go true e =
        let t =
          subst (λ j. has catalogs.physical j ≡ true) ((eq_iff k migrations_table_name).0 e) h in
        let f = s.physical.unmigrated in cc

new_table-NamedSound :
    (catalogs : SchemaCatalogs) (name : String) (statement : CreateTable)
    → IsSound catalogs
    → statement.table_name ≡ some name
    → AllOk (NamedSound name) (new_table catalogs name statement)
unfolding new_table
new_table-NamedSound catalogs name statement s named = go (alias_of statement.table_schema)
  where
    go :
        (alias : Option String)
        → AllOk (NamedSound name) (elim alias as (λ _. Result CatalogError Table) [
          | none ↦ parse_create_table statement
          | some source_name ↦
              require
                (lookup catalogs.physical source_name)
                (unknown_source name source_name)
                (λ source. ok (record source {
                  name = name;
                  engine = copied_engine source.engine statement.engine;
                }))
        ])
    go none = parse_create_table-NamedSound statement name named
    go (some source_name) =
        AllOk-require (NamedSound name) (lookup catalogs.physical source_name) _ _
          (λ source e. (refl, (s.physical.tables source_name source e).1))

pub apply_physical_create-IsSound :
    (catalogs : SchemaCatalogs) (path : String) (line : ℕ) (statement : CreateTable)
    → IsSound catalogs
    → AllOk IsSound (apply_physical_create catalogs path line statement)
unfolding apply_physical_create
apply_physical_create-IsSound catalogs path line statement s =
    AllOk-require IsSound statement.table_name _ _ (λ name named.
      AllOk-if IsSound (str_eq name migrations_table_name) _ _ (λ _. s)
        (λ other. AllOk-reject IsSound (is_some statement.foreign_reference) _ _ (λ _.
          AllOk-reject IsSound (has catalogs.external name) _ _ (λ free.
            AllOk-if IsSound (has catalogs.physical name) _ _
              (λ _. AllOk-if IsSound statement.if_not_exists _ _ (λ _. s) (λ _. tt))
              (λ absent. AllOk-bind IsSound (new_table catalogs name statement) _ (λ t e.
                let t_sound =
                  AllOk-ok (NamedSound name) (new_table catalogs name statement)
                    (new_table-NamedSound catalogs name statement s named) e in
                let located = record t { file = path; line = line } in
                physical_IsSound catalogs _ s (
                  PhysicalSound-assign catalogs.external catalogs.physical t.name located s.physical
                    refl t_sound.1
                    (subst (λ k. has catalogs.external k ≡ false) (sym t_sound.0) free)
                    (subst (λ k. str_eq k migrations_table_name ≡ false) (sym t_sound.0)
                      other))))))))

external_IsSound :
    (catalogs : SchemaCatalogs) (k : String) (t : Table)
    → IsSound catalogs
    → t.name ≡ k
    → TableSound t
    → has catalogs.physical k ≡ false
    → IsSound (record catalogs { external = assign catalogs.external k t })
external_IsSound catalogs k t s named sound free = record {
  physical = record {
    tables = s.physical.tables;
    disjoint = λ j h.
        has-assign catalogs.external k t j ∙ (ground (arith, s.physical.disjoint j h, apart j h));
    unmigrated = s.physical.unmigrated;
  };
  external =
      assign-cases (λ j u. (u.name ≡ j) × TableSound u) catalogs.external k t s.external
        (named, sound);
}
  where
    apart : (j : String) → has catalogs.physical j ≡ true → str_eq k j ≡ false
    apart j h = elim (Bool-cases (str_eq k j)) [
      | inr e ↦ e
      | inl e ↦ let f = subst (λ i. has catalogs.physical i ≡ false) ((eq_iff k j).0 e) free in cc
    ]

parsed_name :
    (statement : CreateTable) (t : Table) → parse_create_table statement ≡ ok t → TableSound t
unfolding parse_create_table
parsed_name statement t e = go statement.table_name refl
  where
    go : (o : Option String) → statement.table_name ≡ o → TableSound t
    go none h = let f : err no_table_name ≡ ok t = rw h at e in cc
    go (some name) h =
        (AllOk-ok (NamedSound name) (parse_create_table statement)
          (parse_create_table-NamedSound statement name h) e).1

pub apply_external_create-IsSound :
    (catalogs : SchemaCatalogs) (path : String) (line : ℕ) (statement : CreateTable)
    → IsSound catalogs
    → AllOk IsSound (apply_external_create catalogs path line statement)
unfolding apply_external_create
apply_external_create-IsSound catalogs path line statement s =
    AllOk-reject IsSound (is_some (alias_of statement.table_schema)) _ _ (λ _.
      AllOk-bind IsSound (parse_create_table statement) _ (λ t e.
        AllOk-reject IsSound (is_some statement.engine) _ _ (λ _.
          AllOk-reject IsSound (has catalogs.physical t.name) _ _ (λ free.
            AllOk-reject IsSound (has catalogs.external t.name) _ _ (λ _.
              external_IsSound catalogs t.name (record t { file = path; line = line }) s refl
                (parsed_name statement t e) free)))))

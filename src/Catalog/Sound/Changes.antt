-- ===== src/Catalog/Sound/Changes.antt =====
-- ALTER, DROP, RENAME and EXCHANGE keep the catalog sound.
use chgen.Base.{
  ◌≡◌, refl, String, Bool, false, ◌||◌, not, some, List, [], ◌∷◌, any, str_eq, Result, err, require,
  or-eq-false, AllOk, AllOk-if, AllOk-reject, AllOk-require, AllOk-bind, AllOk-ok, reject,
}
use chgen.Base.Dict.{Dict, is_some, has, lookup, assign, delete}
use chgen.Catalog.{
  Table, SchemaCatalogs, migrations_table_name, CatalogError, needs_two_names, qualified_name,
  nil_dereference,
}
use chgen.Catalog.Statements.{
  AlterTable, AlterClause, DropStmt, DropTarget, view, table, other_target, TablePair, RenameStmt,
}
use chgen.Catalog.Alter.{is_rejected, alter_clauses, apply_alter_table, apply_catalog_alter}
use chgen.Catalog.Change.{
  drop_from, drop_target, apply_catalog_drop, rename_one, rename_pair, rename_pairs, is_empty,
  apply_catalog_rename, exchanged_table, exchange_names, apply_catalog_exchange,
}
use chgen.Catalog.Sound.{PhysicalSound, IsSound, PhysicalSound-assign, PhysicalSound-delete}
use chgen.Catalog.Sound.Creates.{physical_IsSound}
use chgen.Catalog.Sound.Tables.{NamedSound, alter_clauses-NamedSound}

apply_alter_table-PhysicalSound :
    (catalogs : SchemaCatalogs) (name : String) (clauses : List AlterClause)
    → IsSound catalogs
    → has catalogs.external name ≡ false
    → str_eq name migrations_table_name ≡ false
    → AllOk (PhysicalSound catalogs.external) (apply_alter_table catalogs.physical name clauses)
unfolding apply_alter_table
apply_alter_table-PhysicalSound catalogs name clauses s free other =
    AllOk-require (PhysicalSound catalogs.external) (lookup catalogs.physical name) _ _ (λ t e.
      AllOk-bind (PhysicalSound catalogs.external) (alter_clauses name t clauses) _ (λ altered e'.
        let sound =
          AllOk-ok (NamedSound name) (alter_clauses name t clauses)
            (alter_clauses-NamedSound name name t clauses (s.physical.tables name t e)) e' in
        PhysicalSound-assign catalogs.external catalogs.physical name altered s.physical sound.0
          sound.1 free other))

pub apply_catalog_alter-IsSound :
    (catalogs : SchemaCatalogs) (statement : AlterTable)
    → IsSound catalogs
    → AllOk IsSound (apply_catalog_alter catalogs statement)
unfolding apply_catalog_alter
apply_catalog_alter-IsSound catalogs statement s =
    AllOk-require IsSound statement.table_name _ _ (λ name named.
      AllOk-if IsSound (str_eq name migrations_table_name) _ _ (λ _. s)
        (λ other. AllOk-reject IsSound (has catalogs.external name) _ _ (λ free.
          AllOk-reject IsSound (any is_rejected statement.clauses) _ _ (λ _.
            AllOk-bind IsSound (apply_alter_table catalogs.physical name statement.clauses) _
              (λ tables e. physical_IsSound catalogs tables s (
                AllOk-ok (PhysicalSound catalogs.external)
                  (apply_alter_table catalogs.physical name statement.clauses)
                  (apply_alter_table-PhysicalSound catalogs name statement.clauses s free other)
                  e))))))

drop_from-IsSound :
    (catalogs : SchemaCatalogs) (name : String) (if_exists : Bool)
    → IsSound catalogs
    → AllOk IsSound (drop_from catalogs name if_exists)
unfolding drop_from
drop_from-IsSound catalogs name if_exists s =
    AllOk-if IsSound (str_eq name migrations_table_name) _ _ (λ _. s)
      (λ _. AllOk-reject IsSound (has catalogs.external name) _ _ (λ _.
        AllOk-if IsSound (has catalogs.physical name) _ _
          (λ _.
            physical_IsSound catalogs _ s
              (PhysicalSound-delete catalogs.external catalogs.physical name s.physical))
          (λ _. AllOk-if IsSound if_exists _ _ (λ _. s) (λ _. tt))))

pub apply_catalog_drop-IsSound :
    (catalogs : SchemaCatalogs) (statement : DropStmt)
    → IsSound catalogs
    → AllOk IsSound (apply_catalog_drop catalogs statement)
unfolding apply_catalog_drop drop_target
apply_catalog_drop-IsSound catalogs statement s =
    AllOk-require IsSound statement.object_name _ _ (λ name _. go name statement.target)
  where
    go :
        (name : String) (target : DropTarget)
        → AllOk IsSound (drop_target catalogs target name statement.if_exists)
    go name view = s
    go name table = drop_from-IsSound catalogs name statement.if_exists s
    go name other_target = tt

rename_one-PhysicalSound :
    (external tables : Dict Table) (old_name new_name : String)
    → PhysicalSound external tables
    → AllOk (PhysicalSound external) (rename_one external tables old_name new_name)
unfolding rename_one
rename_one-PhysicalSound external tables old_name new_name s =
    let P = PhysicalSound external in
    AllOk-reject P (str_eq old_name migrations_table_name || str_eq new_name migrations_table_name)
      _ _
      (λ other. AllOk-reject P (has external old_name) _ _ (λ _.
        AllOk-reject P (has external new_name) _ _ (λ free.
          AllOk-require P (lookup tables old_name) _ _ (λ t e.
            AllOk-reject P (has tables new_name) _ _ (λ _.
              PhysicalSound-assign external (delete tables old_name) new_name
                (record t { name = new_name }) (PhysicalSound-delete external tables old_name s)
                refl (s.tables old_name t e).1 free
                (or-eq-false (str_eq old_name migrations_table_name) _ other).1)))))

rename_pairs-PhysicalSound :
    (external tables : Dict Table) (pairs : List TablePair)
    → PhysicalSound external tables
    → AllOk (PhysicalSound external) (rename_pairs external tables pairs)
unfolding rename_pairs rename_pair
rename_pairs-PhysicalSound external tables [] s = s
rename_pairs-PhysicalSound external tables (pair ∷ rest) s =
    AllOk-bind (PhysicalSound external) (rename_pair external tables pair) _ (λ renamed e.
      rename_pairs-PhysicalSound external renamed rest (
        AllOk-ok (PhysicalSound external) (rename_pair external tables pair)
          (AllOk-require (PhysicalSound external) pair.old_table _ _ (λ old_name _.
            AllOk-require (PhysicalSound external) pair.new_table _ _ (λ new_name _.
              AllOk-reject (PhysicalSound external)
                (is_some pair.old_database || is_some pair.new_database) _ _
                (λ _. rename_one-PhysicalSound external tables old_name new_name s))))
          e))

pub apply_catalog_rename-IsSound :
    (catalogs : SchemaCatalogs) (statement : RenameStmt)
    → IsSound catalogs
    → AllOk IsSound (apply_catalog_rename catalogs statement)
unfolding apply_catalog_rename
apply_catalog_rename-IsSound catalogs statement s =
    AllOk-reject IsSound (not statement.of_tables) _ _ (λ _.
      AllOk-reject IsSound (is_empty statement.pairs) _ _ (λ _.
        AllOk-bind IsSound (rename_pairs catalogs.external catalogs.physical statement.pairs) _
          (λ tables e. physical_IsSound catalogs tables s (
            AllOk-ok (PhysicalSound catalogs.external)
              (rename_pairs catalogs.external catalogs.physical statement.pairs)
              (rename_pairs-PhysicalSound catalogs.external catalogs.physical statement.pairs
                s.physical)
              e))))

-- What the check of a name of an exchange finds.
abbrev pub Exchangeable : SchemaCatalogs → String → Table → Type 0
Exchangeable catalogs name t =
    (str_eq name migrations_table_name ≡ false)
    × (has catalogs.external name ≡ false)
    × (lookup catalogs.physical name ≡ some t)

pub exchanged_table-Exchangeable :
    (catalogs : SchemaCatalogs) (name : String)
    → AllOk (Exchangeable catalogs name) (exchanged_table catalogs name)
unfolding exchanged_table
exchanged_table-Exchangeable catalogs name =
    let P = Exchangeable catalogs name in
    AllOk-reject P (str_eq name migrations_table_name) _ _ (λ other.
      AllOk-reject P (has catalogs.external name) _ _
        (λ free. AllOk-require P (lookup catalogs.physical name) _ _ (λ t e. (other, free, e))))

exchange_names-IsSound :
    (catalogs : SchemaCatalogs) (a b : String)
    → IsSound catalogs
    → AllOk IsSound (exchange_names catalogs a b)
unfolding exchange_names
exchange_names-IsSound catalogs a b s = AllOk-reject IsSound (str_eq a b) _ _ (λ _.
    AllOk-bind IsSound (exchanged_table catalogs a) _ (λ left e.
      AllOk-bind IsSound (exchanged_table catalogs b) _ (λ right e'.
        let (other, free, at_a) =
          AllOk-ok (Exchangeable catalogs a) (exchanged_table catalogs a)
            (exchanged_table-Exchangeable catalogs a) e in
        let (other', free', at_b) =
          AllOk-ok (Exchangeable catalogs b) (exchanged_table catalogs b)
            (exchanged_table-Exchangeable catalogs b) e' in
        physical_IsSound catalogs _ s (
          PhysicalSound-assign catalogs.external
            (assign catalogs.physical a (record right { name = a })) b (record left { name = b })
            (PhysicalSound-assign catalogs.external catalogs.physical a (record right { name = a })
              s.physical refl (s.physical.tables b right at_b).1 free other)
            refl (s.physical.tables a left at_a).1 free' other'))))

pub apply_catalog_exchange-IsSound :
    (catalogs : SchemaCatalogs) (statement : RenameStmt)
    → IsSound catalogs
    → AllOk IsSound (apply_catalog_exchange catalogs statement)
unfolding apply_catalog_exchange
apply_catalog_exchange-IsSound catalogs statement s = go statement.pairs
  where
    go :
        (pairs : List TablePair)
        → AllOk IsSound (elim pairs as (λ _. Result CatalogError SchemaCatalogs) [
          | [] ↦ err needs_two_names
          | pair ∷ more ↦ reject (not (is_empty more)) needs_two_names (
              reject (is_some pair.old_database || is_some pair.new_database) qualified_name (
                require pair.old_table nil_dereference
                  (λ a. require pair.new_table nil_dereference (λ b. exchange_names catalogs a b))))
        ])
    go [] = tt
    go (pair ∷ more) = AllOk-reject IsSound (not (is_empty more)) _ _ (λ _.
        AllOk-reject IsSound (is_some pair.old_database || is_some pair.new_database) _ _ (λ _.
          AllOk-require IsSound pair.old_table _ _ (λ a _.
            AllOk-require IsSound pair.new_table _ _
              (λ b _. exchange_names-IsSound catalogs a b s))))

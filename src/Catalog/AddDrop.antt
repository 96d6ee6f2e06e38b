-- ===== src/Catalog/AddDrop.antt =====
-- DROP COLUMN undoes ADD COLUMN.
use chgen.Base.{
  ◌≡◌, refl, ◌∙◌, ap, ℕ, zero, suc, String, Bool, true, false, Option, none, some, List, [], ◌∷◌,
  ◌++◌, take, drop, arith, str_eq, eq_iff, ok, Bool-cases, inl, inr, AllOk, AllOk-require, AllOk-ok,
}
use chgen.Base.Dict.{is_some, has, lookup, assign, delete, lookup-assign, lookup-delete}
use chgen.Catalog.{Column, Table}
use chgen.Catalog.Statements.{ColumnDef, add_column, drop_column}
use chgen.Catalog.Columns.{parse_column_def}
use chgen.Catalog.Alter.{index_of, map_suc, cut_at, remove_name, place_column, alter_clause}
use chgen.Catalog.Order.{count, count-append, index_of-lt-length, insert_after-eq}
use chgen.Catalog.Sound.{TableSound, has-assign}

cut_at-suc :
    (x : String) (xs : List String) (o : Option ℕ) → cut_at (x ∷ xs) (map_suc o) ≡ x ∷ cut_at xs o
cut_at-suc x xs none = refl
cut_at-suc x xs (some i) = refl

remove_name-middle :
    (xs ys : List String) (name : String)
    → count name xs ≡ 0
    → remove_name (xs ++ (name ∷ ys)) name ≡ xs ++ ys
unfolding remove_name index_of count
remove_name-middle [] ys name h = rw ((eq_iff name name).1 refl)
remove_name-middle (x ∷ xs) ys name h = elim (Bool-cases (str_eq x name)) [
  | inl same ↦ ground arith
  | inr differs ↦ rw differs (
      cut_at-suc x (xs ++ (name ∷ ys)) (index_of (xs ++ (name ∷ ys)) name)
      ∙ ap (λ l. x ∷ l) (remove_name-middle xs ys name (ground arith)))
]

take-drop : (i : ℕ) (xs : List String) → take i xs ++ drop i xs ≡ xs
take-drop zero xs = refl
take-drop (suc i) [] = refl
take-drop (suc i) (x ∷ xs) = ap (λ l. x ∷ l) (take-drop i xs)

append-nil : (xs : List String) → xs ++ [] ≡ xs
append-nil [] = refl
append-nil (x ∷ xs) = ap (λ l. x ∷ l) (append-nil xs)

-- The column stands somewhere in the order, and the rest is as it was.
record Placed (t : Table) (c : Column) (result : Table) : Type 0 where
  pub before : List String
  pub after : List String
  pub around : before ++ after ≡ t.column_order
  pub order : result.column_order ≡ before ++ (c.name ∷ after)
  pub columns : result.columns ≡ assign t.columns c.name c

place_column-Placed :
    (table_name : String) (t : Table) (c : Column) (after : Option String)
    → AllOk (Placed t c) (place_column table_name t c after)
unfolding place_column
place_column-Placed table_name t c none = record {
  before = t.column_order;
  after = [];
  around = append-nil t.column_order;
  order = refl;
  columns = refl;
}
place_column-Placed table_name t c (some after) =
    AllOk-require (Placed t c) (index_of t.column_order after) _ _ (λ i e. record {
      before = take (suc i) t.column_order;
      after = drop (suc i) t.column_order;
      around = take-drop (suc i) t.column_order;
      order = insert_after-eq t.column_order i c.name (index_of-lt-length t.column_order after i e);
      columns = refl;
    })

-- If ADD COLUMN, at the end or behind a column, has added a new column to a sound table, then DROP
-- COLUMN of its name is accepted and leaves the column order and every column as they were.
pub add_column-drop_column :
    (table_name : String) (t grown : Table) (def : ColumnDef) (c : Column) (after : Option String)
    (if_not_exists if_exists : Bool)
    → TableSound t
    → parse_column_def table_name def ≡ ok c
    → has t.columns c.name ≡ false
    → alter_clause table_name t (add_column (some def) after if_not_exists) ≡ ok grown
    → (back : Table) × (alter_clause table_name grown (drop_column (some c.name) if_exists)
        ≡ ok back)
      × (back.column_order ≡ t.column_order)
      × ((k : String) → lookup back.columns k ≡ lookup t.columns k)
unfolding alter_clause
add_column-drop_column table_name t grown def c after over over' s parsed absent h =
    let placed_at : place_column table_name t c after ≡ ok grown = rw absent at (rw parsed at h) in
    let p =
      AllOk-ok (Placed t c) (place_column table_name t c after)
        (place_column-Placed table_name t c after) placed_at in
    let fresh : count c.name p.before ≡ 0 =
      ground (arith, count-append c.name p.before p.after, s.ordered c.name, p.around) in
    let present : has grown.columns c.name ≡ true =
      rw (p.columns)
        (has-assign t.columns c.name c c.name ∙ ground (arith, eq_iff c.name c.name)) in
    (
      record grown {
        columns = delete grown.columns c.name;
        column_order = remove_name grown.column_order c.name;
      },
      rw present,
      rw (p.order) (remove_name-middle p.before p.after c.name fresh ∙ p.around),
      λ k.
          ap (λ m. lookup (delete m c.name) k) p.columns
          ∙ lookup-delete (assign t.columns c.name c) c.name k
          ∙ ground (
            arith,
            lookup-assign t.columns c.name c k,
            eq_iff c.name k,
            none_of (lookup t.columns c.name) absent,
          ),
    )
  where
    none_of : (o : Option Column) → is_some o ≡ false → o ≡ none
    none_of none e = refl
    none_of (some x) e = cc

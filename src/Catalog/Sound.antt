-- ===== src/Catalog/Sound.antt =====
-- The invariant of the catalog, and what an assignment or a deletion does to it.
pub mod Tables
pub mod Creates
pub mod Changes
pub mod Statements
use chgen.Base.{
  ◌≡◌, refl, sym, ◌∙◌, subst, ℕ, ◌+◌, ◌-◌, String, Bool, true, false, ◌||◌, Option, none, some,
  List, [], ◌∷◌, ◌++◌, arith, if◌then◌else◌, str_eq, eq_iff, Bool-cases, inl, inr,
}
use chgen.Base.Dict.{Dict, is_some, has, lookup, assign, delete, lookup-assign, lookup-delete}
use chgen.Catalog.{Column, Table, SchemaCatalogs, empty_catalogs, migrations_table_name}
use chgen.Catalog.Order.{count, one_if}

-- Each column stands under its name, and the order names each column once and nothing else.
pub record ColumnsSound (columns : Dict Column) (order : List String) : Type 0 where
  pub keyed : (k : String) (c : Column) → lookup columns k ≡ some c → c.name ≡ k
  pub ordered : (k : String) → count k order ≡ (if has columns k then 1 else 0)

abbrev pub TableSound : Table → Type 0
TableSound t = ColumnsSound t.columns t.column_order

-- Each table stands under its name.
abbrev pub TablesSound : Dict Table → Type 0
TablesSound tables =
    (k : String) (t : Table) → lookup tables k ≡ some t → (t.name ≡ k) × TableSound t

-- No name is that of a physical and of an external table, and the table of the migration tool is
-- none of them.
pub record PhysicalSound (external physical : Dict Table) : Type 0 where
  pub tables : TablesSound physical
  pub disjoint : (k : String) → has physical k ≡ true → has external k ≡ false
  pub unmigrated : has physical migrations_table_name ≡ false

pub record IsSound (catalogs : SchemaCatalogs) : Type 0 where
  pub physical : PhysicalSound catalogs.external catalogs.physical
  pub external : TablesSound catalogs.external

pub has-assign {ℓ} :
    {V : Type ℓ} (m : Dict V) (k : String) (v : V) (other : String)
    → has (assign m k v) other ≡ (str_eq k other || has m other)
has-assign m k v other = rw (lookup-assign m k v other) (ground arith)

pub has-delete {ℓ} :
    {V : Type ℓ} (m : Dict V) (k other : String)
    → has (delete m k) other ≡ (if str_eq k other then false else has m other)
has-delete m k other = rw (lookup-delete m k other) (ground arith)

-- What stands under a name after an assignment is the new value, under its own name, or stood there
-- before.
pub assign-cases {ℓ κ} :
    {V : Type ℓ} (P : String → V → Type κ) (m : Dict V) (k : String) (v : V)
    → ((j : String) (w : V) → lookup m j ≡ some w → P j w)
    → P k v
    → (j : String) (w : V) → lookup (assign m k v) j ≡ some w
    → P j w
assign-cases P m k v old new j w h = elim (Bool-cases (str_eq k j)) [
  | inl same ↦
      let e : some v ≡ some w = rw same at (rw (lookup-assign m k v j) at h) in
      subst (λ i. P i w) ((eq_iff k j).0 same) (subst (P k) (cc) new)
  | inr other ↦ old j w (rw other at (rw (lookup-assign m k v j) at h))
]

pub delete-cases {ℓ κ} :
    {V : Type ℓ} (P : String → V → Type κ) (m : Dict V) (k : String)
    → ((j : String) (w : V) → lookup m j ≡ some w → P j w)
    → (j : String) (w : V) → lookup (delete m k) j ≡ some w
    → P j w
delete-cases P m k old j w h = elim (Bool-cases (str_eq k j)) [
  | inl same ↦ let e : none ≡ some w = rw same at (rw (lookup-delete m k j) at h) in cc
  | inr other ↦ old j w (rw other at (rw (lookup-delete m k j) at h))
]

pub ColumnsSound-add :
    (columns : Dict Column) (order order' : List String) (c : Column)
    → ColumnsSound columns order
    → has columns c.name ≡ false
    → ((k : String) → count k order' ≡ count k order + one_if c.name k)
    → ColumnsSound (assign columns c.name c) order'
ColumnsSound-add columns order order' c s absent grown = record {
  keyed = assign-cases (λ k d. d.name ≡ k) columns c.name c s.keyed refl;
  ordered =
      λ k. grown k ∙ ground (arith, s.ordered k, has-assign columns c.name c k, eq_iff c.name k);
}

pub ColumnsSound-update :
    (columns : Dict Column) (order : List String) (k : String) (c : Column)
    → ColumnsSound columns order
    → has columns k ≡ true
    → c.name ≡ k
    → ColumnsSound (assign columns k c) order
ColumnsSound-update columns order k c s present named = record {
  keyed = assign-cases (λ j d. d.name ≡ j) columns k c s.keyed named;
  ordered = λ j. s.ordered j ∙ ground (arith, has-assign columns k c j, eq_iff k j);
}

pub ColumnsSound-remove :
    (columns : Dict Column) (order order' : List String) (k : String)
    → ColumnsSound columns order
    → ((j : String) → count j order' ≡ count j order - one_if k j)
    → ColumnsSound (delete columns k) order'
ColumnsSound-remove columns order order' k s cut = record {
  keyed = delete-cases (λ j d. d.name ≡ j) columns k s.keyed;
  ordered = λ j. cut j ∙ ground (arith, s.ordered j, has-delete columns k j, eq_iff k j);
}

pub PhysicalSound-assign :
    (external physical : Dict Table) (k : String) (t : Table)
    → PhysicalSound external physical
    → t.name ≡ k
    → TableSound t
    → has external k ≡ false
    → str_eq k migrations_table_name ≡ false
    → PhysicalSound external (assign physical k t)
PhysicalSound-assign external physical k t s named sound free other = record {
  tables = assign-cases (λ j u. (u.name ≡ j) × TableSound u) physical k t s.tables (named, sound);
  disjoint = λ j h. elim (Bool-cases (str_eq k j)) [
    | inl same ↦ subst (λ i. has external i ≡ false) ((eq_iff k j).0 same) free
    | inr differs ↦ s.disjoint j (rw differs at (rw (has-assign physical k t j) at h))
  ];
  unmigrated = rw (has-assign physical k t migrations_table_name, other) s.unmigrated;
}

pub PhysicalSound-delete :
    (external physical : Dict Table) (k : String)
    → PhysicalSound external physical
    → PhysicalSound external (delete physical k)
PhysicalSound-delete external physical k s = record {
  tables = delete-cases (λ j u. (u.name ≡ j) × TableSound u) physical k s.tables;
  disjoint = λ j h. s.disjoint j (ground (arith, has-delete physical k j));
  unmigrated = ground (arith, has-delete physical k migrations_table_name, s.unmigrated);
}

pub empty-IsSound : IsSound empty_catalogs
unfolding lookup
empty-IsSound = record {
  physical = record { tables = λ k t h. cc; disjoint = λ k h. refl; unmigrated = refl };
  external = λ k t h. cc;
}

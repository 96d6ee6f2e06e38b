-- ===== src/Scopes/Tables.antt =====
-- Which scope a table name resolves in: a specification of `lookupTable` by the positions of tables
-- and scopes.
use chgen.Base.{
  ◌≡◌, refl, ◌∙◌, ap, subst, ℕ, zero, suc, String, Bool, true, false, Option, none, some, List, [],
  ◌∷◌, ◌↔◌, ◌⊎◌, inl, inr, All, get_elem?, take, drop, if◌then◌else◌,
}
use chgen.Base.Dict.{lookup}
use chgen.Catalog.{Table}
use chgen.Scopes.{
  ScopedTable, QueryScope, flag, or_else, is_called, lookup_local_table, lookup_table,
}

-- No table of the list has the name, as its alias or as its own.
abbrev NoneCalled : String → List ScopedTable → Type 0
NoneCalled n tables = All (λ s. is_called n s ≡ false) tables

-- `t` is the last table of the list that has the name.
abbrev LastCalled : String → Table → List ScopedTable → Type 0
LastCalled n t tables =
    (k : ℕ) × ((s : ScopedTable) × ((get_elem? tables k ≡ some s)
        × (is_called n s ≡ true)
        × (s.table ≡ t)
        × NoneCalled n (drop (suc k) tables)))

-- The scope gives the name to `t`: by the last of its tables with that name, or else by a relation.
abbrev pub Binds : String → Table → QueryScope → Type 0
Binds n t scope =
    LastCalled n t scope.tables ⊎ (NoneCalled n scope.tables × (lookup scope.relations n ≡ some t))

-- The scope neither binds nor reserves the name.
abbrev pub IsSilent : String → QueryScope → Type 0
IsSilent n scope =
    NoneCalled n scope.tables
    × (lookup scope.relations n ≡ none)
    × (flag scope.reserved_relations n ≡ false)

-- A scope of the chain binds the name, and every scope inside of it is silent on it.
abbrev pub Resolves : String → Table → List QueryScope → Type 0
Resolves n t chain =
    (i : ℕ) × ((scope : QueryScope) × ((get_elem? chain i ≡ some scope)
        × Binds n t scope
        × All (IsSilent n) (take i chain)))

-- What the search of the tables finds.
Searched : String → List ScopedTable → Option Table → Type 0
Searched n tables none = NoneCalled n tables
Searched n tables (some t) = LastCalled n t tables

searched :
    (n : String) (tables : List ScopedTable) → Searched n tables (lookup_local_table tables n)
unfolding Searched lookup_local_table
searched n [] = tt
searched n (s ∷ rest) = go (lookup_local_table rest n) (is_called n s) refl (searched n rest)
  where
    go :
        (o : Option Table) (b : Bool)
        → is_called n s ≡ b
        → Searched n rest o
        → Searched n (s ∷ rest) (or_else o (if b then some s.table else none))
    go (some t) b e h =
        let (k, (u, (at, called, table, after))) = h in (suc k, (u, (at, called, table, after)))
    go none true e h = (0, (s, (refl, e, refl, h)))
    go none false e h = (e, h)

found :
    (n : String) (t : Table) (chain : List QueryScope)
    → lookup_table chain n ≡ some t
    → Resolves n t chain
unfolding lookup_table Searched
found n t [] h = cc
found n t (scope ∷ parents) h =
    go (lookup_local_table scope.tables n) (lookup scope.relations n)
      (flag scope.reserved_relations n) (searched n scope.tables) refl refl h
      (λ k. found n t parents k)
  where
    outside : IsSilent n scope → Resolves n t parents → Resolves n t (scope ∷ parents)
    outside quiet (i, (s, (at, binds, inner))) = (suc i, (s, (at, binds, (quiet, inner))))

    go :
        (o r : Option Table) (reserved : Bool)
        → Searched n scope.tables o
        → lookup scope.relations n ≡ r
        → flag scope.reserved_relations n ≡ reserved
        → or_else o (or_else r (if reserved then none else lookup_table parents n)) ≡ some t
        → (lookup_table parents n ≡ some t → Resolves n t parents)
        → Resolves n t (scope ∷ parents)
    go (some u) r reserved s e f h outer =
        let same : u ≡ t = cc in
        (0, (scope, (refl, inl (subst (λ v. LastCalled n v scope.tables) same s), tt)))
    go none (some u) reserved s e f h outer = (0, (scope, (refl, inr (s, e ∙ h), tt)))
    go none none true s e f h outer = cc
    go none none false s e f h outer = outside (s, e, f) (outer h)

none_called :
    (n : String) (tables : List ScopedTable)
    → NoneCalled n tables
    → lookup_local_table tables n ≡ none
unfolding lookup_local_table
none_called n [] h = refl
none_called n (s ∷ rest) h = rw (none_called n rest h.1, h.0) refl

last_called :
    (n : String) (t : Table) (tables : List ScopedTable)
    → LastCalled n t tables
    → lookup_local_table tables n ≡ some t
unfolding lookup_local_table
last_called n t [] (k, (s, (at, called, same, after))) = cc
last_called n t (s ∷ rest) (zero, (u, (at, called, same, after))) =
    let head : s ≡ u = cc in
    let table : s.table ≡ t = ap (λ (x : ScopedTable). x.table) head ∙ same in
    let hit : is_called n s ≡ true = ap (is_called n) head ∙ called in
    rw (none_called n rest after, hit) (ap some table)
last_called n t (s ∷ rest) (suc k, found) = rw (last_called n t rest (k, found)) refl

bound :
    (n : String) (t : Table) (scope : QueryScope) (parents : List QueryScope)
    → Binds n t scope
    → lookup_table (scope ∷ parents) n ≡ some t
unfolding lookup_table
bound n t scope parents (inl last) = rw (last_called n t scope.tables last) refl
bound n t scope parents (inr (none_here, relation)) =
    rw (none_called n scope.tables none_here, relation) refl

silent :
    (n : String) (scope : QueryScope) (parents : List QueryScope)
    → IsSilent n scope
    → lookup_table (scope ∷ parents) n ≡ lookup_table parents n
unfolding lookup_table
silent n scope parents (no_table, relation, reserved) =
    rw (none_called n scope.tables no_table, relation, reserved) refl

resolved :
    (n : String) (t : Table) (chain : List QueryScope)
    → Resolves n t chain
    → lookup_table chain n ≡ some t
resolved n t [] (i, (scope, (at, binds, inner))) = cc
resolved n t (first ∷ parents) (zero, (scope, (at, binds, inner))) =
    let head : scope ≡ first = cc in bound n t first parents (subst (Binds n t) head binds)
resolved n t (first ∷ parents) (suc i, (scope, (at, binds, inner))) =
    silent n first parents inner.0 ∙ resolved n t parents (i, (scope, (at, binds, inner.1)))

-- The table lookup finds `t` for a name exactly if some scope of the chain gives the name to `t`, by
-- the last of its tables with that alias or name, or, if it has none, by a relation of that name, and
-- every scope inside of that one has no table and no relation of that name and does not reserve it.
pub lookup_table_iff :
    (chain : List QueryScope) (n : String) (t : Table)
    → (lookup_table chain n ≡ some t) ↔ Resolves n t chain
lookup_table_iff chain n t = (found n t chain, resolved n t chain)

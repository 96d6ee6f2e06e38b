-- ===== src/Catalog/Renames.antt =====
-- RENAME TABLE and EXCHANGE TABLES undo themselves.
use chgen.Base.{
  ◌≡◌, refl, sym, ◌∙◌, ap, subst, String, true, false, ◌||◌, Option, none, some, arith, str_eq,
  eq_iff, ok, or-eq-false, Bool-cases, inl, inr, AllOk, AllOk-reject, AllOk-require, AllOk-ok,
}
use chgen.Base.Dict.{Dict, is_some, has, lookup, assign, delete, lookup-assign, lookup-delete}
use chgen.Catalog.{Table, migrations_table_name}
use chgen.Catalog.Change.{rename_one}
use chgen.Catalog.Sound.{PhysicalSound, has-assign, has-delete}

abbrev pub renamed : String → Table → Table
renamed name t = record t { name = name }

-- What a rename that succeeds has checked and done.
record Renames (external tables : Dict Table) (a b : String) (result : Dict Table) : Type 0 where
  pub table : Table
  pub included : (str_eq a migrations_table_name || str_eq b migrations_table_name) ≡ false
  pub old_free : has external a ≡ false
  pub new_free : has external b ≡ false
  pub source : lookup tables a ≡ some table
  pub target : has tables b ≡ false
  pub done : result ≡ assign (delete tables a) b (renamed b table)

rename_one-Renames :
    (external tables : Dict Table) (a b : String)
    → AllOk (Renames external tables a b) (rename_one external tables a b)
unfolding rename_one
rename_one-Renames external tables a b =
    let P = Renames external tables a b in
    AllOk-reject P (str_eq a migrations_table_name || str_eq b migrations_table_name) _ _
      (λ included. AllOk-reject P (has external a) _ _ (λ old_free.
        AllOk-reject P (has external b) _ _ (λ new_free.
          AllOk-require P (lookup tables a) _ _ (λ t e. AllOk-reject P (has tables b) _ _ (λ absent.
            record {
              table = t;
              included = included;
              old_free = old_free;
              new_free = new_free;
              source = e;
              target = absent;
              done = refl;
            })))))

rename_one-eq-ok :
    (external tables : Dict Table) (a b : String) (t : Table)
    → (str_eq a migrations_table_name || str_eq b migrations_table_name) ≡ false
    → has external a ≡ false
    → has external b ≡ false
    → lookup tables a ≡ some t
    → has tables b ≡ false
    → rename_one external tables a b ≡ ok (assign (delete tables a) b (renamed b t))
unfolding rename_one
rename_one-eq-ok external tables a b t included old_free new_free source target =
    rw (included, old_free, new_free, source, target)

apart_of_absent :
    (tables : Dict Table) (a b : String)
    → has tables a ≡ true
    → has tables b ≡ false
    → str_eq a b ≡ false
apart_of_absent tables a b h k = elim (Bool-cases (str_eq a b)) [
  | inr e ↦ e
  | inl e ↦ let f = subst (λ j. has tables j ≡ true) ((eq_iff a b).0 e) h in cc
]

absent-none : (tables : Dict Table) (k : String) → has tables k ≡ false → lookup tables k ≡ none
absent-none tables k h = go (lookup tables k) h
  where
    go : (o : Option Table) → is_some o ≡ false → o ≡ none
    go none e = refl
    go (some t) e = cc

-- Once a table is renamed, the reverse rename is accepted, and every name then has the table that it
-- had before the first one, if the catalog was sound.
pub rename_one-back :
    (external tables result : Dict Table) (a b : String)
    → PhysicalSound external tables
    → rename_one external tables a b ≡ ok result
    → (back : Dict Table) × (rename_one external result b a ≡ ok back)
      × ((k : String) → lookup back k ≡ lookup tables k)
rename_one-back external tables result a b s h =
    let r =
      AllOk-ok (Renames external tables a b) (rename_one external tables a b)
        (rename_one-Renames external tables a b) h in
    let t = r.table in
    let apart = apart_of_absent tables a b (ap is_some r.source) r.target in
    let at_new : lookup (assign (delete tables a) b (renamed b t)) b ≡ some (renamed b t) =
      lookup-assign (delete tables a) b (renamed b t) b ∙ ground (arith, eq_iff b b) in
    let at_old : has (assign (delete tables a) b (renamed b t)) a ≡ false =
      has-assign (delete tables a) b (renamed b t) a
      ∙ ground (arith, eq_iff a b, eq_iff b a, eq_iff a a, has-delete tables a a) in
    let named : renamed a (renamed b t) ≡ t =
      subst (λ n. renamed n t ≡ t) (s.tables a t r.source).0 refl in
    (
      assign (delete (assign (delete tables a) b (renamed b t)) b) a t,
      subst
          (λ m.
            rename_one external m b a
            ≡ ok (assign (delete (assign (delete tables a) b (renamed b t)) b) a t))
          (sym r.done)
          (rename_one-eq-ok external (assign (delete tables a) b (renamed b t)) b a (renamed b t)
              (let m =
                  or-eq-false (str_eq a migrations_table_name) (str_eq b migrations_table_name)
                    r.included in
                ground arith)
              r.new_free r.old_free at_new at_old
            ∙ rw named),
      λ k.
          lookup-assign (delete (assign (delete tables a) b (renamed b t)) b) a t k
          ∙ ground (
            arith,
            lookup-delete (assign (delete tables a) b (renamed b t)) b k,
            lookup-assign (delete tables a) b (renamed b t) k,
            lookup-delete tables a k,
            eq_iff a k,
            eq_iff b k,
            r.source,
            absent-none tables b r.target,
          ),
    )

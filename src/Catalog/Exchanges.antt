-- ===== src/Catalog/Exchanges.antt =====
-- EXCHANGE TABLES undoes itself.
use chgen.Base.{
  ◌≡◌, refl, sym, ◌∙◌, subst, String, false, some, arith, str_eq, eq_iff, ok, AllOk, AllOk-reject,
  AllOk-bind, AllOk-ok,
}
use chgen.Base.Dict.{lookup, assign, lookup-assign}
use chgen.Catalog.{Table, SchemaCatalogs}
use chgen.Catalog.Change.{exchanged_table, exchange_names}
use chgen.Catalog.Sound.{IsSound}
use chgen.Catalog.Sound.Changes.{Exchangeable, exchanged_table-Exchangeable}
use chgen.Catalog.Renames.{renamed}

abbrev swapped : SchemaCatalogs → String → String → Table → Table → SchemaCatalogs
swapped catalogs a b left right = record catalogs {
  physical = assign (assign catalogs.physical a (renamed a right)) b (renamed b left);
}

-- What an exchange that succeeds has found and done.
record Exchanges (catalogs : SchemaCatalogs) (a b : String) (result : SchemaCatalogs) : Type 0 where
  pub left : Table
  pub right : Table
  pub apart : str_eq a b ≡ false
  pub at_left : Exchangeable catalogs a left
  pub at_right : Exchangeable catalogs b right
  pub done : result ≡ swapped catalogs a b left right

exchange_names-Exchanges :
    (catalogs : SchemaCatalogs) (a b : String)
    → AllOk (Exchanges catalogs a b) (exchange_names catalogs a b)
unfolding exchange_names
exchange_names-Exchanges catalogs a b =
    let P = Exchanges catalogs a b in
    AllOk-reject P (str_eq a b) _ _ (λ apart. AllOk-bind P (exchanged_table catalogs a) _ (λ left e.
      AllOk-bind P (exchanged_table catalogs b) _ (λ right e'. record {
        left = left;
        right = right;
        apart = apart;
        at_left =
            AllOk-ok (Exchangeable catalogs a) (exchanged_table catalogs a)
              (exchanged_table-Exchangeable catalogs a) e;
        at_right =
            AllOk-ok (Exchangeable catalogs b) (exchanged_table catalogs b)
              (exchanged_table-Exchangeable catalogs b) e';
        done = refl;
      })))

exchanged_table-eq-ok :
    (catalogs : SchemaCatalogs) (name : String) (t : Table)
    → Exchangeable catalogs name t
    → exchanged_table catalogs name ≡ ok t
unfolding exchanged_table
exchanged_table-eq-ok catalogs name t (other, free, at) = rw (other, free, at)

exchange_names-eq-ok :
    (catalogs : SchemaCatalogs) (a b : String) (left right : Table)
    → str_eq a b ≡ false
    → Exchangeable catalogs a left
    → Exchangeable catalogs b right
    → exchange_names catalogs a b ≡ ok (swapped catalogs a b left right)
unfolding exchange_names
exchange_names-eq-ok catalogs a b left right apart l r =
    rw (apart, exchanged_table-eq-ok catalogs a left l, exchanged_table-eq-ok catalogs b right r)

-- After an exchange of two tables of a sound catalog the same exchange is accepted once more, and
-- every name then has the table that it had at first, physical or external.
pub exchange_names-twice :
    (catalogs result : SchemaCatalogs) (a b : String)
    → IsSound catalogs
    → exchange_names catalogs a b ≡ ok result
    → (back : SchemaCatalogs) × (exchange_names result a b ≡ ok back)
      × ((k : String) → lookup back.physical k ≡ lookup catalogs.physical k)
      × (back.external ≡ catalogs.external)
exchange_names-twice catalogs result a b s h =
    let r =
      AllOk-ok (Exchanges catalogs a b) (exchange_names catalogs a b)
        (exchange_names-Exchanges catalogs a b) h in
    let (other, free, at_a) = r.at_left in
    let (other', free', at_b) = r.at_right in
    let once = swapped catalogs a b r.left r.right in
    let now_a : lookup once.physical a ≡ some (renamed a r.right) =
      lookup-assign (assign catalogs.physical a (renamed a r.right)) b (renamed b r.left) a
      ∙ ground (
        arith,
        r.apart,
        eq_iff a b,
        eq_iff b a,
        eq_iff a a,
        lookup-assign catalogs.physical a (renamed a r.right) a,
      ) in
    let now_b : lookup once.physical b ≡ some (renamed b r.left) =
      lookup-assign (assign catalogs.physical a (renamed a r.right)) b (renamed b r.left) b
      ∙ ground (arith, eq_iff b b) in
    let left_back : renamed a (renamed b r.left) ≡ r.left =
      subst (λ n. renamed n r.left ≡ r.left) (s.physical.tables a r.left at_a).0 refl in
    let right_back : renamed b (renamed a r.right) ≡ r.right =
      subst (λ n. renamed n r.right ≡ r.right) (s.physical.tables b r.right at_b).0 refl in
    (
      swapped once a b (renamed a r.right) (renamed b r.left),
      subst
          (λ c. exchange_names c a b ≡ ok (swapped once a b (renamed a r.right) (renamed b r.left)))
          (sym r.done)
          (exchange_names-eq-ok once a b (renamed a r.right) (renamed b r.left) r.apart
            (other, free, now_a) (other', free', now_b)),
      λ k.
          lookup-assign (assign once.physical a (renamed a (renamed b r.left))) b
            (renamed b (renamed a r.right)) k
          ∙ ground (
            arith,
            lookup-assign once.physical a (renamed a (renamed b r.left)) k,
            lookup-assign (assign catalogs.physical a (renamed a r.right)) b (renamed b r.left) k,
            lookup-assign catalogs.physical a (renamed a r.right) k,
            eq_iff a k,
            eq_iff b k,
            at_a,
            at_b,
            left_back,
            right_back,
          ),
      refl,
    )

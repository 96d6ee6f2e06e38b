-- ===== src/Composition/Unique.antt =====
-- `appendUnique` is a union that keeps what stood there.
use chgen.Base.{
  ◌≡◌, refl, ◌⊎◌, subst, ◌∙◌, String, Bool, true, false, not, ◌&&◌, ◌||◌, List, [], ◌∷◌, ◌++◌,
  str_eq, eq_iff, Bool-cases, inl, inr, if◌then◌else◌, arith,
}
use chgen.Composition.{contains, append_unique}

contains-append :
    (xs ys : List String) (x : String) → contains (xs ++ ys) x ≡ (contains xs x || contains ys x)
contains-append [] ys x = refl
contains-append (y ∷ xs) ys x = ground (arith, contains-append xs ys x)

-- No text stands twice.
unfoldable pub is_distinct : List String → Bool
is_distinct [] = true
is_distinct (x ∷ xs) = not (contains xs x) && is_distinct xs

is_distinct-snoc :
    (xs : List String) (x : String)
    → is_distinct xs ≡ true
    → contains xs x ≡ false
    → is_distinct (xs ++ (x ∷ [])) ≡ true
unfolding is_distinct
is_distinct-snoc [] x h k = refl
is_distinct-snoc (y ∷ xs) x h k =
    ground (arith, is_distinct-snoc xs x, contains-append xs (x ∷ []) y, eq_iff x y, eq_iff y x)

abbrev grown : List String → String → List String
grown values value = if contains values value then values else values ++ (value ∷ [])

grown-contains :
    (values : List String) (value x : String)
    → contains (grown values value) x ≡ (contains values x || str_eq value x)
grown-contains values value x = elim (Bool-cases (contains values value)) [
  | inl there ↦ rw there (present (Bool-cases (str_eq value x)) there)
  | inr absent ↦ rw absent (contains-append values (value ∷ []) x ∙ ground arith)
]
  where
    present :
        (str_eq value x ≡ true) ⊎ (str_eq value x ≡ false)
        → contains values value ≡ true
        → contains values x ≡ (contains values x || str_eq value x)
    present (inl e) h = rw (subst (λ y. contains values y ≡ true) ((eq_iff value x).0 e) h)
    present (inr e) h = rw e (ground arith)

grown-is_distinct :
    (values : List String) (value : String)
    → is_distinct values ≡ true
    → is_distinct (grown values value) ≡ true
grown-is_distinct values value h = elim (Bool-cases (contains values value)) [
  | inl there ↦ rw there h
  | inr absent ↦ rw absent (is_distinct-snoc values value h absent)
]

-- Of distinct values `appendUnique` makes distinct values, whatever is appended, and a text is one
-- of them exactly if it was a value or is appended.
pub append_unique-union :
    (values more : List String)
    → is_distinct values ≡ true
    → (is_distinct (append_unique values more) ≡ true)
      × ((x : String)
          → contains (append_unique values more) x ≡ (contains values x || contains more x))
unfolding append_unique
append_unique-union values [] h = (h, λ x. ground arith)
append_unique-union values (value ∷ more) h =
    let (d, u) = append_unique-union (grown values value) more (grown-is_distinct values value h) in
    (d, λ x. u x ∙ ground (arith, grown-contains values value x))

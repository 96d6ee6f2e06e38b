-- ===== src/Catalog/Order.antt =====
-- The slice operations on the order of columns, by what they do to the number of times that a name
-- stands in it.
use chgen.Base.{
  ◌≡◌, refl, ap, ◌∙◌, ℕ, zero, suc, ◌+◌, ◌-◌, ◌<◌, ◌≤◌, String, Option, none, some, List, [], ◌∷◌,
  ◌++◌, take, drop, set, length, length-append, if◌then◌else◌, str_eq, eq_iff, arith, Bool-cases,
  inl, inr,
}
use chgen.Catalog.Alter.{map_suc, index_of, copy_within, insert_after, cut_at, remove_name}

unfoldable pub count : String → List String → ℕ
count name [] = 0
count name (x ∷ xs) = let rest = count name xs in if str_eq x name then suc rest else rest

-- One where the name is the other.
abbrev pub one_if : String → String → ℕ
one_if x name = if str_eq x name then 1 else 0

pub count-append :
    (name : String) (xs ys : List String) → count name (xs ++ ys) ≡ count name xs + count name ys
unfolding count
count-append name [] ys = omega arith
count-append name (x ∷ xs) ys = ground (arith, count-append name xs ys)

count-split :
    (name : String) (i : ℕ) (xs : List String)
    → count name (take i xs) + count name (drop i xs) ≡ count name xs
unfolding count
count-split name zero xs = omega arith
count-split name (suc i) [] = omega arith
count-split name (suc i) (x ∷ xs) = ground (arith, count-split name i xs)

pub index_of-lt-length :
    (xs : List String) (name : String) (i : ℕ) → index_of xs name ≡ some i → i < length xs
unfolding index_of
index_of-lt-length [] name i h = cc
index_of-lt-length (x ∷ xs) name i h = go (index_of xs name) (λ j. index_of-lt-length xs name j) h
  where
    go :
        (o : Option ℕ)
        → ((j : ℕ) → o ≡ some j → j < length xs)
        → (if str_eq x name then some 0 else map_suc o) ≡ some i
        → i < suc (length xs)
    go none ih e = ground arith
    go (some j) ih e = ground (arith, ih j refl)

take-append : (n : ℕ) (xs ys : List String) → n ≤ length xs → take n (xs ++ ys) ≡ take n xs
take-append zero xs ys h = refl
take-append (suc n) [] ys h = absurd (omega arith)
take-append (suc n) (x ∷ xs) ys h = ap (λ l. x ∷ l) (take-append n xs ys (omega arith))

drop-append : (n : ℕ) (xs ys : List String) → n ≤ length xs → drop n (xs ++ ys) ≡ drop n xs ++ ys
drop-append zero xs ys h = refl
drop-append (suc n) [] ys h = absurd (omega arith)
drop-append (suc n) (x ∷ xs) ys h = drop-append n xs ys (omega arith)

-- The part that `copy` moves loses only the cell that `append` added.
take-grown : (n : ℕ) (xs : List String) (y : String) → n ≡ length xs → take n (xs ++ (y ∷ [])) ≡ xs
take-grown zero [] y h = refl
take-grown zero (x ∷ xs) y h = absurd (omega arith)
take-grown (suc n) [] y h = absurd (omega arith)
take-grown (suc n) (x ∷ xs) y h = ap (λ l. x ∷ l) (take-grown n xs y (omega arith))

shifted :
    (i : ℕ) (xs : List String) (y name : String)
    → i < length xs
    → set (take (suc (suc i)) (xs ++ (y ∷ [])) ++ drop (suc i) xs) (suc i) name
      ≡ take (suc i) xs ++ (name ∷ drop (suc i) xs)
shifted i [] y name h = absurd (omega arith)
shifted zero (x ∷ []) y name h = refl
shifted zero (x ∷ (z ∷ zs)) y name h = refl
shifted (suc i) (x ∷ xs) y name h = ap (λ l. x ∷ l) (shifted i xs y name (omega arith))

length-drop : (i : ℕ) (xs : List String) → i ≤ length xs → length (drop i xs) + i ≡ length xs
length-drop zero xs h = omega arith
length-drop (suc i) [] h = absurd (omega arith)
length-drop (suc i) (x ∷ xs) h = omega (arith, length-drop i xs (omega arith))

-- The grown and shifted slice of ADD COLUMN AFTER is the order with the name right behind the index.
pub insert_after-eq :
    (xs : List String) (i : ℕ) (name : String)
    → i < length xs
    → insert_after xs i name ≡ take (suc i) xs ++ (name ∷ drop (suc i) xs)
unfolding insert_after copy_within
insert_after-eq xs i name h =
    rw
      (
        drop-append (suc i) xs ("" ∷ []) (omega arith),
        take-grown (length (xs ++ ("" ∷ [])) - (suc (suc i))) (drop (suc i) xs) ""
            (omega (arith, length-append xs ("" ∷ []), length-drop (suc i) xs (omega arith))),
      )
      (shifted i xs "" name h)

pub count-insert_after :
    (xs : List String) (i : ℕ) (name other : String)
    → i < length xs
    → count other (insert_after xs i name) ≡ count other xs + one_if name other
count-insert_after xs i name other h =
    rw (insert_after-eq xs i name h, count-append other (take (suc i) xs))
      (unfold count in ground (arith, count-split other (suc i) xs))

cut_at-cons :
    (x : String) (xs : List String) (o : Option ℕ) (other : String)
    → count other (cut_at (x ∷ xs) (map_suc o))
      ≡ (if str_eq x other then suc (count other (cut_at xs o)) else count other (cut_at xs o))
unfolding count
cut_at-cons x xs none other = refl
cut_at-cons x xs (some i) other = refl

index_of-none : (xs : List String) (name : String) → index_of xs name ≡ none → count name xs ≡ 0
unfolding index_of count
index_of-none [] name h = refl
index_of-none (x ∷ xs) name h = go (index_of xs name) (index_of-none xs name) h
  where
    go :
        (o : Option ℕ)
        → (o ≡ none → count name xs ≡ 0)
        → (if str_eq x name then some 0 else map_suc o) ≡ none
        → (if str_eq x name then suc (count name xs) else count name xs) ≡ 0
    go none ih e = ground (arith, ih refl)
    go (some i) ih e = ground arith

-- Removal at the first index takes away one occurrence of the name, if there is one.
pub count-remove_name :
    (xs : List String) (name other : String)
    → count other (remove_name xs name) ≡ count other xs - one_if name other
unfolding remove_name index_of count
count-remove_name [] name other = omega arith
count-remove_name (x ∷ xs) name other = elim (Bool-cases (str_eq x name)) [
  | inl same ↦ rw same (ground (arith, eq_iff x name))
  | inr differs ↦ rw differs (
      cut_at-cons x xs (index_of xs name) other
      ∙ ground (
        arith,
        eq_iff x name,
        eq_iff x other,
        eq_iff name other,
        count-remove_name xs name other,
      ))
]

-- ===== src/Branches/Zones.antt =====
-- The supertype of date times: the greatest precision, and the timezone of the first branch or of the
-- last one that has it.
use chgen.Base.{
  ◌≡◌, ◌≢◌, refl, sym, ◌∙◌, ap, ℕ, zero, suc, ◌⊎◌, inl, inr, Bool-cases, String, Bool, true, false,
  ◌&&◌, Option, none, some, List, [], ◌∷◌, map, if◌then◌else◌, get_elem?, drop, any, All,
  and-eq-true, ◌==◌, arith,
}
use chgen.Base.Integers.{ℤ, pos, negsuc, itoa_int}
use chgen.ChType.{ChType, ch_type, nil}
use chgen.Branches.DateTimes.{
  DateTimeBranch, date_time, precision, timezone, read_branch, read_branches, max_precision,
  same_int, every_at, last_at, first_timezone, timezone_params, render, conclude_branches,
  date_time_timezone_ch_types,
}
use chgen.Branches.Maximal.{
  AtMost, IsNatural, HasPrecision, later, max_precision-Maximum, same_int-eq, same_int_refl,
}

-- Each type is read as a branch, and as Nullable or not.
abbrev pub Reads : List ChType → List (DateTimeBranch × Bool) → Type 0
Reads [] [] = Unit
Reads (t ∷ ts) (e ∷ es) = (read_branch t ≡ some e) × Reads ts es
Reads [] (e ∷ es) = ⊥
Reads (t ∷ ts) [] = ⊥

abbrev pub branches : List (DateTimeBranch × Bool) → List DateTimeBranch
branches es = map (λ e. e.0) es

-- Every branch has the precision n, and the timezone is that of the first.
abbrev pub FirstOfAll : ℕ → String → List DateTimeBranch → Type 0
FirstOfAll n zone bs =
    (get_elem? (map timezone bs) 0 ≡ some zone) × All (λ c. precision c ≡ pos n) bs

-- The timezone is that of the last branch with the precision n.
abbrev pub LastAt : ℕ → String → List DateTimeBranch → Type 0
LastAt n zone bs =
    (i : ℕ) × ((c : DateTimeBranch) × ((get_elem? bs i ≡ some c)
        × (precision c ≡ pos n)
        × (zone ≡ timezone c)
        × All (λ d. precision d ≢ pos n) (drop (suc i) bs)))

-- A branch has another precision than n.
abbrev pub HasOther : ℕ → List DateTimeBranch → Type 0
HasOther n bs = (j : ℕ) × ((c : DateTimeBranch) × (get_elem? bs j ≡ some c) × (precision c ≢ pos n))

read_branches-eq :
    (types : List ChType) (es : List (DateTimeBranch × Bool))
    → Reads types es
    → read_branches types ≡ some (branches es, any (λ e. e.1) es)
unfolding read_branches
read_branches-eq [] [] h = refl
read_branches-eq (t ∷ ts) (e ∷ es) h = rw (h.0, read_branches-eq ts es h.1) refl
read_branches-eq [] (e ∷ es) h = absurd h
read_branches-eq (t ∷ ts) [] h = absurd h

apart : (p : ℤ) (n : ℕ) → same_int p (pos n) ≡ false → p ≢ pos n
apart p n h e =
    let same : same_int p (pos n) ≡ true = ap (λ q. same_int q (pos n)) e ∙ same_int_refl n in cc

last_at-LastAt :
    (n : ℕ) (last : String) (bs : List DateTimeBranch)
    → (All (λ d. precision d ≢ pos n) bs × (last_at (pos n) last bs ≡ last))
      ⊎ LastAt n (last_at (pos n) last bs) bs
unfolding last_at
last_at-LastAt n last [] = inl (tt, refl)
last_at-LastAt n last (date_time p z ∷ bs) = elim (Bool-cases (same_int p (pos n))) [
  | inr e ↦ rw e (elim (last_at-LastAt n last bs) [
    | inl (all, same) ↦ inl ((apart p n e, all), same)
    | inr (i, found) ↦ inr (suc i, found)
  ])
  | inl e ↦ rw e (elim (last_at-LastAt n z bs) [
    | inl (all, same) ↦ inr (0, (date_time p z, (refl, same_int-eq p n e, same, all)))
    | inr (i, found) ↦ inr (suc i, found)
  ])
]

not-HasPrecision :
    (n : ℕ) (bs : List DateTimeBranch) → All (λ d. precision d ≢ pos n) bs → HasPrecision n bs → ⊥
not-HasPrecision n [] h (i, (c, at, p)) = cc
not-HasPrecision n (b ∷ bs) h (zero, (c, at, p)) =
    let head : b ≡ c = cc in h.0 (ap precision head ∙ p)
not-HasPrecision n (b ∷ bs) h (suc i, found) = not-HasPrecision n bs h.1 (i, found)

every_at-All :
    (n : ℕ) (bs : List DateTimeBranch)
    → every_at (pos n) bs ≡ true
    → All (λ c. precision c ≡ pos n) bs
unfolding every_at
every_at-All n [] h = tt
every_at-All n (b ∷ bs) h =
    let (at, rest) = and-eq-true (same_int (precision b) (pos n)) (every_at (pos n) bs) h in
    (same_int-eq (precision b) n at, every_at-All n bs rest)

every_at-HasOther : (n : ℕ) (bs : List DateTimeBranch) → every_at (pos n) bs ≡ false → HasOther n bs
unfolding every_at
every_at-HasOther n [] h = cc
every_at-HasOther n (b ∷ bs) h = elim (Bool-cases (same_int (precision b) (pos n))) [
  | inr e ↦ (0, (b, refl, apart (precision b) n e))
  | inl e ↦
      let (j, found) = every_at-HasOther n bs (sym (ap (λ q. q && every_at (pos n) bs) e) ∙ h) in
      (suc j, found)
]

chosen : Bool → ℕ → List DateTimeBranch → String
chosen every n bs = if every then first_timezone bs else last_at (pos n) "" bs

conclude_at :
    (n : ℕ) (bs : List DateTimeBranch) (every : Bool)
    → max_precision (negsuc 0) bs ≡ pos n
    → every_at (pos n) bs ≡ every
    → conclude_branches bs ≡ render (pos n) (chosen every n bs)
unfolding conclude_branches chosen
conclude_at n bs every eq e =
    ap (λ best. render best (if every_at best bs then first_timezone bs else last_at best "" bs)) eq
    ∙ ap (λ c. render (pos n) (chosen c n bs)) e

-- The rule that chooses the timezone for the greatest precision n.
abbrev pub IsZone : ℕ → String → List DateTimeBranch → Type 0
IsZone n zone bs = FirstOfAll n zone bs ⊎ (HasOther n bs × LastAt n zone bs)

chosen-IsZone :
    (n : ℕ) (b : DateTimeBranch) (bs : List DateTimeBranch) (every : Bool)
    → HasPrecision n (b ∷ bs)
    → every_at (pos n) (b ∷ bs) ≡ every
    → IsZone n (chosen every n (b ∷ bs)) (b ∷ bs)
unfolding chosen
chosen-IsZone n b bs true has e = inl (refl, every_at-All n (b ∷ bs) e)
chosen-IsZone n b bs false has e = elim (last_at-LastAt n "" (b ∷ bs)) [
  | inl (none_there, same) ↦ absurd (not-HasPrecision n (b ∷ bs) none_there has)
  | inr last ↦ inr (every_at-HasOther n (b ∷ bs) e, last)
]

-- The maximum of natural precisions, from the start that the source has.
greatest :
    (b : DateTimeBranch) (bs : List DateTimeBranch)
    → All (λ c. IsNatural (precision c)) (b ∷ bs)
    → (n : ℕ) × ((max_precision (negsuc 0) (b ∷ bs) ≡ pos n)
        × HasPrecision n (b ∷ bs)
        × All (λ c. AtMost n (precision c)) (b ∷ bs))
unfolding max_precision
greatest (date_time (negsuc p) z) bs h = absurd h.0
greatest (date_time (pos p) z) bs h =
    let (n, (eq, le, all, at)) = max_precision-Maximum p bs h.1 in
    (
      n,
      (
        eq,
        elim at [
          | inl same ↦ (0, (date_time (pos p) z, refl, ap pos (sym same)))
          | inr found ↦ later n (date_time (pos p) z) bs found
        ],
        (le, all),
      ),
    )

-- DateTime at precision 0, and DateTime64 of any other one.
abbrev pub date_time_type : ℕ → String → ChType
date_time_type zero zone = ch_type "DateTime" nil (timezone_params zone) []
date_time_type (suc n) zone =
    ch_type "DateTime64" nil (itoa_int (pos (suc n)) ∷ timezone_params zone) []

render-eq : (n : ℕ) (zone : String) → render (pos n) zone ≡ date_time_type n zone
unfolding render
render-eq zero zone = refl
render-eq (suc n) zone = let other : (suc n == 0) ≡ false = ground arith in rw other refl

concluded : Option (List DateTimeBranch × Bool) → Option (ChType × Bool)
concluded none = none
concluded (some (bs, nullable)) = some (conclude_branches bs, nullable)

concluded-eq :
    (types : List ChType) → date_time_timezone_ch_types types ≡ concluded (read_branches types)
unfolding date_time_timezone_ch_types concluded
concluded-eq types = go (read_branches types)
  where
    go :
        (o : Option (List DateTimeBranch × Bool))
        → elim o [ none ↦ none | some (bs, nullable) ↦ some (conclude_branches bs, nullable) ]
          ≡ concluded o
    go none = refl
    go (some (bs, nullable)) = refl

-- A list of types that are all read as date times, of precisions that are not negative, has a
-- supertype, by n, the greatest of the branches' precisions: DateTime if n is 0, and else DateTime64(n).
-- Its timezone is that of the first branch if all have precision n, and else that of the last branch
-- with precision n. It is to be Nullable exactly if a branch is.
pub date_time_timezone_ch_types-greatest :
    (types : List ChType) (e : DateTimeBranch × Bool) (es : List (DateTimeBranch × Bool))
    → Reads types (e ∷ es)
    → All (λ c. IsNatural (precision c)) (branches (e ∷ es))
    → (n : ℕ) × ((zone : String) × ((date_time_timezone_ch_types types
            ≡ some (date_time_type n zone, any (λ x. x.1) (e ∷ es)))
          × All (λ c. AtMost n (precision c)) (branches (e ∷ es))
          × IsZone n zone (branches (e ∷ es))))
unfolding concluded
date_time_timezone_ch_types-greatest types e es reads natural =
    let bs = branches (e ∷ es) in
    let (n, (eq, has, all)) = greatest e.0 (branches es) natural in
    let every = every_at (pos n) bs in
    (
      n,
      (
        chosen every n bs,
        (
          concluded-eq types
              ∙ ap concluded (read_branches-eq types (e ∷ es) reads)
              ∙ ap (λ (t : ChType). some (t, any (λ x. x.1) (e ∷ es)))
                  (conclude_at n bs every eq refl ∙ render-eq n (chosen every n bs)),
          all,
          chosen-IsZone n e.0 (branches es) every has refl,
        ),
      ),
    )

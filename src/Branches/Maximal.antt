-- ===== src/Branches/Maximal.antt =====
-- The greatest precision of date times.
use chgen.Base.{
  ◌≡◌, refl, sym, ap, ℕ, suc, ◌≤◌, ltb, ltb→lt, ◌⊎◌, inl, inr, ==_iff, Bool-cases, true, some, List,
  [], ◌∷◌, get_elem?, All, arith,
}
use chgen.Base.Integers.{ℤ, pos, negsuc}
use chgen.Branches.DateTimes.{DateTimeBranch, date_time, precision, max_precision, same_int}

-- A precision of at most n that is not negative.
abbrev pub AtMost : ℕ → ℤ → Type 0
AtMost n (pos p) = p ≤ n
AtMost n (negsuc p) = ⊥

-- A precision that is not negative.
abbrev pub IsNatural : ℤ → Type 0
IsNatural (pos p) = Unit
IsNatural (negsuc p) = ⊥

-- A branch of the list with the precision n.
abbrev pub HasPrecision : ℕ → List DateTimeBranch → Type 0
HasPrecision n bs =
    (i : ℕ) × ((b : DateTimeBranch) × (get_elem? bs i ≡ some b) × (precision b ≡ pos n))

pub later :
    (n : ℕ) (b : DateTimeBranch) (bs : List DateTimeBranch)
    → HasPrecision n bs
    → HasPrecision n (b ∷ bs)
later n b bs (i, found) = (suc i, found)

AtMost-trans :
    (m n : ℕ) (bs : List DateTimeBranch)
    → m ≤ n
    → All (λ b. AtMost m (precision b)) bs
    → All (λ b. AtMost n (precision b)) bs
AtMost-trans m n [] le h = tt
AtMost-trans m n (date_time (pos p) z ∷ bs) le h = (omega (arith, h.0), AtMost-trans m n bs le h.1)
AtMost-trans m n (date_time (negsuc p) z ∷ bs) le h = absurd h.0

-- The maximum is a bound, and it is the starting value or the precision of a branch.
abbrev pub Maximum : ℕ → List DateTimeBranch → Type 0
Maximum start bs =
    (n : ℕ) × ((max_precision (pos start) bs ≡ pos n)
      × (start ≤ n)
      × All (λ b. AtMost n (precision b)) bs
      × ((n ≡ start) ⊎ HasPrecision n bs))

pub max_precision-Maximum :
    (start : ℕ) (bs : List DateTimeBranch)
    → All (λ b. IsNatural (precision b)) bs
    → Maximum start bs
unfolding max_precision
max_precision-Maximum start [] h = (start, (refl, omega arith, tt, inl refl))
max_precision-Maximum start (date_time (negsuc p) z ∷ bs) h = absurd h.0
max_precision-Maximum start (date_time (pos p) z ∷ bs) h = elim (Bool-cases (ltb start p)) [
  | inl e ↦
      let (n, (eq, le, all, at)) = max_precision-Maximum p bs h.1 in
      (
        n,
        (
          rw e eq,
          omega (arith, le, ltb→lt start p e),
          (le, all),
          inr (elim at [
            | inl same ↦ (0, (date_time (pos p) z, refl, ap pos (sym same)))
            | inr found ↦ later n (date_time (pos p) z) bs found
          ]),
        ),
      )
  | inr e ↦
      let (n, (eq, le, all, at)) = max_precision-Maximum start bs h.1 in
      (
        n,
        (
          rw e eq,
          le,
          (ground (arith, le, e), all),
          elim at [
            | inl same ↦ inl same
            | inr found ↦ inr (later n (date_time (pos p) z) bs found)
          ],
        ),
      )
]

pub same_int-eq : (p : ℤ) (n : ℕ) → same_int p (pos n) ≡ true → p ≡ pos n
same_int-eq (pos p) n h = ap pos ((==_iff p n).0 h)
same_int-eq (negsuc p) n h = cc

pub same_int_refl : (n : ℕ) → same_int (pos n) (pos n) ≡ true
same_int_refl n = (==_iff n n).1 refl

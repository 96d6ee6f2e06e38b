-- ===== src/Base/Strings.antt =====
-- Go's strings as the code compares them: whole texts, and texts without case. Case folding is that
-- of ASCII, in which ClickHouse type and function names are written.
use Prim.Native.Nat.{ℕ, ◌+◌}
use Prim.Native.Char.{code}
use Prim.Native.String.{String, ◌++◌ as concat}
use Prim.Native.String.append
use mathlib.Core.Path.{◌≡◌, refl, sym, ap, ◌∙◌}
use mathlib.Core.Logic.{◌↔◌, inl, inr}
use mathlib.Core.Bool.{Bool, true, false, ◌&&◌, ◌||◌}
use mathlib.Core.List.{List, [], ◌∷◌, ◌++◌, map}
use mathlib.Core.Option.{Option, none, some}
use native.Mathlib.Omega.{arith}
use chgen.Base.Tests.{leb, ◌==◌, if◌then◌else◌, Bool-cases}
use chgen.Base.Lists.{All}
pub use text.Mathlib.Text.{◌==◌ as str_eq}
pub use text.Mathlib.TextEquality.{eq_iff}

-- The code points of a text: its bytes, if it is ASCII.
abbrev pub codes : String → List ℕ
codes String.[] = []
codes (String.◌∷◌ c s) = code c ∷ codes s

unfoldable pub to_lower : ℕ → ℕ
to_lower c = if leb b'A' c && leb c b'Z' then c + 32 else c

-- strings.ToLower
unfoldable pub lower : String → List ℕ
unfolding to_lower
lower s = map to_lower (codes s)

unfoldable pub codes_eq : List ℕ → List ℕ → Bool
codes_eq [] [] = true
codes_eq (x ∷ xs) (y ∷ ys) = x == y && codes_eq xs ys
codes_eq _ _ = false

pub codes_eq_iff : (xs ys : List ℕ) → (codes_eq xs ys ≡ true) ↔ (xs ≡ ys)
unfolding codes_eq
codes_eq_iff [] [] = (λ _. refl, λ _. refl)
codes_eq_iff (x ∷ xs) (y ∷ ys) = ground (arith, codes_eq_iff xs ys)
codes_eq_iff [] (y ∷ ys) = (λ h. cc, λ h. cc)
codes_eq_iff (x ∷ xs) [] = (λ h. cc, λ h. cc)

-- strings.EqualFold
unfoldable pub fold_eq : String → String → Bool
unfolding lower codes_eq
fold_eq s t = codes_eq (lower s) (lower t)

pub fold_eq_iff : (s t : String) → (fold_eq s t ≡ true) ↔ (lower s ≡ lower t)
unfolding fold_eq
fold_eq_iff s t = codes_eq_iff (lower s) (lower t)

pub fold_eq_refl : (s : String) → fold_eq s s ≡ true
fold_eq_refl s = (fold_eq_iff s s).1 refl

-- A name that folds to one text folds to a second only if the two texts fold alike.
pub fold_eq_join : (n s t : String) → fold_eq n s ≡ true → fold_eq n t ≡ true → fold_eq s t ≡ true
fold_eq_join n s t h k = (fold_eq_iff s t).1 (sym ((fold_eq_iff n s).0 h) ∙ (fold_eq_iff n t).0 k)

pub fold_eq_apart :
    (n s t : String) → fold_eq s t ≡ false → fold_eq n s ≡ true → fold_eq n t ≡ false
fold_eq_apart n s t d h = ground (arith, fold_eq_join n s t h)

-- A switch on the lower-cased name whose cases all give one answer.
unfoldable pub fold_in : String → List String → Bool
fold_in n [] = false
fold_in n (s ∷ ss) = fold_eq n s || fold_in n ss

-- A switch on the lower-cased name, as a table of its cases.
unfoldable pub fold_switch {ℓ} : {A : Type ℓ} → String → List (String × A) → Option A
fold_switch n [] = none
fold_switch n ((s, a) ∷ rest) = if fold_eq n s then some a else fold_switch n rest

-- The code points of two texts, one after the other.
pub codes-concat : (s t : String) → codes (concat s t) ≡ codes s ++ codes t
codes-concat String.[] t = ap codes (append.nil t)
codes-concat (String.◌∷◌ c s) t =
    ap codes (append.cons c s t) ∙ ap (λ cs. code c ∷ cs) (codes-concat s t)

-- Texts that fold alike answer every test alike.
pub fold_eq_same : (n m s : String) → fold_eq n m ≡ true → fold_eq n s ≡ fold_eq m s
unfolding fold_eq
fold_eq_same n m s h = ap (λ l. codes_eq l (lower s)) ((codes_eq_iff (lower n) (lower m)).0 h)

pub fold_in_same :
    (n m : String) (names : List String) → fold_eq n m ≡ true → fold_in n names ≡ fold_in m names
unfolding fold_in
fold_in_same n m [] h = refl
fold_in_same n m (s ∷ ss) h = rw (fold_eq_same n m s h, fold_in_same n m ss h)

pub fold_switch_same {ℓ} :
    {A : Type ℓ} (n m : String) (cases : List (String × A))
    → fold_eq n m ≡ true
    → fold_switch n cases ≡ fold_switch m cases
unfolding fold_switch
fold_switch_same n m [] h = refl
fold_switch_same n m ((s, a) ∷ cases) h = rw (fold_eq_same n m s h, fold_switch_same n m cases h)

-- A property of every case of a switch, of names without case, is one of a name that it takes.
pub fold_in-All {ℓ} :
    (P : String → Type ℓ) (n : String) (names : List String)
    → ((s : String) → fold_eq n s ≡ true → P s → P n)
    → All P names
    → fold_in n names ≡ true
    → P n
unfolding fold_in
fold_in-All P n [] same h k = cc
fold_in-All P n (s ∷ ss) same h k = elim (Bool-cases (fold_eq n s)) [
  | inl e ↦ same s e h.0
  | inr e ↦
      let rest : fold_in n ss ≡ true = sym (ap (λ b. b || fold_in n ss) e) ∙ k in
      fold_in-All P n ss same h.1 rest
]

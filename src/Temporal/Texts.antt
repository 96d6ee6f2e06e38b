-- ===== src/Temporal/Texts.antt =====
-- Which texts of Go types mention time.Time, by a search of the text.
use chgen.Base.{
  ◌≡◌, refl, ◌∙◌, ap, ℕ, String, Bool, true, false, ◌&&◌, ◌||◌, List, [], ◌∷◌, ◌++◌, ◌==◌, All,
  codes, if◌then◌else◌, codes-concat,
}
use Prim.Native.String.{◌++◌ as concat}
use chgen.GoType.{is_pointer, pointer_to, map_text}

unfoldable starts : List ℕ → List ℕ → Bool
starts [] xs = true
starts (p ∷ ps) [] = false
starts (p ∷ ps) (x ∷ xs) = p == x && starts ps xs

-- A list is a part of another.
unfoldable pub occurs : List ℕ → List ℕ → Bool
unfolding starts
occurs p [] = starts p []
occurs p (x ∷ xs) = starts p (x ∷ xs) || occurs p xs

-- The text of a Go type mentions time.Time.
unfoldable pub has_time : String → Bool
unfolding occurs
has_time s = occurs (codes "time.Time") (codes s)

starts-apart :
    (p xs ys : List ℕ) (c : ℕ)
    → All (λ q. (q == c) ≡ false) p
    → starts p (xs ++ c ∷ ys) ≡ starts p xs
unfolding starts
starts-apart [] xs ys c h = refl
starts-apart (q ∷ ps) [] ys c h = rw h.0 refl
starts-apart (q ∷ ps) (x ∷ xs) ys c h = ap (λ b. (q == x) && b) (starts-apart ps xs ys c h.1)

or_assoc : (a b c : Bool) → (a || (b || c)) ≡ ((a || b) || c)
or_assoc true b c = refl
or_assoc false b c = refl

-- What is apart by a code that the part does not have is searched on its own.
occurs-apart :
    (q : ℕ) (ps xs ys : List ℕ) (c : ℕ)
    → All (λ p. (p == c) ≡ false) (q ∷ ps)
    → occurs (q ∷ ps) (xs ++ c ∷ ys) ≡ (occurs (q ∷ ps) xs || occurs (q ∷ ps) ys)
unfolding occurs
occurs-apart q ps [] ys c h = rw h.0 refl
occurs-apart q ps (x ∷ xs) ys c h =
    ap (λ b. b || occurs (q ∷ ps) (xs ++ c ∷ ys)) (starts-apart (q ∷ ps) (x ∷ xs) ys c h)
    ∙ ap (λ b. starts (q ∷ ps) (x ∷ xs) || b) (occurs-apart q ps xs ys c h)
    ∙ or_assoc (starts (q ∷ ps) (x ∷ xs)) (occurs (q ∷ ps) xs) (occurs (q ∷ ps) ys)

abbrev time_codes : List ℕ
time_codes = codes "time.Time"

pub has_time-array : (inner : String) → has_time (concat "[]" inner) ≡ has_time inner
unfolding has_time
has_time-array inner = ap (occurs time_codes) (codes-concat "[]" inner)

pub has_time-pointer_to : (inner : String) → has_time (pointer_to inner) ≡ has_time inner
has_time-pointer_to inner = go (is_pointer inner)
  where
    go : (b : Bool) → has_time (if b then inner else concat "*" inner) ≡ has_time inner
    go true = refl
    go false = unfold has_time in ap (occurs time_codes) (codes-concat "*" inner)

pub has_time-map_text :
    (key value : String) → has_time (map_text key value) ≡ (has_time key || has_time value)
unfolding has_time
has_time-map_text key value =
    ap (occurs time_codes) (
      codes-concat "map[" (concat key (concat "]" value))
      ∙ ap (λ cs. codes "map[" ++ cs)
          (codes-concat key (concat "]" value)
            ∙ ap (λ cs. codes key ++ cs) (codes-concat "]" value)))
    ∙ occurs-apart b't' (codes "ime.Time") (codes key) (codes value) b']'
        (refl, (refl, (refl, (refl, (refl, (refl, (refl, (refl, (refl, tt)))))))))

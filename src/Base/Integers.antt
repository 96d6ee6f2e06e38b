-- ===== src/Base/Integers.antt =====
-- Go's int where it is read from a text and written to one: strings.TrimSpace, strconv.Atoi and
-- strconv.Itoa, on 64 bits. Texts are ASCII.
use chgen.Base.{
  ℕ, zero, suc, ◌+◌, ◌-◌, ◌*◌, ◌/◌, ◌%◌, ◌^◌, String, Bool, true, false, ◌&&◌, ◌||◌, Option, none,
  some, List, [], ◌∷◌, leb, ltb, ◌==◌, if◌then◌else◌, codes,
}
use Prim.Native.String.{◌++◌ as concat}

pub data ℤ : Type 0 where
  pos negsuc : ℕ → ℤ

abbrev pub is_space : ℕ → Bool
is_space c = (leb 9 c && leb c 13) || c == 32

unfoldable pub trim_left : List ℕ → List ℕ
trim_left [] = []
trim_left (c ∷ cs) = let rest = trim_left cs in if is_space c then rest else c ∷ cs

abbrev pub put : ℕ → List ℕ → List ℕ
put c [] = if is_space c then [] else c ∷ []
put c (d ∷ ds) = c ∷ d ∷ ds

unfoldable pub trim_right : List ℕ → List ℕ
trim_right [] = []
trim_right (c ∷ cs) = put c (trim_right cs)

-- The number that a text of digits spells, after the digits read so far.
unfoldable pub read_digits : ℕ → List ℕ → Option ℕ
read_digits acc [] = some acc
read_digits acc (c ∷ cs) =
    let rest = read_digits (acc * 10 + (c - 48)) cs in if leb 48 c && leb c 57 then rest else none

-- At least one digit, and a value within the bound.
abbrev pub read_number : ℕ → List ℕ → Option ℕ
read_number bound [] = none
read_number bound (c ∷ cs) = elim (read_digits 0 (c ∷ cs)) [
  | none ↦ none
  | some n ↦ if leb n bound then some n else none
]

abbrev pub negate : Option ℕ → Option ℤ
negate none = none
negate (some zero) = some (pos 0)
negate (some (suc n)) = some (negsuc n)

abbrev pub positive : Option ℕ → Option ℤ
positive none = none
positive (some n) = some (pos n)

unfoldable pub read_signed : List ℕ → Option ℤ
read_signed [] = none
read_signed (c ∷ cs) =
    if c == b'-'
    then negate (read_number (2 ^ 63) cs)
    else if c == b'+'
    then positive (read_number (2 ^ 63 - 1) cs)
    else positive (read_number (2 ^ 63 - 1) (c ∷ cs))

-- strconv.Atoi(strings.TrimSpace(s)); `none` is its error.
unfoldable pub atoi : String → Option ℤ
unfolding trim_left trim_right read_digits read_signed
atoi s = read_signed (trim_right (trim_left (codes s)))

abbrev pub digit : ℕ → String
digit n =
    if n == 0
    then "0"
    else if n == 1
    then "1"
    else if n == 2
    then "2"
    else if n == 3
    then "3"
    else if n == 4
    then "4"
    else if n == 5
    then "5"
    else if n == 6
    then "6"
    else if n == 7
    then "7"
    else if n == 8
    then "8"
    else "9"

-- `%d` of a number with at most `fuel` digits.
unfoldable pub itoa : ℕ → ℕ → String
itoa zero n = ""
itoa (suc fuel) n =
    let front = itoa fuel (n / 10) in if ltb n 10 then digit n else concat front (digit (n % 10))

-- strconv.Itoa, of a number with at most twenty digits.
unfoldable pub itoa_int : ℤ → String
unfolding itoa
itoa_int (pos n) = itoa 20 n
itoa_int (negsuc n) = concat "-" (itoa 20 (suc n))

abbrev pub gtb : ℤ → ℤ → Bool
gtb (pos a) (pos b) = ltb b a
gtb (pos a) (negsuc b) = true
gtb (negsuc a) (pos b) = false
gtb (negsuc a) (negsuc b) = ltb a b

-- `maxInt` of internal/engine/arithmetic.go.
unfoldable pub max_int : ℤ → ℤ → ℤ
max_int a b = if gtb a b then a else b

-- The sum of two int, with the wrap-around of 64 bits.
unfoldable pub add_int : ℤ → ℤ → ℤ
add_int (pos a) (pos b) =
    if ltb (a + b) (2 ^ 63) then pos (a + b) else negsuc (2 ^ 64 - (a + b) - 1)
add_int (negsuc a) (negsuc b) =
    if ltb (a + b + 1) (2 ^ 63) then negsuc (a + b + 1) else pos (2 ^ 64 - (a + b + 2))
add_int (pos a) (negsuc b) = if ltb b a then pos (a - b - 1) else negsuc (b - a)
add_int (negsuc a) (pos b) = if ltb a b then pos (b - a - 1) else negsuc (a - b)

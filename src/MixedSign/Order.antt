-- ===== src/MixedSign/Order.antt =====
-- The supertype of a list of integers does not depend on the order of the list.
use chgen.Base.{◌≡◌, refl, sym, ap, ◌∙◌, ℕ, Bool, Option, none, some, List, arith}
use mathlib.Core.List.{Permᴰ}
use chgen.ChType.{ChType}
use chgen.Numeric.{Kind, unsigned, signed, float, NumericInfo}
use chgen.MixedSign.{branch_info, mixed_sign_integer_ch_types}
use chgen.MixedSign.Fold.{
  Summary, add_bits, add_branch, step, summary_fold, outcome, empty_summary, mixed_sign-eq-fold,
}

add_bits_comm :
    (s : Summary) (k k' : Kind) (b b' : ℕ) (n n' : Bool)
    → add_bits (add_bits s k b n) k' b' n' ≡ add_bits (add_bits s k' b' n') k b n
unfolding add_bits
add_bits_comm s signed signed b b' n n' = ground arith
add_bits_comm s signed unsigned b b' n n' = ground arith
add_bits_comm s signed float b b' n n' = ground arith
add_bits_comm s unsigned signed b b' n n' = ground arith
add_bits_comm s unsigned unsigned b b' n n' = ground arith
add_bits_comm s unsigned float b b' n n' = ground arith
add_bits_comm s float signed b b' n n' = ground arith
add_bits_comm s float unsigned b b' n n' = ground arith
add_bits_comm s float float b b' n n' = ground arith

step_comm : (s : Option Summary) (a b : ChType) → step (step s a) b ≡ step (step s b) a
unfolding step
step_comm none a b = refl
step_comm (some s) a b = go (branch_info a) (branch_info b) refl refl
  where
    go :
        (x y : Option (NumericInfo × Bool))
        → branch_info a ≡ x
        → branch_info b ≡ y
        → step (add_branch s x) b ≡ step (add_branch s y) a
    go none none e f = refl
    go none (some (j, m)) e f = rw e
    go (some (i, n)) none e f = rw f
    go (some (i, n)) (some (j, m)) e f =
        rw (e, f) (ap some (add_bits_comm s i.kind j.kind i.bits j.bits n m))

summary_fold-perm :
    {xs ys : List ChType}
    → Permᴰ xs ys
    → (s : Option Summary) → summary_fold s xs ≡ summary_fold s ys
unfolding summary_fold
summary_fold-perm Permᴰ.nil s = refl
summary_fold-perm (Permᴰ.cons {a} {b} {l₁} {l₂} e p) s = rw e (summary_fold-perm p (step s b))
summary_fold-perm (Permᴰ.swap {a} {b} {a'} {b'} {l} e f) s =
    rw (e, f) (ap (λ x. summary_fold x l) (step_comm s b' a'))
summary_fold-perm (Permᴰ.trans p q) s = summary_fold-perm p s ∙ summary_fold-perm q s

-- The rule for integers of both signs gives every reordering of its branches one outcome: whether it
-- applies, the supertype or the refusal, and whether it is Nullable.
pub mixed_sign-perm :
    {xs ys : List ChType}
    → Permᴰ xs ys
    → mixed_sign_integer_ch_types xs ≡ mixed_sign_integer_ch_types ys
mixed_sign-perm {xs} {ys} p =
    mixed_sign-eq-fold xs
    ∙ ap outcome (summary_fold-perm p (some empty_summary))
    ∙ sym (mixed_sign-eq-fold ys)

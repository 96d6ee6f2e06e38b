-- ===== src/Supertype/CompatibleFuel.antt =====
-- The recursion of `compatibleNamedArgTypes` of internal/engine/resolver.go ends on its fuel.
use chgen.Base.{
  ◌≡◌, refl, arith, ◌≤◌, ◌<◌, ℕ, zero, suc, ◌+◌, Bool, true, false, Option, none, some,
}
use chgen.ChType.{ChType, ChTypes, nil, cons, params, unwrap_as, size, sizes}
use chgen.Supertype.Sizes.{IsPart, unwrap_as-IsPart, sizes-params}
use chgen.Supertype.Compatible.{
  every_pair, same_shape, compatible_body, compatible_step, compatible_fuel,
  compatible_named_arg_types,
}

-- The parts that the function descends to are smaller.
every_pair-agrees :
    (n : ℕ) (f g : ChType → ChType → Bool)
    → ((l r : ChType) → size l + size r < n → f l r ≡ g l r)
    → (ts us : ChTypes) → sizes ts + sizes us < n
    → every_pair f ts us ≡ every_pair g ts us
unfolding every_pair size
every_pair-agrees n f g h nil us le = refl
every_pair-agrees n f g h (cons t ts) nil le = refl
every_pair-agrees n f g h (cons t ts) (cons u us) le =
    rw (h t u (omega arith), every_pair-agrees n f g h ts us (omega arith))

step-agrees :
    (f g : ChType → ChType → Bool) (l r : ChType)
    → ((t u : ChType) → size t + size u < size l + size r → f t u ≡ g t u)
    → compatible_step f l r ≡ compatible_step g l r
unfolding compatible_step
step-agrees f g l r h =
    go (unwrap_as "LowCardinality" l) (unwrap_as "LowCardinality" r) (unwrap_as "Nullable" l)
      (unwrap_as "Nullable" r) (unwrap_as-IsPart _ l) (unwrap_as-IsPart _ r) (unwrap_as-IsPart _ l)
      (unwrap_as-IsPart _ r) (same_shape l r)
  where
    parts : every_pair f (params l) (params r) ≡ every_pair g (params l) (params r)
    parts =
        every_pair-agrees (size l + size r) f g h (params l) (params r)
          (omega (arith, sizes-params l, sizes-params r))

    go :
        (a b c d : Option ChType)
        → IsPart l a
        → IsPart r b
        → IsPart l c
        → IsPart r d
        → (s : Bool) → compatible_body f l r a b c d s ≡ compatible_body g l r a b c d s
    go (some t) b c d ha hb hc hd s = h t r (omega arith)
    go none (some u) c d ha hb hc hd s = h l u (omega arith)
    go none none c d ha hb hc hd true = rw parts
    go none none (some t) d ha hb hc hd false = h t r (omega arith)
    go none none none (some u) ha hb hc hd false = h l u (omega arith)
    go none none none none ha hb hc hd false = refl

-- The body of `compatibleNamedArgTypes`, so many recursive calls deep, and then any other function.
unfoldable pub run_compatible : ℕ → (ChType → ChType → Bool) → ChType → ChType → Bool
run_compatible zero stop left right = stop left right
run_compatible (suc n) stop left right = compatible_step (run_compatible n stop) left right

run-agrees :
    (n g : ℕ) (stop : ChType → ChType → Bool) (l r : ChType)
    → size l + size r ≤ n
    → size l + size r ≤ g
    → run_compatible n stop l r ≡ compatible_fuel g l r
unfolding run_compatible compatible_fuel
run-agrees zero g stop l r h k = absurd (omega (arith, sizes-params l))
run-agrees (suc n) zero stop l r h k = absurd (omega (arith, sizes-params l))
run-agrees (suc n) (suc g) stop l r h k =
    step-agrees (run_compatible n stop) (compatible_fuel g) l r
      (λ t u le. run-agrees n g stop t u (omega arith) (omega arith))

-- The recursion of `compatibleNamedArgTypes` ends: its body, with as many levels of recursive calls as
-- the sizes of the two types or more, gives the answer whatever is called below these levels, since
-- nothing is.
pub compatible_named_arg_types-run_compatible :
    (n : ℕ) (stop : ChType → ChType → Bool) (left right : ChType)
    → size left + size right ≤ n
    → run_compatible n stop left right ≡ compatible_named_arg_types left right
unfolding compatible_named_arg_types
compatible_named_arg_types-run_compatible n stop left right enough =
    run-agrees n (size left + size right) stop left right enough (omega arith)

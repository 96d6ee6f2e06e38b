-- ===== src/Supertype/Nullability.antt =====
-- The supertype of two branches is Nullable exactly when a branch is.
use chgen.Base.{
  ◌≡◌, refl, ℕ, zero, suc, ◌+◌, Bool, true, false, ◌||◌, ◌&&◌, not, Option, none, some,
  if◌then◌else◌, ok, AllOk, AllOk-bind, AllOk-ok, Bool-cases, or-eq-false, and-eq-true,
  fold_eq_refl, ap, inl, inr, String, fold_eq, List, sym, ◌∙◌,
}
use chgen.ChType.{ChType, name, params, unwrap_as, size}
use chgen.Wrappers.{can_be_inside_nullable, wrap_nullable}
use chgen.LowCardinality.{strip_deep}
use chgen.Transport.Marker.{simple_aggregate_wrapper_inner}
use chgen.Supertype.Shapes.{is_untyped_null, common_with_null_literal}
use chgen.Supertype.Rule.{Holds, below-keeps}
use chgen.Supertype.Step.{
  Common, container, join_elements, peel_nullable, peeled, restore_nullable, common_below,
  common_unmarked, common_stripped, common_simple_aggregate, marked_join, or_unmarked, common_fuel,
  common_ch_type,
}

abbrev pub is_nullable : ChType → Bool
is_nullable t = fold_eq (name t) "Nullable"

abbrev IsBelow : ChType → Type 0
IsBelow t = is_nullable t ≡ false

-- One of the two is Nullable exactly when the third is.
abbrev pub Agrees : ChType → ChType → ChType → Type 0
Agrees l r t = is_nullable t ≡ (is_nullable l || is_nullable r)

module _ (again : ChType → ChType → Common) where
  container-IsBelow :
      (n : String) (names : List String) (l r : ChType)
      → fold_eq n "Nullable" ≡ false
      → fold_eq n "LowCardinality" ≡ false
      → AllOk IsBelow (container again n names l r)
  container-IsBelow n names l r d _ =
      AllOk-bind IsBelow (join_elements again (params l) (params r)) _ (λ vs e. d)

  below-IsBelow : (l r : ChType) → IsBelow l → IsBelow r → AllOk IsBelow (common_below again l r)
  below-IsBelow l r h k = below-keeps IsBelow (λ t s. s.1) again container-IsBelow l r h k

  -- The flag of a peeled type, which without it is the type itself.
  Peeled : ChType → ChType × Bool → Type 0
  Peeled t p = (p.1 ≡ is_nullable t) × (p.1 ≡ false → p.0 ≡ t)

  peel_nullable-flag : (t : ChType) → AllOk (Peeled t) (peel_nullable t)
  unfolding peel_nullable Peeled
  peel_nullable-flag t = go (fold_eq (name t) "Nullable") (unwrap_as "Nullable" t) refl
    where
      go :
          (b : Bool) (o : Option ChType)
          → is_nullable t ≡ b
          → AllOk (Peeled t) (if b then peeled o else ok (t, false))
      go false o e = (sym e, λ _. refl)
      go true none e = tt
      go true (some u) e = (sym e, λ h. cc)

  restored :
      (a b : Bool) (t : ChType)
      → ((a || b) ≡ false → IsBelow t)
      → is_nullable (restore_nullable (a || b) t) ≡ (a || b)
  unfolding fold_eq
  restored true b t h = refl
  restored false true t h = refl
  restored false false t h = h refl

  unmarked-Agrees : (l r : ChType) → AllOk (Agrees l r) (common_unmarked again l r)
  unfolding common_unmarked Peeled
  unmarked-Agrees l r = AllOk-bind (Agrees l r) (peel_nullable l) _ (λ p e.
      AllOk-bind (Agrees l r) (peel_nullable r) _ (λ q f.
        AllOk-bind (Agrees l r) (common_below again p.0 q.0) _ (λ t g.
          let left = AllOk-ok (Peeled l) (peel_nullable l) (peel_nullable-flag l) e in
          let right = AllOk-ok (Peeled r) (peel_nullable r) (peel_nullable-flag r) f in
          conclude p q t left right g)))
    where
      conclude :
          (p q : ChType × Bool) (t : ChType)
          → Peeled l p
          → Peeled r q
          → common_below again p.0 q.0 ≡ ok t
          → Agrees l r (restore_nullable (p.1 || q.1) t)
      conclude p q t left right g =
          restored p.1 q.1 t (λ none.
            let (a, b) = or-eq-false p.1 q.1 none in
            AllOk-ok IsBelow (common_below again p.0 q.0)
              (below-IsBelow p.0 q.0 (ap is_nullable (left.1 a) ∙ sym left.0 ∙ a)
                (ap is_nullable (right.1 b) ∙ sym right.0 ∙ b))
              g)
          ∙ rw (left.0, right.0)

untyped_null-is_nullable : (t : ChType) → is_untyped_null t ≡ true → is_nullable t ≡ true
unfolding is_untyped_null
untyped_null-is_nullable t h = (and-eq-true _ _ h).0

wrap_nullable-is_nullable :
    (t : ChType) → can_be_inside_nullable t ≡ true → is_nullable (wrap_nullable t) ≡ true
unfolding wrap_nullable
wrap_nullable-is_nullable t h = elim (Bool-cases (is_nullable t)) [
  | inl e ↦ rw (e, e)
  | inr e ↦ rw (e, h) (fold_eq_refl "Nullable")
]

or_true : (b : Bool) → (b || true) ≡ true
or_true true = refl
or_true false = refl

null_literal-Agrees : (l r : ChType) → Holds (Agrees l r) (common_with_null_literal l r)
unfolding common_with_null_literal
null_literal-Agrees l r = go _ _ refl refl _ _ refl refl
  where
    go :
        (a b : Bool)
        → is_untyped_null l ≡ a
        → is_untyped_null r ≡ b
        → (c d : Bool) → can_be_inside_nullable l ≡ c
        → can_be_inside_nullable r ≡ d
        → Holds (Agrees l r) (
            if a && b
            then some l
            else if a
            then (if not d then none else some (wrap_nullable r))
            else if b
            then (if not c then none else some (wrap_nullable l))
            else none)
    go true true ea eb c d ec ed = let n = untyped_null-is_nullable l ea in n ∙ sym (rw n)
    go true false ea eb c true ec ed =
        wrap_nullable-is_nullable r ed ∙ sym (rw (untyped_null-is_nullable l ea))
    go true false ea eb c false ec ed = tt
    go false true ea eb true d ec ed =
        wrap_nullable-is_nullable l ec
        ∙ sym (rw (untyped_null-is_nullable r eb) (or_true (is_nullable l)))
    go false true ea eb false d ec ed = tt
    go false false ea eb c d ec ed = tt

-- Neither type is a SimpleAggregateFunction.
abbrev pub Unmarked : ChType → Type 0
Unmarked t = simple_aggregate_wrapper_inner t ≡ none

stripped-Agrees :
    (again : ChType → ChType → Common) (l r : ChType)
    → Unmarked l
    → Unmarked r
    → AllOk (Agrees l r) (common_stripped again l r)
unfolding common_stripped common_simple_aggregate
stripped-Agrees again l r h k =
    go (common_with_null_literal l r) (null_literal-Agrees l r) (simple_aggregate_wrapper_inner l)
      (simple_aggregate_wrapper_inner r) h k
  where
    go :
        (o : Option ChType)
        → Holds (Agrees l r) o
        → (m n : Option ChType) → m ≡ none
        → n ≡ none
        → AllOk
            (Agrees l r)
            (elim o [ some t ↦ ok t | none ↦ or_unmarked again l r (marked_join again l r m n) ])
    go (some t) p m n h k = p
    go none p none none h k = unmarked-Agrees again l r
    go none p (some a) n h k = cc
    go none p none (some b) h k = cc

-- Where no branch is a SimpleAggregateFunction, the common type of two branches is Nullable exactly
-- when, without LowCardinality, one of them is.
pub common_ch_type-is_nullable :
    (left right : ChType)
    → Unmarked (strip_deep left)
    → Unmarked (strip_deep right)
    → AllOk
        (λ t. is_nullable t ≡ (is_nullable (strip_deep left) || is_nullable (strip_deep right)))
        (common_ch_type left right)
unfolding common_ch_type common_fuel
common_ch_type-is_nullable left right h k = go (size left + size right)
  where
    go : (f : ℕ) → AllOk (Agrees (strip_deep left) (strip_deep right)) (common_fuel f left right)
    go zero = tt
    go (suc f) = stripped-Agrees (common_fuel f) (strip_deep left) (strip_deep right) h k

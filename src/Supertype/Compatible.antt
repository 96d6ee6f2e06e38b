-- ===== src/Supertype/Compatible.antt =====
-- `compatibleNamedArgTypes` of internal/engine/resolver.go, with fuel, of which the two sizes are
-- enough.
use chgen.Base.{
  ℕ, zero, suc, ◌+◌, String, Bool, true, false, ◌&&◌, Option, none, some, List, [], ◌∷◌, fold_eq,
  str_eq,
}
use chgen.ChType.{ChType, ChTypes, nil, cons, name, params, literal_params, unwrap_as, size}

-- The texts of two lists of one length, compared one by one.
unfoldable pub same_texts : List String → List String → Bool
same_texts [] [] = true
same_texts (s ∷ ss) (t ∷ ts) = str_eq s t && same_texts ss ts
same_texts _ _ = false

unfoldable pub same_lengths : ChTypes → ChTypes → Bool
same_lengths nil nil = true
same_lengths (cons t ts) (cons u us) = same_lengths ts us
same_lengths _ _ = false

unfoldable pub every_pair : (ChType → ChType → Bool) → ChTypes → ChTypes → Bool
every_pair test (cons t ts) (cons u us) = test t u && every_pair test ts us
every_pair test nil us = true
every_pair test (cons t ts) nil = true

abbrev pub same_list_lengths : List String → List String → Bool
same_list_lengths [] [] = true
same_list_lengths (s ∷ ss) (t ∷ ts) = same_list_lengths ss ts
same_list_lengths _ _ = false

-- One name and as many arguments of either sort.
unfoldable pub same_shape : ChType → ChType → Bool
unfolding same_lengths
same_shape left right =
    fold_eq (name left) (name right)
    && (same_list_lengths (literal_params left) (literal_params right)
        && same_lengths (params left) (params right))

-- The body of the function, by what the wrappers of the two types hold, in which `again` is the
-- function itself.
abbrev pub compatible_body :
    (ChType → ChType → Bool)
    → ChType
    → ChType
    → Option ChType
    → Option ChType
    → Option ChType
    → Option ChType
    → Bool
    → Bool
compatible_body again left right (some l) _ _ _ same = again l right
compatible_body again left right none (some r) _ _ same = again left r
compatible_body again left right none none _ _ true =
    same_texts (literal_params left) (literal_params right)
    && every_pair again (params left) (params right)
compatible_body again left right none none (some l) _ false = again l right
compatible_body again left right none none none (some r) false = again left r
compatible_body again left right none none none none false = false

unfoldable pub compatible_step : (ChType → ChType → Bool) → ChType → ChType → Bool
unfolding same_shape same_texts every_pair
compatible_step again left right =
    compatible_body again left right (unwrap_as "LowCardinality" left)
      (unwrap_as "LowCardinality" right) (unwrap_as "Nullable" left) (unwrap_as "Nullable" right)
      (same_shape left right)

unfoldable pub compatible_fuel : ℕ → ChType → ChType → Bool
unfolding compatible_step
compatible_fuel zero left right = false
compatible_fuel (suc f) left right = compatible_step (compatible_fuel f) left right

unfoldable pub compatible_named_arg_types : ChType → ChType → Bool
unfolding compatible_fuel
compatible_named_arg_types left right = compatible_fuel (size left + size right) left right

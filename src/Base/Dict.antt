-- ===== src/Base/Dict.antt =====
-- Go's map with string keys, as an association list: `lookup m k` is the two-valued index,
-- `assign m k v` the assignment `m[k] = v`, `delete m k` the built-in, `has m k` the membership test.
use Prim.Native.String.{String}
use mathlib.Core.Path.{◌≡◌, refl}
use mathlib.Core.Bool.{Bool, true, false}
use mathlib.Core.List.{List, [], ◌∷◌}
use mathlib.Core.Option.{Option, none, some}
use native.Mathlib.Omega.{arith}
use chgen.Base.Tests.{if◌then◌else◌}
use chgen.Base.Strings.{str_eq, eq_iff}

abbrev pub Dict {ℓ} : Type ℓ → Type ℓ
Dict V = List (String × V)

abbrev pub is_some {ℓ} : {A : Type ℓ} → Option A → Bool
is_some (some a) = true
is_some none = false

module _ {ℓ} {V : Type ℓ} where
  unfoldable pub lookup : Dict V → String → Option V
  lookup ((key, value) ∷ rest) k = if str_eq key k then some value else lookup rest k
  lookup [] k = none

  abbrev pub has : Dict V → String → Bool
  has m k = is_some (lookup m k)

  unfoldable pub assign : Dict V → String → V → Dict V
  assign ((key, value) ∷ rest) k v =
      if str_eq key k then (key, v) ∷ rest else (key, value) ∷ assign rest k v
  assign [] k v = (k, v) ∷ []

  unfoldable pub delete : Dict V → String → Dict V
  delete ((key, value) ∷ rest) k =
      let others = delete rest k in if str_eq key k then others else (key, value) ∷ others
  delete [] k = []

  -- What a later index finds after an assignment, and after a deletion.
  pub lookup-assign :
      (m : Dict V) (k : String) (v : V) (other : String)
      → lookup (assign m k v) other ≡ (if str_eq k other then some v else lookup m other)
  unfolding lookup assign
  lookup-assign [] k v other = refl
  lookup-assign ((key, value) ∷ rest) k v other =
      ground (arith, lookup-assign rest k v other, eq_iff key k, eq_iff key other, eq_iff k other)

  pub lookup-delete :
      (m : Dict V) (k other : String)
      → lookup (delete m k) other ≡ (if str_eq k other then none else lookup m other)
  unfolding lookup delete
  lookup-delete [] k other = ground arith
  lookup-delete ((key, value) ∷ rest) k other =
      ground (arith, lookup-delete rest k other, eq_iff key k, eq_iff key other, eq_iff k other)

pub ruleset dict_laws = (lookup-assign, lookup-delete)

-- ===== src/ChType.antt =====
-- `CHType` of internal/engine/schema.go: a ClickHouse type and its nested arguments, and the node
-- tests that the engine makes on it. A list of types is a data type of its own.
pub mod Nodes
pub mod Text
use chgen.Base.{
  ℕ, suc, ◌+◌, String, Bool, true, false, Option, none, some, List, [], if◌then◌else◌, fold_eq,
}

-- `ch_type name params literal_params param_names`
mutual
  pub data ChType : Type 0 where
    ch_type : String → ChTypes → List String → List String → ChType

  pub data ChTypes : Type 0 where
    nil : ChTypes
    cons : ChType → ChTypes → ChTypes

abbrev pub name : ChType → String
name (ch_type n ps ls ns) = n

abbrev pub params : ChType → ChTypes
params (ch_type n ps ls ns) = ps

abbrev pub literal_params : ChType → List String
literal_params (ch_type n ps ls ns) = ls

abbrev pub param_names : ChType → List String
param_names (ch_type n ps ls ns) = ns

abbrev pub length : ChTypes → ℕ
length nil = 0
length (cons t ts) = suc (length ts)

-- CHType{Name: n}
abbrev pub named : String → ChType
named n = ch_type n nil [] []

-- CHType{Name: n, Params: []CHType{t}}
abbrev pub wrap : String → ChType → ChType
wrap n t = ch_type n (cons t nil) [] []

-- `strings.EqualFold(t.Name, n) && len(t.Params) == 1`, with the parameter that the code then reads
unfoldable pub unwrap_as : String → ChType → Option ChType
unwrap_as w (ch_type n (cons t nil) ls ns) = if fold_eq n w then some t else none
unwrap_as w (ch_type n nil ls ns) = none
unwrap_as w (ch_type n (cons t (cons u us)) ls ns) = none

-- The nodes of a type.
unfoldable mutual
  pub size : ChType → ℕ
  size (ch_type n ps ls ns) = suc (sizes ps)

  pub sizes : ChTypes → ℕ
  sizes nil = 0
  sizes (cons t ts) = size t + sizes ts

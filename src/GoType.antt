-- ===== src/GoType.antt =====
-- The Go type of a ClickHouse type: `goType` and `containsWideInteger` of internal/engine/gotype.go.
-- An error is modelled by its kind: the type that a message names is left out.
pub mod Names
pub mod Wrappers
pub mod Pointers
use chgen.Base.{
  ℕ, String, Bool, true, false, ◌||◌, Option, none, some, List, [], ◌∷◌, ◌==◌, if◌then◌else◌,
  str_eq, codes, fold_in, fold_switch, Result, ok, err, ◌>>=◌, reject,
}
use Prim.Native.String.{◌++◌ as concat}
use chgen.ChType.{ChType, ch_type, ChTypes, nil, cons}
use Names.{canonical_ch_type_name}

pub data GoError : Type 0 where
  argument_count no_mapping measured_refusal wide_integer_in_map nullable_map_key ip_map_key :
      GoError

-- What the switch on the name does.
pub data GoRule : Type 0 where
  low_cardinality nullable simple_aggregate array map : GoRule
  refuse : GoError → GoRule
  plain : String → GoRule

abbrev pub go_rules : List (String × GoRule)
go_rules =
    ("lowcardinality", low_cardinality)
    ∷ ("nullable", nullable)
    ∷ ("aggregatefunction", refuse no_mapping)
    ∷ ("simpleaggregatefunction", simple_aggregate)
    ∷ ("int128", refuse measured_refusal)
    ∷ ("uint128", refuse measured_refusal)
    ∷ ("int256", refuse measured_refusal)
    ∷ ("uint256", refuse measured_refusal)
    ∷ ("tuple", refuse no_mapping)
    ∷ ("variant", refuse measured_refusal)
    ∷ ("dynamic", refuse measured_refusal)
    ∷ ("json", refuse measured_refusal)
    ∷ ("point", refuse measured_refusal)
    ∷ ("ring", refuse measured_refusal)
    ∷ ("linestring", refuse measured_refusal)
    ∷ ("polygon", refuse measured_refusal)
    ∷ ("multipolygon", refuse measured_refusal)
    ∷ ("multilinestring", refuse measured_refusal)
    ∷ ("string", plain "string")
    ∷ ("fixedstring", plain "string")
    ∷ ("enum", refuse measured_refusal)
    ∷ ("enum8", plain "string")
    ∷ ("enum16", plain "string")
    ∷ ("uuid", plain "uuid.UUID")
    ∷ ("ipv4", plain "net.IP")
    ∷ ("ipv6", plain "net.IP")
    ∷ ("bool", plain "bool")
    ∷ ("uint8", plain "uint8")
    ∷ ("uint16", plain "uint16")
    ∷ ("uint32", plain "uint32")
    ∷ ("uint64", plain "uint64")
    ∷ ("int8", plain "int8")
    ∷ ("int16", plain "int16")
    ∷ ("int32", plain "int32")
    ∷ ("int64", plain "int64")
    ∷ ("float32", plain "float32")
    ∷ ("float64", plain "float64")
    ∷ ("decimal", plain "decimal.Decimal")
    ∷ ("decimal32", plain "decimal.Decimal")
    ∷ ("decimal64", plain "decimal.Decimal")
    ∷ ("decimal128", plain "decimal.Decimal")
    ∷ ("decimal256", plain "decimal.Decimal")
    ∷ ("date", plain "time.Time")
    ∷ ("date32", plain "time.Time")
    ∷ ("datetime", plain "time.Time")
    ∷ ("datetime64", plain "time.Time")
    ∷ ("array", array)
    ∷ ("map", map)
    ∷ []

abbrev pub or_default : Option GoRule → GoRule
or_default none = refuse no_mapping
or_default (some rule) = rule

unfoldable pub rule_of : String → GoRule
rule_of n = or_default (fold_switch (canonical_ch_type_name n) go_rules)

unfoldable pub is_wide_name : String → Bool
is_wide_name n =
    fold_in (canonical_ch_type_name n) ("int128" ∷ "uint128" ∷ "int256" ∷ "uint256" ∷ [])

unfoldable mutual
  pub contains_wide_integer : ChType → Bool
  contains_wide_integer (ch_type n ps ls ns) = is_wide_name n || contain_wide_integer ps

  pub contain_wide_integer : ChTypes → Bool
  contain_wide_integer nil = false
  contain_wide_integer (cons t ts) = contains_wide_integer t || contain_wide_integer ts

-- strings.HasPrefix(s, "*")
abbrev first_is_star : List ℕ → Bool
first_is_star [] = false
first_is_star (c ∷ cs) = c == b'*'

unfoldable pub is_pointer : String → Bool
is_pointer s = first_is_star (codes s)

abbrev pub GoText : Type 0
GoText = Result GoError String

abbrev pub pointer_to : String → String
pointer_to inner = if is_pointer inner then inner else concat "*" inner

abbrev pub map_text : String → String → String
map_text key value = concat "map[" (concat key (concat "]" value))

abbrev pub map_go_type : Bool → GoText → GoText → GoText
map_go_type wide key_type value_type = reject wide wide_integer_in_map (
    key_type >>= λ key.
    reject (is_pointer key) nullable_map_key
      (reject (str_eq key "net.IP") ip_map_key (value_type >>= λ value. ok (map_text key value))))

-- One case of the switch, by the Go types of the parameters; `wide` tells whether a parameter contains
-- a wide integer.
abbrev pub apply_rule : GoRule → Bool → List GoText → GoText
apply_rule low_cardinality wide (t ∷ []) = t
apply_rule nullable wide (t ∷ []) = t >>= λ inner. ok (pointer_to inner)
apply_rule simple_aggregate wide (f ∷ t ∷ []) = t
apply_rule array wide (t ∷ []) = t >>= λ inner. ok (concat "[]" inner)
apply_rule map wide (k ∷ v ∷ []) = map_go_type wide k v
apply_rule (refuse e) wide ts = err e
apply_rule (plain text) wide ts = ok text
apply_rule _ wide ts = err argument_count

unfoldable mutual
  pub go_type : ChType → GoText
  go_type (ch_type n ps ls ns) = apply_rule (rule_of n) (contain_wide_integer ps) (go_types ps)

  pub go_types : ChTypes → List GoText
  go_types nil = []
  go_types (cons t ts) = go_type t ∷ go_types ts

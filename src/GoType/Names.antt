-- ===== src/GoType/Names.antt =====
-- `canonicalCHTypeName` of internal/engine/schema.go: aliases of type names, without case and with any
-- white space between words.
use chgen.Base.{ℕ, String, Option, none, some, List, [], ◌∷◌, if◌then◌else◌, codes_eq, lower}
use chgen.Base.Integers.{is_space, trim_left, trim_right}

-- strings.Join(strings.Fields(s), " ")
unfoldable pub collapse : List ℕ → List ℕ
collapse [] = []
collapse (c ∷ []) = c ∷ []
collapse (c ∷ d ∷ rest) =
    let after = collapse (d ∷ rest) in
    if is_space c then (if is_space d then after else 32 ∷ after) else c ∷ after

unfoldable pub join_fields : List ℕ → List ℕ
unfolding collapse trim_left trim_right
join_fields cs = trim_right (collapse (trim_left cs))

-- A Go map from lower-case names.
unfoldable pub name_table : List ℕ → List (String × String) → Option String
name_table key [] = none
name_table key ((s, t) ∷ rest) =
    let found = name_table key rest in if codes_eq key (lower s) then some t else found

abbrev pub aliases : List (String × String)
aliases =
    ("int", "Int32")
    ∷ ("int signed", "Int32")
    ∷ ("integer", "Int32")
    ∷ ("integer signed", "Int32")
    ∷ ("mediumint", "Int32")
    ∷ ("mediumint signed", "Int32")
    ∷ ("int unsigned", "UInt32")
    ∷ ("integer unsigned", "UInt32")
    ∷ ("mediumint unsigned", "UInt32")
    ∷ ("bigint", "Int64")
    ∷ ("bigint signed", "Int64")
    ∷ ("signed", "Int64")
    ∷ ("bigint unsigned", "UInt64")
    ∷ ("unsigned", "UInt64")
    ∷ ("bit", "UInt64")
    ∷ ("smallint", "Int16")
    ∷ ("smallint signed", "Int16")
    ∷ ("smallint unsigned", "UInt16")
    ∷ ("tinyint", "Int8")
    ∷ ("tinyint signed", "Int8")
    ∷ ("int1", "Int8")
    ∷ ("int1 signed", "Int8")
    ∷ ("byte", "Int8")
    ∷ ("tinyint unsigned", "UInt8")
    ∷ ("int1 unsigned", "UInt8")
    ∷ ("float", "Float32")
    ∷ ("real", "Float32")
    ∷ ("single", "Float32")
    ∷ ("double", "Float64")
    ∷ ("double precision", "Float64")
    ∷ ("year", "UInt16")
    ∷ ("bool", "Bool")
    ∷ ("boolean", "Bool")
    ∷ ("dec", "Decimal")
    ∷ ("fixed", "Decimal")
    ∷ ("numeric", "Decimal")
    ∷ []

abbrev pub canonical_names : List (String × String)
canonical_names =
    ("array", "Array")
    ∷ ("map", "Map")
    ∷ ("nullable", "Nullable")
    ∷ ("lowcardinality", "LowCardinality")
    ∷ ("string", "String")
    ∷ ("fixedstring", "FixedString")
    ∷ ("bool", "Bool")
    ∷ ("date", "Date")
    ∷ ("date32", "Date32")
    ∷ ("datetime", "DateTime")
    ∷ ("datetime64", "DateTime64")
    ∷ ("uuid", "UUID")
    ∷ ("ipv4", "IPv4")
    ∷ ("ipv6", "IPv6")
    ∷ ("decimal", "Decimal")
    ∷ ("decimal32", "Decimal32")
    ∷ ("decimal64", "Decimal64")
    ∷ ("decimal128", "Decimal128")
    ∷ ("decimal256", "Decimal256")
    ∷ ("enum", "Enum")
    ∷ ("enum8", "Enum8")
    ∷ ("enum16", "Enum16")
    ∷ []

abbrev or_name : String → Option String → Option String → String
or_name n (some alias) canonical = alias
or_name n none (some canonical) = canonical
or_name n none none = n

-- The canonical name, by the code points of the lower-case name.
unfoldable pub canonical_of : List ℕ → String → String
unfolding name_table join_fields
canonical_of key n =
    or_name n (name_table (join_fields key) aliases) (name_table (join_fields key) canonical_names)

unfoldable pub canonical_ch_type_name : String → String
unfolding canonical_of
canonical_ch_type_name n = canonical_of (lower n) n

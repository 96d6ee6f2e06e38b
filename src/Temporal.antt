-- ===== src/Temporal.antt =====
-- Where a value of a ClickHouse type holds times, which generated code checks before an insert and
-- after a scan: `temporalKindOf`, `temporalShapeOf` and `shapeNeedsScanCheck` of
-- internal/engine/temporal.go.
pub mod Texts
pub mod Switches
pub mod Guards
use chgen.Base.{
  String, Bool, true, false, ◌||◌, Option, none, some, List, [], ◌∷◌, if◌then◌else◌, fold_switch,
}
use chgen.Base.Integers.{ℤ, pos, negsuc, gtb}
use chgen.ChType.{ChType, ch_type, ChTypes, nil, cons}
use chgen.GoType.Names.{canonical_ch_type_name}
use chgen.Arithmetic.Operands.{date_time64_precision}

-- `temporalKind`, without its empty value.
pub data TemporalKind : Type 0 where
  date date32 date_time date_time64 date_time64_nano : TemporalKind

-- `temporalShape`: one value, or the parts of an array or of a map that hold times; the flag tells
-- that the value may be null.
pub data TemporalShape : Type 0 where
  scalar : Bool → TemporalKind → TemporalShape
  elements map_keys map_values : Bool → TemporalShape → TemporalShape
  map_both : Bool → TemporalShape → TemporalShape → TemporalShape

abbrev pub make_nullable : TemporalShape → TemporalShape
make_nullable (scalar n k) = scalar true k
make_nullable (elements n s) = elements true s
make_nullable (map_keys n k) = map_keys true k
make_nullable (map_values n v) = map_values true v
make_nullable (map_both n k v) = map_both true k v

-- What the switch on the name does.
pub data TemporalRule : Type 0 where
  first_param second_param nullable array map no_time : TemporalRule
  kind : TemporalKind → TemporalRule

abbrev pub temporal_rules : List (String × TemporalRule)
temporal_rules =
    ("lowcardinality", first_param)
    ∷ ("aggregatefunction", second_param)
    ∷ ("nullable", nullable)
    ∷ ("array", array)
    ∷ ("map", map)
    ∷ ("date", kind date)
    ∷ ("date32", kind date32)
    ∷ ("datetime", kind date_time)
    ∷ ("datetime64", kind date_time64)
    ∷ []

abbrev pub or_no_time : Option TemporalRule → TemporalRule
or_no_time none = no_time
or_no_time (some rule) = rule

-- The rule of a canonical name.
unfoldable pub temporal_rule_at : String → TemporalRule
temporal_rule_at canonical = or_no_time (fold_switch canonical temporal_rules)

abbrev pub is_nano : List String → Bool
is_nano ls = gtb (date_time64_precision (ch_type "" nil ls [])) (pos 8)

-- The kind of a date or a time, in which a DateTime64 of nine digits is one of its own.
unfoldable pub temporal_kind : TemporalKind → List String → TemporalKind
temporal_kind date_time64 ls = if is_nano ls then date_time64_nano else date_time64
temporal_kind k ls = k

abbrev pub map_shape : Option TemporalShape → Option TemporalShape → Option TemporalShape
map_shape none none = none
map_shape (some k) none = some (map_keys false k)
map_shape none (some v) = some (map_values false v)
map_shape (some k) (some v) = some (map_both false k v)

abbrev pub nullable_shape : Option TemporalShape → Option TemporalShape
nullable_shape none = none
nullable_shape (some s) = some (make_nullable s)

abbrev pub array_shape : Option TemporalShape → Option TemporalShape
array_shape none = none
array_shape (some s) = some (elements false s)

-- One case of the switch, by the shapes of the parameters.
abbrev pub apply_temporal :
    TemporalRule → List String → List (Option TemporalShape) → Option TemporalShape
apply_temporal first_param ls (s ∷ []) = s
apply_temporal second_param ls (f ∷ s ∷ rest) = s
apply_temporal nullable ls (s ∷ []) = nullable_shape s
apply_temporal array ls (s ∷ []) = array_shape s
apply_temporal map ls (k ∷ v ∷ []) = map_shape k v
apply_temporal (kind k) ls ss = some (scalar false (temporal_kind k ls))
apply_temporal _ ls ss = none

unfoldable mutual
  pub temporal_shape_of : ChType → Option TemporalShape
  temporal_shape_of (ch_type n ps ls ns) =
      apply_temporal (temporal_rule_at (canonical_ch_type_name n)) ls (temporal_shapes_of ps)

  pub temporal_shapes_of : ChTypes → List (Option TemporalShape)
  temporal_shapes_of nil = []
  temporal_shapes_of (cons t ts) = temporal_shape_of t ∷ temporal_shapes_of ts

-- `shapeNeedsScanCheck`
unfoldable pub shape_needs_scan_check : TemporalShape → Bool
shape_needs_scan_check (scalar n date_time64) = true
shape_needs_scan_check (scalar n date_time64_nano) = true
shape_needs_scan_check (scalar n _) = false
shape_needs_scan_check (elements n s) = shape_needs_scan_check s
shape_needs_scan_check (map_keys n k) = shape_needs_scan_check k
shape_needs_scan_check (map_values n v) = shape_needs_scan_check v
shape_needs_scan_check (map_both n k v) = shape_needs_scan_check k || shape_needs_scan_check v

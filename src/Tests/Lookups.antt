-- ===== src/Tests/Lookups.antt =====
-- The properties of Go types, of scopes, of arithmetic and of temporal shapes, at concrete inputs.
use chgen.Base.{
  ◌+◌, ◌≤◌, arith, inr, lower, codes_eq, fold_eq, fold_in, fold_switch, ◌≡◌, refl, ◌↔◌, true, false,
  none, some, [], ◌∷◌, AllOk, ok,
}
use chgen.ChType.{ChType, ch_type, nil, cons, named, wrap, unwrap_as, size}
use chgen.LowCardinality.{strip_nested}
use chgen.Base.Dict.{lookup}
use chgen.Catalog.{Table}
use chgen.Wrappers.{peel}
use chgen.Transport.Marker.{simple_aggregate_wrapper_inner}
use chgen.Arithmetic.{infer_arithmetic_result_type, integer_result}
use chgen.Arithmetic.Operands.{
  integer_class, integer_class_of, class_name, promoted_size, is_float_operand, is_decimal_operand,
  is_date_operand, simple_aggregate_inner_type,
}
use chgen.Arithmetic.Order.{infer_arithmetic_comm}
use chgen.Arithmetic.Fuel.{run_steps, infer_arithmetic-run_steps}
use chgen.Supertype.Compatible.{compatible_named_arg_types}
use chgen.Supertype.CompatibleFuel.{run_compatible, compatible_named_arg_types-run_compatible}
use chgen.Arithmetic.Classes.{integer_result-read}
use chgen.GoType.Names.{canonical_ch_type_name}
use chgen.GoType.{go_type, rule_of, contain_wide_integer, is_wide_name, is_pointer}
use chgen.Base.Dict.{is_some}
use chgen.Temporal.{temporal_shape_of, temporal_rule_at}
use chgen.Temporal.Texts.{has_time}
use chgen.Temporal.Guards.{has_marker, temporal_shape_of-go_type}
use chgen.GoType.Wrappers.{go_type-strip_nested}
use chgen.GoType.Pointers.{is_double_pointer, go_type-single}
use chgen.Scopes.{QueryScope, lookup_table}
use chgen.Scopes.Tables.{Resolves, lookup_table_iff}

-- Map(String, Nullable(LowCardinality(Nullable(String))))
abbrev nested : ChType
nested =
    ch_type "Map"
      (cons (named "String")
        (cons (wrap "Nullable" (wrap "LowCardinality" (wrap "Nullable" (named "String")))) nil))
      [] []

go_type-strip_nested_example : go_type (strip_nested nested) ≡ go_type nested
go_type-strip_nested_example = go_type-strip_nested nested

go_type-single_example : AllOk (λ s. is_double_pointer s ≡ false) (go_type nested)
go_type-single_example = go_type-single nested

abbrev events : Table
events = record {
  name = "events";
  file = "schema.sql";
  line = 1;
  columns = [];
  column_order = [];
  engine = none;
}

abbrev no_scope : QueryScope
no_scope = record {
  tables = [];
  from_binding_start = 0;
  relations = [];
  reserved_relations = ("cte", true) ∷ [];
  scalars = [];
  projection_aliases = [];
  reserved_scalars = [];
  exact_scalar_names = false;
  using_types = [];
  using_qualified = [];
  array_join_types = [];
  array_join_qualified = [];
}

abbrev outer_scope : QueryScope
outer_scope = record no_scope {
  tables =
      record { table = record events { name = "archive" }; alias = "e" }
      ∷ record { table = events; alias = "e" }
      ∷ record { table = record events { name = "log" }; alias = "l" }
      ∷ [];
  relations = ("cte", events) ∷ [];
}

lookup_table_iff_example :
    (lookup_table (no_scope ∷ outer_scope ∷ []) "e" ≡ some events)
    ↔ Resolves "e" events (no_scope ∷ outer_scope ∷ [])
lookup_table_iff_example = lookup_table_iff (no_scope ∷ outer_scope ∷ []) "e" events

-- A reserved name hides the outer relation.
outer_run : lookup_table (no_scope ∷ outer_scope ∷ []) "e" ≡ some events
unfolding lookup_table lookup
outer_run = refl

reserved_run : lookup_table (no_scope ∷ outer_scope ∷ []) "cte" ≡ none
unfolding lookup_table lookup
reserved_run = refl

infer_arithmetic_comm_example :
    infer_arithmetic_result_type "*" (wrap "Array" (named "UInt8")) (named "Int16")
    ≡ infer_arithmetic_result_type "*" (named "Int16") (wrap "Array" (named "UInt8"))
infer_arithmetic_comm_example =
    infer_arithmetic_comm "*" (wrap "Array" (named "UInt8")) (named "Int16") (inr refl)

abbrev bytes : ChType
bytes = wrap "Array" (named "UInt8")

abbrev shorts : ChType
shorts = wrap "Array" (named "Int16")

sizes_fit : size bytes + size shorts ≤ 7
unfolding size
sizes_fit = omega arith

infer_arithmetic-run_steps_example :
    run_steps 7 (λ l r. some l) "-" bytes shorts ≡ infer_arithmetic_result_type "-" bytes shorts
infer_arithmetic-run_steps_example =
    infer_arithmetic-run_steps 7 (λ l r. some l) "-" bytes shorts sizes_fit

compatible_named_arg_types-run_compatible_example :
    run_compatible 7 (λ l r. false) bytes shorts ≡ compatible_named_arg_types bytes shorts
compatible_named_arg_types-run_compatible_example =
    compatible_named_arg_types-run_compatible 7 (λ l r. false) bytes shorts sizes_fit

product_run :
    infer_arithmetic_result_type "*" (wrap "Array" (named "UInt8")) (named "Int16")
    ≡ some (wrap "Array" (named "Int32"))
unfolding infer_arithmetic_result_type integer_class_of class_name promoted_size is_float_operand
    is_decimal_operand is_date_operand simple_aggregate_inner_type simple_aggregate_wrapper_inner
    canonical_ch_type_name lower codes_eq fold_eq fold_in fold_switch peel unwrap_as size
product_run = refl

uint8_class : integer_class_of (named "UInt8") ≡ some (integer_class false 1)
unfolding integer_class_of canonical_ch_type_name lower codes_eq fold_eq fold_switch
uint8_class = refl

int16_class : integer_class_of (named "Int16") ≡ some (integer_class true 2)
unfolding integer_class_of canonical_ch_type_name lower codes_eq fold_eq fold_switch
int16_class = refl

sum_class :
    integer_result "+" (integer_class false 1) (integer_class true 2) ≡ some (integer_class true 4)
unfolding integer_result promoted_size
sum_class = refl

integer_result-read_example :
    integer_class_of (named (class_name (integer_class true 4))) ≡ some (integer_class true 4)
integer_result-read_example =
    integer_result-read "+" (named "UInt8") (named "Int16") (integer_class false 1)
      (integer_class true 2) (integer_class true 4) uint8_class int16_class sum_class

-- Map(String, Array(Nullable(DateTime64)))
abbrev map_of_times : ChType
map_of_times =
    ch_type "Map"
      (cons (named "String") (cons (wrap "Array" (wrap "Nullable" (named "DateTime64"))) nil)) [] []

nested_times : has_marker map_of_times ≡ false
unfolding has_marker rule_of fold_in fold_switch canonical_ch_type_name lower codes_eq fold_eq
nested_times = refl

nested_text : go_type map_of_times ≡ ok "map[string][]*time.Time"
unfolding go_type rule_of fold_in fold_switch canonical_ch_type_name lower codes_eq fold_eq
    contain_wide_integer is_wide_name is_pointer
nested_text = refl

nested_mention : has_time "map[string][]*time.Time" ≡ true
unfolding has_time
nested_mention = refl

temporal_shape_of-go_type_example :
    AllOk (λ s. has_time s ≡ is_some (temporal_shape_of map_of_times)) (go_type map_of_times)
temporal_shape_of-go_type_example = temporal_shape_of-go_type map_of_times nested_times

-- SimpleAggregateFunction(max, DateTime) is a time.Time without a temporal shape.
abbrev aggregate_time : ChType
aggregate_time =
    ch_type "SimpleAggregateFunction" (cons (named "max") (cons (named "DateTime") nil)) [] []

aggregate_run :
    (go_type aggregate_time ≡ ok "time.Time") × (temporal_shape_of aggregate_time ≡ none)
unfolding go_type temporal_shape_of rule_of temporal_rule_at fold_switch canonical_ch_type_name
    lower codes_eq fold_eq
aggregate_run = (refl, refl)

-- ===== src/Tests/Types.antt =====
-- The properties of wrappers and of their removal, at concrete types.
use chgen.Base.{◌≡◌, refl, Bool, true, false, [], ◌&&◌, none, fold_eq, fold_in, not}
use chgen.ChType.{ChType, ch_type, nil, cons, named, wrap, unwrap_as}
use chgen.Wrappers.{
  split_ch_wrappers, apply_ch_wrappers, can_be_inside_nullable, result_rejects_low_cardinality,
  peel, wrap_nullable, wrap_low_cardinality,
}
use chgen.Wrappers.RoundTrip.{IsBare, split-apply}
use chgen.LowCardinality.{strip_nested, strip_deep, has_low_cardinality}
use chgen.LowCardinality.Removal.{strip_deep-eq-strip_nested}
use chgen.Transport.{split_wrapper_stack, apply_wrapper_stack}
use chgen.Transport.Marker.{simple_aggregate_wrapper_inner}
use chgen.Transport.RoundTrip.{IsLegal, wrapped, marked, apply-split_plain, apply-split_marked}

abbrev text : ChType
text = named "String"

-- Map(LowCardinality(String), Array(LowCardinality(Nullable(String))))
abbrev nested_type : ChType
nested_type =
    ch_type "Map"
      (cons (wrap "LowCardinality" text)
        (cons (wrap "Array" (wrap "LowCardinality" (wrap "Nullable" text))) nil))
      [] []

string_bare : IsBare text
unfolding fold_eq
string_bare = record { not_low_cardinality = refl; not_nullable = refl }

string_legal : (low null : Bool) → IsLegal low null text
unfolding can_be_inside_nullable result_rejects_low_cardinality peel unwrap_as fold_in fold_eq
string_legal low null = record { bare = string_bare; null_fits = λ _. refl; low_fits = λ _. refl }

string_plain : simple_aggregate_wrapper_inner text ≡ none
unfolding simple_aggregate_wrapper_inner
string_plain = refl

array_run :
    split_ch_wrappers (apply_ch_wrappers (wrap "Array" text) true true)
    ≡ (wrap "Array" text, false, false)
unfolding split_ch_wrappers apply_ch_wrappers peel unwrap_as wrap_nullable wrap_low_cardinality
    can_be_inside_nullable result_rejects_low_cardinality fold_in fold_eq
array_run = refl

strip_run :
    strip_nested nested_type
    ≡ ch_type "Map" (cons text (cons (wrap "Array" (wrap "Nullable" text)) nil)) [] []
unfolding strip_nested fold_eq
strip_run = refl

split-apply_example :
    split_ch_wrappers (apply_ch_wrappers text true true)
    ≡ (text, true && can_be_inside_nullable text, true && not (result_rejects_low_cardinality text))
split-apply_example = split-apply text true true string_bare

array_free : has_low_cardinality (wrap "Array" text) ≡ false
unfolding has_low_cardinality fold_eq
array_free = refl

strip_deep-eq-strip_nested_example : strip_deep nested_type ≡ strip_nested nested_type
strip_deep-eq-strip_nested_example = strip_deep-eq-strip_nested nested_type

apply-split_plain_example :
    let value = wrapped true true text in
    apply_wrapper_stack (split_wrapper_stack value).0 (split_wrapper_stack value).1 ≡ value
apply-split_plain_example = apply-split_plain true true text (string_legal true true) string_plain

apply-split_marked_example :
    let value = wrapped true false (marked (named "anyLast") (wrapped false true text)) in
    apply_wrapper_stack (split_wrapper_stack value).0 (split_wrapper_stack value).1 ≡ value
apply-split_marked_example =
    apply-split_marked true false false true (named "anyLast") text (string_legal false true) refl

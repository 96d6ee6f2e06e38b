-- ===== src/Temporal/Guards.antt =====
-- A Go type mentions time.Time exactly where the temporal shape finds a time.
use chgen.Base.{
  ◌≡◌, refl, sym, ◌∙◌, ap, String, Bool, true, false, ◌||◌, Option, none, some, List, ok, ◌>>=◌,
  str_eq, AllOk, AllOk-bind, AllOk-ok, AllOk-reject, or-eq-false,
}
use chgen.Base.Dict.{is_some}
use Prim.Native.String.{◌++◌ as concat}
use chgen.ChType.{ChType, ch_type, ChTypes, nil, cons}
use chgen.GoType.Names.{canonical_ch_type_name}
use chgen.GoType.{
  GoRule, simple_aggregate, rule_of, is_pointer, pointer_to, map_go_type, apply_rule, go_type,
  go_types, contain_wide_integer,
}
use chgen.Temporal.{
  TemporalShape, TemporalRule, temporal_rule_at, apply_temporal, map_shape, nullable_shape,
  array_shape, temporal_shape_of, temporal_shapes_of,
}
use chgen.Temporal.Texts.{has_time, has_time-array, has_time-pointer_to, has_time-map_text}
use chgen.Temporal.Switches.{
  Consistent, through, nulls, arrays, maps, time, other, refused, marker, rule_of-Consistent,
}

abbrev is_marker_rule : GoRule → Bool
is_marker_rule simple_aggregate = true
is_marker_rule _ = false

-- A node of the type is a SimpleAggregateFunction.
unfoldable mutual
  pub has_marker : ChType → Bool
  has_marker (ch_type n ps ls ns) = is_marker_rule (rule_of n) || have_marker ps

  pub have_marker : ChTypes → Bool
  have_marker nil = false
  have_marker (cons t ts) = has_marker t || have_marker ts

-- The Go type, where there is one, mentions a time exactly if there is a shape.
abbrev Guards : Option TemporalShape → String → Type 0
Guards shape s = has_time s ≡ is_some shape

IsGuarded : ChType → Type 0
IsGuarded t = AllOk (Guards (temporal_shape_of t)) (go_type t)

AreGuarded : ChTypes → Type 0
AreGuarded nil = Unit
AreGuarded (cons t ts) = IsGuarded t × AreGuarded ts

is_some-map_shape :
    (k v : Option TemporalShape) → is_some (map_shape k v) ≡ (is_some k || is_some v)
is_some-map_shape none none = refl
is_some-map_shape (some k) none = refl
is_some-map_shape none (some v) = refl
is_some-map_shape (some k) (some v) = refl

is_some-nullable_shape : (o : Option TemporalShape) → is_some (nullable_shape o) ≡ is_some o
is_some-nullable_shape none = refl
is_some-nullable_shape (some s) = refl

is_some-array_shape : (o : Option TemporalShape) → is_some (array_shape o) ≡ is_some o
is_some-array_shape none = refl
is_some-array_shape (some s) = refl

map-IsGuarded :
    (k v : ChType) (wide : Bool)
    → IsGuarded k
    → IsGuarded v
    → AllOk
        (Guards (map_shape (temporal_shape_of k) (temporal_shape_of v)))
        (map_go_type wide (go_type k) (go_type v))
unfolding IsGuarded
map-IsGuarded k v true h i = tt
map-IsGuarded k v false h i =
    let a = temporal_shape_of k in
    let b = temporal_shape_of v in
    let P = Guards (map_shape a b) in
    AllOk-bind P (go_type k) _ (λ key e. AllOk-reject P (is_pointer key) _ _ (λ _.
      AllOk-reject P (str_eq key "net.IP") _ _ (λ _. AllOk-bind P (go_type v) _ (λ value f.
        has_time-map_text key value
        ∙ ap (λ x. x || has_time value) (AllOk-ok (Guards a) (go_type k) h e)
        ∙ ap (λ x. is_some a || x) (AllOk-ok (Guards b) (go_type v) i f)
        ∙ sym (is_some-map_shape a b)))))

nullable-IsGuarded :
    (t : ChType)
    → IsGuarded t
    → AllOk
        (Guards (nullable_shape (temporal_shape_of t)))
        (go_type t >>= λ inner. ok (pointer_to inner))
unfolding IsGuarded
nullable-IsGuarded t h =
    let shape = temporal_shape_of t in
    AllOk-bind (Guards (nullable_shape shape)) (go_type t) _ (λ inner e.
      has_time-pointer_to inner
      ∙ AllOk-ok (Guards shape) (go_type t) h e
      ∙ sym (is_some-nullable_shape shape))

array-IsGuarded :
    (t : ChType)
    → IsGuarded t
    → AllOk
        (Guards (array_shape (temporal_shape_of t)))
        (go_type t >>= λ inner. ok (concat "[]" inner))
unfolding IsGuarded
array-IsGuarded t h =
    let shape = temporal_shape_of t in
    AllOk-bind (Guards (array_shape shape)) (go_type t) _ (λ inner e.
      has_time-array inner
      ∙ AllOk-ok (Guards shape) (go_type t) h e
      ∙ sym (is_some-array_shape shape))

node-IsGuarded :
    (r : GoRule) (q : TemporalRule) (wide : Bool) (ls : List String) (ps : ChTypes)
    → Consistent r q
    → is_marker_rule r ≡ false
    → AreGuarded ps
    → AllOk (Guards (apply_temporal q ls (temporal_shapes_of ps))) (apply_rule r wide (go_types ps))
unfolding AreGuarded IsGuarded go_type temporal_shape_of has_time
node-IsGuarded r q wide ls nil through m h = tt
node-IsGuarded r q wide ls (cons t nil) through m h = h.0
node-IsGuarded r q wide ls (cons t (cons u us)) through m h = tt
node-IsGuarded r q wide ls nil nulls m h = tt
node-IsGuarded r q wide ls (cons t nil) nulls m h = nullable-IsGuarded t h.0
node-IsGuarded r q wide ls (cons t (cons u us)) nulls m h = tt
node-IsGuarded r q wide ls nil arrays m h = tt
node-IsGuarded r q wide ls (cons t nil) arrays m h = array-IsGuarded t h.0
node-IsGuarded r q wide ls (cons t (cons u us)) arrays m h = tt
node-IsGuarded r q wide ls nil maps m h = tt
node-IsGuarded r q wide ls (cons t nil) maps m h = tt
node-IsGuarded r q wide ls (cons k (cons v nil)) maps m h = map-IsGuarded k v wide h.0 h.1.0
node-IsGuarded r q wide ls (cons k (cons v (cons u us))) maps m h = tt
node-IsGuarded r q wide ls ps time m h = refl
node-IsGuarded r q wide ls ps (other d) m h = d
node-IsGuarded r q wide ls ps refused m h = tt
node-IsGuarded r q wide ls ps marker m h = cc

mutual
  unfolding has_marker go_type temporal_shape_of AreGuarded IsGuarded

  guarded : (t : ChType) → has_marker t ≡ false → IsGuarded t
  guarded (ch_type n ps ls ns) h =
      let (a, b) = or-eq-false (is_marker_rule (rule_of n)) (have_marker ps) h in
      node-IsGuarded (rule_of n) (temporal_rule_at (canonical_ch_type_name n))
        (contain_wide_integer ps) ls ps (rule_of-Consistent n) a (all_guarded ps b)

  all_guarded : (ts : ChTypes) → have_marker ts ≡ false → AreGuarded ts
  all_guarded nil h = tt
  all_guarded (cons t ts) h =
      let (a, b) = or-eq-false (has_marker t) (have_marker ts) h in (guarded t a, all_guarded ts b)

-- Where a ClickHouse type without SimpleAggregateFunction has a Go type, the text of that Go type
-- mentions time.Time exactly if the type has a temporal shape, by which generated code checks its
-- times.
pub temporal_shape_of-go_type :
    (t : ChType)
    → has_marker t ≡ false
    → AllOk (λ s. has_time s ≡ is_some (temporal_shape_of t)) (go_type t)
unfolding IsGuarded
temporal_shape_of-go_type t h = guarded t h

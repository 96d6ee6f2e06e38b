-- ===== src/ChType/Text.antt =====
-- `CHType.String` of internal/engine/schema.go: the text of a type, by which branches are compared.
use chgen.Base.{String, List, [], ◌∷◌, ◌++◌, if◌then◌else◌, str_eq}
use Prim.Native.String.{◌++◌ as concat}
use chgen.ChType.{ChType, ch_type, ChTypes, nil, cons}

-- strings.Join(texts, ", ")
unfoldable pub join_texts : List String → String
join_texts [] = ""
join_texts (s ∷ []) = s
join_texts (s ∷ t ∷ ts) = concat s (concat ", " (join_texts (t ∷ ts)))

abbrev pub named_text : String → String → String
named_text n text = if str_eq n "" then text else concat n (concat " " text)

abbrev pub node_text : String → List String → String
node_text n [] = n
node_text n (s ∷ ss) = concat n (concat "(" (concat (join_texts (s ∷ ss)) ")"))

unfoldable mutual
  pub type_text : ChType → String
  type_text (ch_type n ps ls ns) = node_text n (ls ++ param_texts ps ns)

  pub param_texts : ChTypes → List String → List String
  param_texts nil ns = []
  param_texts (cons t ts) [] = type_text t ∷ param_texts ts []
  param_texts (cons t ts) (n ∷ ns) = named_text n (type_text t) ∷ param_texts ts ns

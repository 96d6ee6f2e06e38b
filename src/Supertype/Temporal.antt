-- ===== src/Supertype/Temporal.antt =====
-- The cases of `commonCHType` of internal/engine/supertype.go for two date and time types.
use chgen.Base.{Bool, ◌&&◌, ◌||◌, Option, none, some, [], ◌∷◌, if◌then◌else◌, fold_eq}
use chgen.ChType.{ChType, ch_type, nil, name}

abbrev pub is_date_time : ChType → Bool
is_date_time value = fold_eq (name value) "DateTime"

abbrev pub is_date_time64 : ChType → Bool
is_date_time64 value = fold_eq (name value) "DateTime64"

abbrev pub is_date : ChType → Bool
is_date value = fold_eq (name value) "Date"

abbrev pub is_date32 : ChType → Bool
is_date32 value = fold_eq (name value) "Date32"

abbrev pub date_time64_0 : ChType
date_time64_0 = ch_type "DateTime64" nil ("0" ∷ []) []

-- The cases of two temporal types.
unfoldable pub common_temporal : ChType → ChType → Option ChType
common_temporal left right =
    if is_date_time left && is_date_time64 right
    then some right
    else if is_date_time64 left && is_date_time right
    then some left
    else if is_date left && is_date32 right
    then some right
    else if is_date32 left && is_date right
    then some left
    else if is_date left && (is_date_time right || is_date_time64 right)
    then some right
    else if (is_date_time left || is_date_time64 left) && is_date right
    then some left
    else if is_date32 left && is_date_time right
    then some date_time64_0
    else if is_date_time left && is_date32 right
    then some date_time64_0
    else if is_date32 left && is_date_time64 right
    then some right
    else if is_date_time64 left && is_date32 right
    then some left
    else none

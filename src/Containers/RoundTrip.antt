-- ===== src/Containers/RoundTrip.antt =====
-- mapKeys and mapValues undo the map constructor.
use chgen.Base.{◌≡◌, false, List, ok, fold_eq}
use chgen.ChType.{ChType, name}
use chgen.LowCardinality.{unwrap_low_cardinality}
use chgen.Containers.{of_member, map_type}
use chgen.Containers.Members.{common_container_member}

-- What an accepted map is made of.
MapParts : List ChType → List ChType → ChType → Type 0
MapParts keys values t =
    (k : ChType) × ((v : ChType) × ((of_member (common_container_member keys) ≡ ok k)
        × (of_member (common_container_member values) ≡ ok v)
        × (fold_eq (name (unwrap_low_cardinality k)) "Nullable" ≡ false)
        × (t ≡ map_type k v)))

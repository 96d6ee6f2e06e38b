-- ===== src/Transport/Sources.antt =====
-- A LowCardinality of a result comes from an argument or from the bare result.
use chgen.ChType.{ChType}

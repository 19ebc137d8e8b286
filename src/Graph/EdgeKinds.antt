-- ===== src/Graph/EdgeKinds.antt =====
-- The `EdgeKind` constants of internal/graph/interface.go.
use otel_k8s_graph.Base.{Text, codes}

abbrev pub contains : Text
contains = codes "CONTAINS"

abbrev pub runs_in : Text
runs_in = codes "RUNS_IN"

abbrev pub manages : Text
manages = codes "MANAGES"

abbrev pub managed_by : Text
managed_by = codes "MANAGED_BY"

abbrev pub exposes : Text
exposes = codes "EXPOSES"

abbrev pub exposed_by : Text
exposed_by = codes "EXPOSED_BY"

abbrev pub calls : Text
calls = codes "CALLS"

abbrev pub called_by : Text
called_by = codes "CALLED_BY"

abbrev pub publishes : Text
publishes = codes "PUBLISHES"

abbrev pub published_by : Text
published_by = codes "PUBLISHED_BY"

abbrev pub consumes : Text
consumes = codes "CONSUMES"

abbrev pub consumed_by : Text
consumed_by = codes "CONSUMED_BY"

abbrev pub queries : Text
queries = codes "QUERIES"

abbrev pub queried_by : Text
queried_by = codes "QUERIED_BY"

abbrev pub scales : Text
scales = codes "SCALES"

abbrev pub scaled_by : Text
scaled_by = codes "SCALED_BY"

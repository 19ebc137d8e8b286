-- ===== src/Builder/Databases.antt =====
-- internal/builder/databases.go: databases from client spans.
use otel_k8s_graph.Base.{
  Text, [], ◌∷◌, ◌++◌, Option, some, codes, text_DecEq, nat_DecEq, if◌then◌else◌, ◌==◌,
}
use otel_k8s_graph.Strings.{slash}
use otel_k8s_graph.Graph.{Writer}
use otel_k8s_graph.Graph.Kinds
use otel_k8s_graph.Graph.EdgeKinds
use otel_k8s_graph.Builder.Record.{Record, attr, Relationship, ◌>>=◌, ◌>>◌, guard, required, relate}
use otel_k8s_graph.Builder.Templatize.{templatize_span_name, attr_span_name}
use otel_k8s_graph.Builder.Endpoints.{normalize_span_kind, attr_span_kind, attr_server_address}

abbrev pub attr_db_system : Text
attr_db_system = codes "db.system"

abbrev pub attr_server_port : Text
attr_server_port = codes "server.port"

unfoldable pub make_database_id : Text → Text → Text → Text × Text
make_database_id system host port =
    let endpoint = if port == [] then host else host ++ b':' ∷ port in
    (codes "database:" ++ system ++ slash ∷ endpoint, system ++ b'@' ∷ endpoint)

unfoldable pub database_relationship : Record → Option Relationship
database_relationship r = do
  system ← required (attr r.series_attrs attr_db_system)
  guard (normalize_span_kind (attr r.series_attrs attr_span_kind) == codes "CLIENT")
  host ← required (attr r.series_attrs attr_server_address)
  let named = make_database_id system host (attr r.series_attrs attr_server_port)
  some (record {
    forward = EdgeKinds.queries;
    reverse = EdgeKinds.queried_by;
    rel_id = named.0;
    rel_kind = Kinds.database;
    rel_name = named.1;
    action = templatize_span_name (attr r.series_attrs attr_span_name);
  })

unfoldable pub derive_database_edges : {S : Type 0} → Writer S → Record → Text → S → S
derive_database_edges w r emitter_id s = relate w emitter_id (database_relationship r) s

-- ===== src/Tests/Names.antt =====
-- Records, routes and span names, after internal/builder/derive_test.go.
use otel_k8s_graph.Base.{
  inl, Text, [], ◌∷◌, some, true, false, not, codes, Text-discrete, text_DecEq, nat_DecEq,
  if◌then◌else◌, lookup, ◌≡◌, refl, arith,
}
use otel_k8s_graph.Graph.Kinds
use otel_k8s_graph.Graph.EdgeKinds
use otel_k8s_graph.Strings.{slash, space, has_prefix, join, split}
use otel_k8s_graph.Strings.Parts.{Lacks}
use otel_k8s_graph.BatchSet.{new_batch_write_set, batch_writer}
use otel_k8s_graph.Builder.Templatize.{templatize_path, templatize_span_name, normalize_route}
use otel_k8s_graph.Builder.Templatize.Laws.{
  normalize_route-normalize_route, normalize_route-templatize_path,
}
use otel_k8s_graph.Builder.Templatize.SpanName.{templatize_span_name-templatize_span_name}
use otel_k8s_graph.Builder.Record.{attr, Record, Relationship}
use otel_k8s_graph.Builder.Endpoints.{
  normalize_span_kind, endpoint_relationship, endpoint_side, server_side, client_side,
  make_endpoint_id,
}
use otel_k8s_graph.Builder.Topics.{topic_relationship, extract_topic_name}
use otel_k8s_graph.Builder.Databases.{database_relationship, make_database_id}
use otel_k8s_graph.Builder.Derive.{derive}
use otel_k8s_graph.Builder.Derive.Sound.{IsSound, relationship-IsSound}
use otel_k8s_graph.Builder.Derive.Emitter.{lacks_pod, derive_usable}
use otel_k8s_graph.Tests.Push.{parse, producer, pod_attrs}

abbrev producer_record : Record
producer_record = record { attrs = pod_attrs; series_attrs = producer }

abbrev server_record : Record
server_record = record {
  attrs = (codes "service.name", codes "cart") ∷ pod_attrs;
  series_attrs =
      (codes "span.kind", codes "SPAN_KIND_SERVER")
      ∷ (codes "http.request.method", codes "GET")
      ∷ (codes "http.route", codes "/users/{id}")
      ∷ [];
}

abbrev client_record : Record
client_record = record {
  attrs = pod_attrs;
  series_attrs =
      (codes "span.kind", codes "client")
      ∷ (codes "db.system", codes "postgresql")
      ∷ (codes "server.address", codes "db")
      ∷ (codes "server.port", codes "5432")
      ∷ (codes "span.name", codes "SELECT users")
      ∷ [];
}

abbrev exposed : Relationship
exposed = record {
  forward = EdgeKinds.exposes;
  reverse = EdgeKinds.exposed_by;
  rel_id = codes "endpoint:cart/GET/users/{n}";
  rel_kind = Kinds.endpoint;
  rel_name = codes "GET /users/{n}";
  action = [];
}

abbrev queried : Relationship
queried = record {
  forward = EdgeKinds.queries;
  reverse = EdgeKinds.queried_by;
  rel_id = codes "database:postgresql/db:5432";
  rel_kind = Kinds.database;
  rel_name = codes "postgresql@db:5432";
  action = codes "SELECT users";
}

abbrev published : Relationship
published = record {
  forward = EdgeKinds.publishes;
  reverse = EdgeKinds.published_by;
  rel_id = codes "topic:orders";
  rel_kind = Kinds.topic;
  rel_name = codes "orders";
  action = [];
}

endpoint_found : endpoint_relationship parse server_record ≡ some exposed
unfolding endpoint_relationship endpoint_side server_side client_side normalize_span_kind
    make_endpoint_id normalize_route lookup Text-discrete split join attr
endpoint_found = refl

database_found : database_relationship client_record ≡ some queried
unfolding database_relationship normalize_span_kind make_database_id templatize_span_name lookup
    Text-discrete attr
database_found = refl

topic_found : topic_relationship producer_record ≡ some published
unfolding topic_relationship extract_topic_name normalize_span_kind lookup Text-discrete attr
topic_found = refl

derive_usable_example :
    ((derive batch_writer parse producer_record new_batch_write_set).1
      ≡ not (lacks_pod producer_record))
    × (derive batch_writer parse producer_record new_batch_write_set ≡ (
        if lacks_pod producer_record
        then (new_batch_write_set, false)
        else ((derive batch_writer parse producer_record new_batch_write_set).0, true)))
derive_usable_example = derive_usable batch_writer parse producer_record new_batch_write_set

-- Only segments that are all digits are rewritten.
templatize_sample : templatize_path (codes "/v1/users/42/a7") ≡ codes "/v1/users/{n}/a7"
unfolding templatize_path Text-discrete split join
templatize_sample = refl

-- A route without a slash in front gets one.
normalize_sample : normalize_route (codes "users/{id}/9") ≡ codes "/users/{n}/{n}"
unfolding normalize_route Text-discrete split join
normalize_sample = refl

abbrev path : Text
path = codes "/users/42/orders/7"

normalize_route-normalize_route_example :
    (normalize_route (normalize_route path) ≡ normalize_route path)
    × (has_prefix (normalize_route path) (slash ∷ []) ≡ true)
normalize_route-normalize_route_example = normalize_route-normalize_route path

normalize_route-templatize_path_example :
    normalize_route (templatize_path path) ≡ normalize_route path
normalize_route-templatize_path_example = normalize_route-templatize_path path

templatize_span_name-templatize_span_name_example :
    templatize_span_name (templatize_span_name (codes "GET /users/42"))
    ≡ templatize_span_name (codes "GET /users/42")
templatize_span_name-templatize_span_name_example =
    templatize_span_name-templatize_span_name (codes "GET /users/42")

get-Lacks-space : Lacks space (codes "GET")
get-Lacks-space = ground arith

get_has_no_slash : has_prefix (codes "GET") (slash ∷ []) ≡ false
unfolding has_prefix
get_has_no_slash = ground arith

relationship-IsSound_example : IsSound exposed
relationship-IsSound_example = relationship-IsSound parse server_record exposed (inl endpoint_found)

-- ===== src/Builder/Endpoints.antt =====
-- internal/builder/endpoints.go: HTTP endpoints from server and client spans.
use otel_k8s_graph.Base.{
  Text, [], ◌∷◌, ◌++◌, Option, none, some, ◌||◌, codes, text_DecEq, nat_DecEq, if◌then◌else◌, ◌==◌,
}
use otel_k8s_graph.Strings.{
  slash, space, has_prefix, take, trim_prefix, last_index_byte, trim_space, to_upper,
}
use otel_k8s_graph.Graph.{EdgeKind, Writer}
use otel_k8s_graph.Graph.Kinds
use otel_k8s_graph.Graph.EdgeKinds
use otel_k8s_graph.Builder.Record.{Record, attr, Relationship, ◌>>=◌, ◌>>◌, guard, required, relate}
use otel_k8s_graph.Builder.Templatize.{Url, without_query, normalize_route, attr_url_full}

abbrev pub attr_span_kind : Text
attr_span_kind = codes "span.kind"

abbrev pub attr_http_method : Text
attr_http_method = codes "http.request.method"

abbrev pub attr_http_route : Text
attr_http_route = codes "http.route"

abbrev pub attr_server_address : Text
attr_server_address = codes "server.address"

abbrev pub attr_peer_service : Text
attr_peer_service = codes "peer.service"

abbrev pub attr_service_name : Text
attr_service_name = codes "service.name"

unfoldable pub normalize_span_kind : Text → Text
unfolding trim_space to_upper trim_prefix
normalize_span_kind s = trim_prefix (to_upper (trim_space s)) (codes "SPAN_KIND_")

-- The id and the display name.
unfoldable pub make_endpoint_id : Text → Text → Text → Text × Text
unfolding has_prefix
make_endpoint_id svc method route =
    let route' = if has_prefix route (slash ∷ []) then route else slash ∷ route in
    (codes "endpoint:" ++ svc ++ slash ∷ method ++ route', method ++ space ∷ route')

unfoldable pub strip_port : Text → Text
unfolding last_index_byte take
strip_port addr = elim (last_index_byte addr b':') [ none ↦ addr | some i ↦ take i addr ]

-- `a` if it is set, else `b`
abbrev pub first_set : Text → Text → Text
first_set [] b = b
first_set (c ∷ a) b = c ∷ a

unfoldable pub extract_url_path : (Text → Option Url) → Text → Text
unfolding has_prefix without_query
extract_url_path parse s =
    if has_prefix s (slash ∷ [])
    then without_query s
    else elim (parse s) [ none ↦ [] | some u ↦ u.path ]

-- What the `switch` computes: service, route, forward and reverse edge.
pub record Side : Type 0 where
  pub svc_name : Text
  pub route : Text
  pub forward : EdgeKind
  pub reverse : EdgeKind

unfoldable pub server_side : Record → Option Side
unfolding attr
server_side r = do
  route ← required (attr r.series_attrs attr_http_route)
  svc ←
      required (first_set (attr r.series_attrs attr_service_name) (attr r.attrs attr_service_name))
  some (record {
    svc_name = svc;
    route = route;
    forward = EdgeKinds.exposes;
    reverse = EdgeKinds.exposed_by;
  })

unfoldable pub client_side : (Text → Option Url) → Record → Option Side
unfolding attr strip_port extract_url_path
client_side parse r = do
  url_full ← required (attr r.series_attrs attr_url_full)
  route ← required (extract_url_path parse url_full)
  svc ← required (
      first_set (attr r.series_attrs attr_peer_service)
        (strip_port (attr r.series_attrs attr_server_address)))
  some (record {
    svc_name = svc;
    route = route;
    forward = EdgeKinds.calls;
    reverse = EdgeKinds.called_by;
  })

unfoldable pub endpoint_side : (Text → Option Url) → Record → Text → Option Side
endpoint_side parse r span_kind =
    if span_kind == codes "SERVER"
    then server_side r
    else if span_kind == codes "CLIENT"
    then client_side parse r
    else none

unfoldable pub endpoint_relationship : (Text → Option Url) → Record → Option Relationship
endpoint_relationship parse r = do
  let span_kind = normalize_span_kind (attr r.series_attrs attr_span_kind)
  guard (span_kind == codes "SERVER" || span_kind == codes "CLIENT")
  method ← required (attr r.series_attrs attr_http_method)
  side ← endpoint_side parse r span_kind
  let named = make_endpoint_id side.svc_name method (normalize_route side.route)
  some (record {
    forward = side.forward;
    reverse = side.reverse;
    rel_id = named.0;
    rel_kind = Kinds.endpoint;
    rel_name = named.1;
    action = [];
  })

unfoldable pub derive_endpoint_edges :
    {S : Type 0} → Writer S → (Text → Option Url) → Record → Text → S → S
derive_endpoint_edges w parse r emitter_id s = relate w emitter_id (endpoint_relationship parse r) s

-- ===== src/Builder/Derive/Sound.antt =====
-- The relationships that the derivers find: the two edges are inverse, and the ids say whose they are.
use otel_k8s_graph.Base.{
  ◌⊎◌, inl, inr, Text, [], ◌∷◌, ◌++◌, Option, some, Bool, true, false, ◌||◌, codes, Text-discrete,
  text_DecEq, nat_DecEq, if◌then◌else◌, ◌==◌, ◌≡◌, refl, arith, Option-cases,
}
use otel_k8s_graph.Strings.{has_prefix}
use otel_k8s_graph.Graph.Kinds
use otel_k8s_graph.Graph.EdgeKinds
use otel_k8s_graph.Builder.Record.{Record, attr, Relationship}
use otel_k8s_graph.Builder.Templatize.{Url}
use otel_k8s_graph.Builder.Endpoints.{
  Side, server_side, client_side, endpoint_side, endpoint_relationship, make_endpoint_id,
}
use otel_k8s_graph.Builder.Topics.{topic_relationship}
use otel_k8s_graph.Builder.Databases.{database_relationship, make_database_id}
use otel_k8s_graph.Graph.{Kind, EdgeKind}
use otel_k8s_graph.Graph.Inverse.{inverse}
use otel_k8s_graph.Builder.Endpoints.{
  normalize_span_kind, attr_span_kind, attr_http_method, attr_server_address,
}
use otel_k8s_graph.Builder.Databases.{attr_db_system, attr_server_port}
use otel_k8s_graph.Builder.Topics.{extract_topic_name}
use otel_k8s_graph.Builder.Templatize.{attr_span_name, normalize_route}

-- The ids of the entities that graph-otel owns.
unfoldable pub is_relationship_id : Text → Bool
unfolding has_prefix
is_relationship_id id =
    has_prefix id (codes "endpoint:")
    || has_prefix id (codes "topic:")
    || has_prefix id (codes "database:")

-- What a deriver promises of a relationship.
pub record IsSound (r : Relationship) : Type 0 where
  pub owned : is_relationship_id r.rel_id ≡ true
  pub kind_of_id : has_prefix r.rel_id (r.rel_kind ++ b':' ∷ []) ≡ true
  pub forward : inverse r.forward ≡ r.reverse
  pub reverse : inverse r.reverse ≡ r.forward

abbrev AreInverse : EdgeKind → EdgeKind → Type 0
AreInverse forward reverse = (inverse forward ≡ reverse) × (inverse reverse ≡ forward)

calls_lem : AreInverse EdgeKinds.calls EdgeKinds.called_by
unfolding inverse Text-discrete
calls_lem = (refl, refl)

exposes_lem : AreInverse EdgeKinds.exposes EdgeKinds.exposed_by
unfolding inverse Text-discrete
exposes_lem = (refl, refl)

queries_lem : AreInverse EdgeKinds.queries EdgeKinds.queried_by
unfolding inverse Text-discrete
queries_lem = (refl, refl)

topic_lem :
    (produces : Bool)
    → AreInverse
        (if produces then EdgeKinds.publishes else EdgeKinds.consumes)
        (if produces then EdgeKinds.published_by else EdgeKinds.consumed_by)
unfolding inverse Text-discrete
topic_lem true = (refl, refl)
topic_lem false = (refl, refl)

endpoint_side-inverse :
    (parse : Text → Option Url) (r : Record) (kind : Text) (sd : Side)
    → endpoint_side parse r kind ≡ some sd
    → AreInverse sd.forward sd.reverse
unfolding endpoint_side server_side client_side
endpoint_side-inverse parse r kind sd h = ground (arith, exposes_lem, calls_lem)

-- The prefix of an id of a kind is the kind and a colon.
abbrev HasKind : Kind → Text → Type 0
HasKind kind id = (is_relationship_id id ≡ true) × (has_prefix id (kind ++ b':' ∷ []) ≡ true)

endpoint_kind :
    (svc method route : Text) → HasKind Kinds.endpoint (make_endpoint_id svc method route).0
unfolding is_relationship_id make_endpoint_id
endpoint_kind svc method route = ground arith

topic_kind : (name : Text) → HasKind Kinds.topic (codes "topic:" ++ name)
unfolding is_relationship_id
topic_kind name = ground arith

database_kind :
    (system host port : Text) → HasKind Kinds.database (make_database_id system host port).0
unfolding is_relationship_id make_database_id
database_kind system host port = ground arith

-- A relationship that the endpoint deriver finds has an id that graph-otel owns and that begins with
-- its kind, and the edge kinds of its two directions are each other's inverses.
pub endpoint_relationship-IsSound :
    (parse : Text → Option Url) (r : Record) (rel : Relationship)
    → endpoint_relationship parse r ≡ some rel
    → IsSound rel
unfolding endpoint_relationship
endpoint_relationship-IsSound parse r rel h =
    let series = r.series_attrs in
    let span_kind = normalize_span_kind (attr series attr_span_kind) in
    elim (Option-cases (endpoint_side parse r span_kind)) [
      | inl e ↦ ground arith
      | inr (sd, e) ↦ ground (
        arith,
        endpoint_side-inverse parse r span_kind sd e,
        endpoint_kind sd.svc_name (attr series attr_http_method) (normalize_route sd.route),
      )
    ]

-- A relationship that the topic deriver finds has an id that graph-otel owns and that begins with its
-- kind, and the edge kinds of its two directions are each other's inverses.
pub topic_relationship-IsSound :
    (r : Record) (rel : Relationship) → topic_relationship r ≡ some rel → IsSound rel
unfolding topic_relationship
topic_relationship-IsSound r rel h = ground (
  arith,
  topic_kind (extract_topic_name (attr r.series_attrs attr_span_name)),
  topic_lem (normalize_span_kind (attr r.series_attrs attr_span_kind) == codes "PRODUCER"),
)

-- A relationship that the database deriver finds has an id that graph-otel owns and that begins with
-- its kind, and the edge kinds of its two directions are each other's inverses.
pub database_relationship-IsSound :
    (r : Record) (rel : Relationship) → database_relationship r ≡ some rel → IsSound rel
unfolding database_relationship
database_relationship-IsSound r rel h =
    let series = r.series_attrs in
    ground (
      arith,
      queries_lem,
      database_kind (attr series attr_db_system) (attr series attr_server_address)
          (attr series attr_server_port),
    )

-- A relationship that one of the derivers finds has an id that graph-otel owns and that begins with
-- its kind, and the edge kinds of its two directions are each other's inverses.
pub relationship-IsSound :
    (parse : Text → Option Url) (r : Record) (rel : Relationship)
    → (endpoint_relationship parse r ≡ some rel)
      ⊎ ((topic_relationship r ≡ some rel) ⊎ (database_relationship r ≡ some rel))
    → IsSound rel
relationship-IsSound parse r rel (inl h) = endpoint_relationship-IsSound parse r rel h
relationship-IsSound parse r rel (inr (inl h)) = topic_relationship-IsSound r rel h
relationship-IsSound parse r rel (inr (inr h)) = database_relationship-IsSound r rel h

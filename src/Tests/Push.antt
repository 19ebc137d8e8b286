-- ===== src/Tests/Push.antt =====
-- A push of two datapoints, one of them a producer's, and a sweep.
use otel_k8s_graph.Base.{
  Text, List, [], ◌∷◌, Map, Option, none, codes, Text-discrete, text_DecEq, nat_DecEq, lookup,
  insert, ◌≡◌, refl, arith,
}
use otel_k8s_graph.BatchSet.{EdgeSetKey-discrete, new_batch_write_set, counts, add_edges, upsert}
use otel_k8s_graph.Builder.Templatize.{Url, templatize_attrs}
use otel_k8s_graph.Builder.Record.{relate}
use otel_k8s_graph.Builder.Derive.{derive, emitter_id, emitter_for}
use otel_k8s_graph.Builder.Endpoints.{
  normalize_span_kind, endpoint_relationship, endpoint_side, server_side, client_side,
  derive_endpoint_edges,
}
use otel_k8s_graph.Builder.Topics.{topic_relationship, extract_topic_name, derive_topic_edges}
use otel_k8s_graph.Builder.Databases.{database_relationship, derive_database_edges}
use otel_k8s_graph.Receiver.{
  sum, other, ResourceMetrics, stringify_map, derive_point, derive_all, export, expire_and_snapshot,
}
use otel_k8s_graph.Receiver.Invariant.{IsRelationshipSet}
use otel_k8s_graph.Receiver.Reachable.{
  push, sweep, here, next, total_datapoints, derive_all-IsRelationshipSet, Reach-IsRelationshipSet,
}

-- A server where no text parses as a URL, and values are texts already.
abbrev pub parse : Text → Option Url
parse s = none

abbrev pub as_string : Text → Text
as_string v = v

abbrev pub producer : Map Text Text
producer =
    (codes "span.kind", codes "SPAN_KIND_PRODUCER")
    ∷ (codes "span.name", codes "orders publish")
    ∷ []

abbrev pub pod_attrs : Map Text Text
pod_attrs = (codes "k8s.namespace.name", codes "shop") ∷ (codes "k8s.pod.name", codes "cart-1") ∷ []

abbrev pub md : List (ResourceMetrics Text)
md =
    record {
      attributes = pod_attrs;
      scope_metrics = record { metrics = sum (producer ∷ [] ∷ []) ∷ other ∷ [] } ∷ [];
    }
    ∷ []

-- Both datapoints count; the first gives a topic and its two edges.
derive_all_sample : counts (derive_all as_string parse md).0 ≡ (1, 2, 0)
unfolding derive_all derive_point stringify_map derive emitter_id emitter_for relate
    derive_endpoint_edges endpoint_relationship endpoint_side server_side client_side
    derive_topic_edges topic_relationship extract_topic_name derive_database_edges
    database_relationship counts Text-discrete EdgeSetKey-discrete lookup insert templatize_attrs
    normalize_span_kind add_edges upsert
derive_all_sample = refl

derive_all-IsRelationshipSet_example :
    IsRelationshipSet 0 (derive_all as_string parse md).0
    × ((derive_all as_string parse md).1 ≡ total_datapoints md)
derive_all-IsRelationshipSet_example = derive_all-IsRelationshipSet as_string parse md

Reach-IsRelationshipSet_example :
    IsRelationshipSet 5 (expire_and_snapshot 3 (export as_string parse md 5 new_batch_write_set)).0
Reach-IsRelationshipSet_example =
    Reach-IsRelationshipSet as_string parse (next (next here (push md 5 (omega arith))) (sweep 3))

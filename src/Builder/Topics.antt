-- ===== src/Builder/Topics.antt =====
-- internal/builder/topics.go: messaging topics from producer and consumer spans.
use otel_k8s_graph.Base.{
  Text, [], ◌++◌, Option, none, some, ◌||◌, codes, text_DecEq, nat_DecEq, if◌then◌else◌, ◌==◌, leb,
}
use otel_k8s_graph.Strings.{space, take, index_byte}
use otel_k8s_graph.Graph.{Writer}
use otel_k8s_graph.Graph.Kinds
use otel_k8s_graph.Graph.EdgeKinds
use otel_k8s_graph.Builder.Record.{Record, attr, Relationship, ◌>>=◌, ◌>>◌, guard, required, relate}
use otel_k8s_graph.Builder.Templatize.{attr_span_name}
use otel_k8s_graph.Builder.Endpoints.{normalize_span_kind, attr_span_kind}

-- `sp <= 0` holds where there is no space and where it comes first.
unfoldable pub extract_topic_name : Text → Text
unfolding index_byte take
extract_topic_name span_name = elim (index_byte span_name space) [
  | none ↦ []
  | some sp ↦ if leb sp 0 then [] else take sp span_name
]

unfoldable pub topic_relationship : Record → Option Relationship
topic_relationship r = do
  let span_kind = normalize_span_kind (attr r.series_attrs attr_span_kind)
  guard (span_kind == codes "PRODUCER" || span_kind == codes "CONSUMER")
  topic_name ← required (extract_topic_name (attr r.series_attrs attr_span_name))
  let produces = span_kind == codes "PRODUCER"
  some (record {
    forward = if produces then EdgeKinds.publishes else EdgeKinds.consumes;
    reverse = if produces then EdgeKinds.published_by else EdgeKinds.consumed_by;
    rel_id = codes "topic:" ++ topic_name;
    rel_kind = Kinds.topic;
    rel_name = topic_name;
    action = [];
  })

unfoldable pub derive_topic_edges : {S : Type 0} → Writer S → Record → Text → S → S
derive_topic_edges w r emitter_id s = relate w emitter_id (topic_relationship r) s

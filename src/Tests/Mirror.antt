-- ===== src/Tests/Mirror.antt =====
-- A push, and the first flush after it.
use otel_k8s_graph.Base.{
  ℕ, none, true, false, Text-discrete, text_DecEq, nat_DecEq, lookup, insert, insert_all, ◌≡◌, refl,
  arith,
}
use otel_k8s_graph.Graph.{Time}
use otel_k8s_graph.BatchSet.{EdgeSetKey-discrete, new_batch_write_set}
use otel_k8s_graph.BatchSet.{add_edges, upsert, merge, expire, snapshot}
use otel_k8s_graph.Builder.Templatize.{templatize_attrs}
use otel_k8s_graph.Builder.Record.{relate}
use otel_k8s_graph.Builder.Derive.{derive, emitter_id, emitter_for}
use otel_k8s_graph.Builder.Endpoints.{
  normalize_span_kind, endpoint_relationship, endpoint_side, server_side, client_side,
  derive_endpoint_edges,
}
use otel_k8s_graph.Builder.Topics.{topic_relationship, extract_topic_name, derive_topic_edges}
use otel_k8s_graph.Builder.Databases.{database_relationship, derive_database_edges}
use otel_k8s_graph.Receiver.{export, derive_all, derive_point, stringify_map}
use otel_k8s_graph.Flusher.{Process, flush_once}
use otel_k8s_graph.Flusher.Edges.{LacksEdgesIds}
use otel_k8s_graph.Flusher.Mirror.{
  IsMirror, Reach, start, push, flush, others, KeepsRelationships, LacksRelationships, last_left,
  Reach-IsMirror,
}
use otel_k8s_graph.Base.{
  Text, [], ◌∷◌, Map, Bool, ◌&&◌, ◌==◌, codes, sym, subst, ==→≡, inl, inr, Bool-cases,
}
use otel_k8s_graph.BatchSet.{EdgeSetKey, edge_key_DecEq}
use otel_k8s_graph.Builder.Derive.Sound.{is_relationship_id}
use otel_k8s_graph.Delta.{edge_of}
use otel_k8s_graph.Delta.Edges.{is_valid, HasValidEdges}
use otel_k8s_graph.Graph.Keys.{key_ids, key_ids-distinct}
use otel_k8s_graph.Redis.{sadd}
use otel_k8s_graph.Receiver.{expire_and_snapshot}
use otel_k8s_graph.Tests.Push.{as_string, md, parse}
use otel_k8s_graph.Tests.Flush.{
  server, server-IsLawful, marshal, marshal-IsInjective, is_ascii, prefix, Tables, step,
}

abbrev unix_milli : Time → ℕ
unix_milli now = now

abbrev blank : Tables
blank = record { field_of = λ key f. none; member_of = λ key m. false }

abbrev begun : Process server marshal unix_milli prefix 100
begun = record { set = new_batch_write_set; previous = new_batch_write_set; db = blank }

abbrev pushed : Process server marshal unix_milli prefix 100
pushed = record begun { set = export as_string parse md 5 new_batch_write_set }

new-LacksEdgesIds : LacksEdgesIds new_batch_write_set
unfolding lookup
new-LacksEdgesIds id = refl

-- graph-k8s adds the id of a pod.
abbrev pod_id : Text
pod_id = codes "pod:shop/cart-1"

abbrev shared : Process server marshal unix_milli prefix 100
shared = record pushed { db = step (sadd (key_ids prefix) pod_id) blank }

pod_id_kept :
    KeepsRelationships server server-IsLawful is_ascii marshal marshal-IsInjective unix_milli prefix
      100 as_string parse blank shared.db
unfolding step is_relationship_id Text-discrete
pod_id_kept = record {
  ids = λ id rel. elim (Bool-cases (pod_id == id)) [
    | inl e ↦
        let same = ==→≡ pod_id id e in
        let pod_rel = subst (λ x. is_relationship_id x ≡ true) (sym same) rel in
        absurd (ground arith)
    | inr e ↦ ground arith
  ];
  edges = λ k own. ground (arith, key_ids-distinct prefix k.from []);
}

all_ascii : Map EdgeSetKey Time → Bool
all_ascii [] = true
all_ascii ((g, t) ∷ es) = is_valid is_ascii (edge_of g) && all_ascii es

all_ascii_lem : (es : Map EdgeSetKey Time) → all_ascii es ≡ true → HasValidEdges is_ascii es
unfolding all_ascii lookup
all_ascii_lem [] h j i = absurd (ground arith)
all_ascii_lem ((g, t) ∷ es) h j i = elim (Bool-cases (g == j)) [
  | inl e ↦
      let same : g ≡ j = ==→≡ g j e in
      let first : is_valid is_ascii (edge_of g) ≡ true = ground arith in
      subst (λ x. is_valid is_ascii (edge_of x) ≡ true) same first
  | inr e ↦ let rest : all_ascii es ≡ true = ground arith in all_ascii_lem es rest j (rw e at i)
]

snapshot_ascii : all_ascii (expire_and_snapshot 0 shared.set).1.edges ≡ true
unfolding all_ascii expire_and_snapshot snapshot insert_all expire export merge derive_all
    derive_point stringify_map derive emitter_id emitter_for relate derive_endpoint_edges
    endpoint_relationship endpoint_side server_side client_side derive_topic_edges
    topic_relationship extract_topic_name derive_database_edges database_relationship Text-discrete
    EdgeSetKey-discrete lookup insert templatize_attrs normalize_span_kind add_edges upsert
snapshot_ascii = refl

pushed_ok : (flush_once server marshal unix_milli prefix 100 6 shared).1 ≡ true
unfolding flush_once snapshot insert_all expire export merge derive_all derive_point stringify_map
    derive emitter_id emitter_for relate derive_endpoint_edges endpoint_relationship endpoint_side
    server_side client_side derive_topic_edges topic_relationship extract_topic_name
    derive_database_edges database_relationship Text-discrete EdgeSetKey-discrete lookup insert
    templatize_attrs normalize_span_kind add_edges upsert
pushed_ok = refl

blank-LacksRelationships :
    LacksRelationships server server-IsLawful is_ascii marshal marshal-IsInjective unix_milli prefix
      100 as_string parse blank
blank-LacksRelationships = record { ids = λ id rel. refl; edges = λ k own. refl }

reached :
    Reach server server-IsLawful is_ascii marshal marshal-IsInjective unix_milli prefix 100
      as_string parse blank 5
      (flush_once server marshal unix_milli prefix 100 6 shared).0
reached =
    flush 6 (others shared.db (push md 5 start (omega arith)) pod_id_kept) new-LacksEdgesIds
      (all_ascii_lem _ snapshot_ascii) pushed_ok

Reach-IsMirror_example :
    IsMirror server server-IsLawful is_ascii marshal marshal-IsInjective unix_milli prefix 100 5
      (flush_once server marshal unix_milli prefix 100 6 shared).0
    × ((id : Text)
        → is_relationship_id id ≡ false
        → (flush_once server marshal unix_milli prefix 100 6 shared).0.db.member_of
            (key_ids prefix)
            id
          ≡ (last_left server server-IsLawful is_ascii marshal marshal-IsInjective unix_milli prefix
                100 as_string parse reached).member_of
              (key_ids prefix)
              id)
Reach-IsMirror_example =
    Reach-IsMirror server server-IsLawful is_ascii marshal marshal-IsInjective unix_milli prefix 100
      as_string parse blank-LacksRelationships reached

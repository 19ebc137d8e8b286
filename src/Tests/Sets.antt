-- ===== src/Tests/Sets.antt =====
-- A set as graph-otel holds it: a topic and a database, and a pod that publishes and queries.
use otel_k8s_graph.Base.{
  Text, [], ◌∷◌, some, codes, Text-discrete, text_DecEq, nat_DecEq, ◌or_else◌, map_option, lookup,
  insert, delete, insert_all, ◌≡◌, refl, sym, subst, arith, HasUniqueKeys,
}
use otel_k8s_graph.Graph.Kinds
use otel_k8s_graph.Graph.EdgeKinds
use otel_k8s_graph.BatchSet.{
  EdgeSetKey, EdgeSetKey-discrete, edge_key_DecEq, BatchWriteSet, merge, expire, counts, stamp,
}
use otel_k8s_graph.BatchSet.Reads.{recorded, merge_lem, Expired, expire-exact}
use otel_k8s_graph.BatchSet.WellFormed.{IsMetadata, IsWellFormed}

abbrev pub pod_1 : Text
pod_1 = codes "pod:shop/cart-1"

abbrev pub orders : Text
orders = codes "topic:orders"

abbrev pub users : Text
users = codes "database:postgresql/users"

abbrev pub publishing : EdgeSetKey
publishing = record { from = pod_1; kind = EdgeKinds.publishes; to = orders; action = [] }

abbrev pub published : EdgeSetKey
published = record { from = orders; kind = EdgeKinds.published_by; to = pod_1; action = [] }

abbrev pub querying : EdgeSetKey
querying = record { from = pod_1; kind = EdgeKinds.queries; to = users; action = codes "SELECT" }

abbrev pub sample : BatchWriteSet
sample = record {
  entities =
      (orders, record { kind = Kinds.topic; name = codes "orders"; last_seen = 7 })
      ∷ (users, record { kind = Kinds.database; name = codes "postgresql@users"; last_seen = 3 })
      ∷ [];
  edges = (publishing, 7) ∷ (querying, 3) ∷ (published, 7) ∷ [];
  metas = (users, (codes "team", codes "core") ∷ []) ∷ [];
}

abbrev pub pushed : BatchWriteSet
pushed = record {
  entities = (users, record { kind = Kinds.database; name = codes "users"; last_seen = 0 }) ∷ [];
  edges = (querying, 0) ∷ [];
  metas = (orders, (codes "team", []) ∷ (codes "tier", codes "1") ∷ []) ∷ [];
}

unique_entities : HasUniqueKeys sample.entities
unfolding lookup Text-discrete
unique_entities = (refl, (refl, tt))

unique_edges : HasUniqueKeys sample.edges
unfolding lookup Text-discrete EdgeSetKey-discrete
unique_edges = (refl, (refl, (refl, tt)))

-- The sweep drops what was last seen before the cutoff, with its metadata.
expire-sample : expire 5 sample ≡ (
  record {
    entities = (orders, record { kind = Kinds.topic; name = codes "orders"; last_seen = 7 }) ∷ [];
    edges = (publishing, 7) ∷ (published, 7) ∷ [];
    metas = [];
  },
  1,
  1,
)
unfolding expire Text-discrete EdgeSetKey-discrete delete
expire-sample = refl

-- The boundary is strict.
expire_boundary : (expire 3 sample).1 ≡ 0
unfolding expire Text-discrete EdgeSetKey-discrete delete
expire_boundary = refl

-- A merge stamps what it brings, and drops empty metadata values.
merge-sample : merge (some pushed) 9 sample ≡ record {
  entities =
      (orders, record { kind = Kinds.topic; name = codes "orders"; last_seen = 7 })
      ∷ (users, record { kind = Kinds.database; name = codes "users"; last_seen = 9 })
      ∷ [];
  edges = (publishing, 7) ∷ (querying, 9) ∷ (published, 7) ∷ [];
  metas =
      (users, (codes "team", codes "core") ∷ []) ∷ (orders, (codes "tier", codes "1") ∷ []) ∷ [];
}
unfolding merge Text-discrete EdgeSetKey-discrete lookup insert insert_all
merge-sample = refl

counts-sample : counts sample ≡ (2, 3, 1)
unfolding counts
counts-sample = refl

expire-exact_example : Expired 5 sample (expire 5 sample).0 (expire 5 sample).1 (expire 5 sample).2
expire-exact_example = expire-exact 5 sample unique_entities unique_edges

pushed_entities : HasUniqueKeys pushed.entities
unfolding lookup
pushed_entities = (refl, tt)

pushed_edges : HasUniqueKeys pushed.edges
unfolding lookup
pushed_edges = (refl, tt)

pushed_metas : HasUniqueKeys pushed.metas
unfolding lookup
pushed_metas = (refl, tt)

team-IsMetadata : IsMetadata ((codes "team", codes "core") ∷ [])
unfolding lookup
team-IsMetadata = record {
  unique = (refl, tt);
  some_entry = λ h. cc;
  some_values = λ k h. ground arith;
}

sample-IsWellFormed : IsWellFormed sample
unfolding lookup Text-discrete
sample-IsWellFormed = record {
  entities = unique_entities;
  edges = unique_edges;
  metas = (refl, tt);
  values = λ id md h.
      let e : md ≡ (codes "team", codes "core") ∷ [] = ground arith in
      subst IsMetadata (sym e) team-IsMetadata;
}

merge_lem_example :
    ((id : Text)
      → lookup id (merge (some pushed) 9 sample).entities
        ≡ (map_option (stamp 9) (lookup id pushed.entities) or_else lookup id sample.entities))
    × ((k : EdgeSetKey)
        → lookup k (merge (some pushed) 9 sample).edges
          ≡ (map_option (λ _. 9) (lookup k pushed.edges) or_else lookup k sample.edges))
    × ((id : Text)
        → lookup id (merge (some pushed) 9 sample).metas
          ≡ (lookup id sample.metas or_else recorded (lookup id pushed.metas)))
merge_lem_example = merge_lem pushed sample 9 pushed_entities pushed_edges pushed_metas

-- ===== src/BatchSet.antt =====
-- internal/graph/batchset.go, and `Snapshot` of internal/graph/batchset_redis.go: the in-memory
-- accumulator of the relationship graph.
pub mod Sweep
pub mod WellFormed
pub mod Reads
pub mod Copy
use otel_k8s_graph.Base.{
  ℕ, suc, Text, List, [], ◌∷◌, Map, Option, none, some, Bool, true, false, codes, DecEq,
  Text-discrete, text_DecEq, if◌then◌else◌, ◌==◌, ltb, is_some, lookup, insert, delete, insert_all,
  length, reject,
}
use otel_k8s_graph.Graph.{Kind, EdgeKind, Time, EdgeTo, Writer}

pub record EntitySetVal : Type 0 where
  pub kind : Kind
  pub name : Text
  pub last_seen : Time

pub record EdgeSetKey : Type 0 where
  pub from : Text
  pub kind : EdgeKind
  pub to : Text
  pub action : Text

unfoldable pub EdgeSetKey-discrete : Discrete EdgeSetKey
unfolding Text-discrete
EdgeSetKey-discrete = hlevel Text-discrete

instance abbrev pub edge_key_DecEq : DecEq EdgeSetKey
edge_key_DecEq = record { eq = EdgeSetKey-discrete }

pub record BatchWriteSet : Type 0 where
  pub entities : Map Text EntitySetVal
  pub edges : Map EdgeSetKey Time
  pub metas : Map Text (Map Text Text)

abbrev pub new_batch_write_set : BatchWriteSet
new_batch_write_set = record { entities = []; edges = []; metas = [] }

-- The key under which an edge from `from_id` is recorded.
abbrev pub edge_set_key : Text → EdgeTo → EdgeSetKey
edge_set_key from_id e = record { from = from_id; kind = e.kind; to = e.to_id; action = e.action }

-- The zero `time.Time`.
abbrev pub zero_time : Time
zero_time = 0

unfoldable pub upsert : Text → Kind → Text → BatchWriteSet → BatchWriteSet
upsert id kind name s = record s {
  entities = insert id (record { kind = kind; name = name; last_seen = zero_time }) s.entities;
}

unfoldable pub add_edges : Text → List EdgeTo → BatchWriteSet → BatchWriteSet
add_edges from_id [] s = s
add_edges from_id (e ∷ es) s =
    add_edges from_id es (record s { edges = insert (edge_set_key from_id e) zero_time s.edges })

-- The loop of `upsert_with_edges`.
unfoldable pub upsert_targets : Text → List EdgeTo → BatchWriteSet → BatchWriteSet
upsert_targets from_id [] s = s
upsert_targets from_id (e ∷ es) s = upsert_targets from_id es (record s {
  entities =
      insert e.to_id (record { kind = e.to_kind; name = e.to_name; last_seen = zero_time })
        s.entities;
  edges = insert (edge_set_key from_id e) zero_time s.edges;
})

unfoldable pub upsert_with_edges : Text → Kind → Text → List EdgeTo → BatchWriteSet → BatchWriteSet
unfolding upsert upsert_targets
upsert_with_edges from_id from_kind from_name es s =
    upsert_targets from_id es (upsert from_id from_kind from_name s)

abbrev pub is_empty_text : Text → Bool
is_empty_text [] = true
is_empty_text (_ ∷ _) = false

-- The loop of `set_metadata`: a copy without the empty values.
unfoldable pub copy_non_empty : Map Text Text → Map Text Text → Map Text Text
copy_non_empty [] m = m
copy_non_empty ((k, v) ∷ rest) m = copy_non_empty rest (if is_empty_text v then m else insert k v m)

-- Store a copy that holds something.
unfoldable pub store_metadata : Text → Map Text Text → BatchWriteSet → BatchWriteSet
store_metadata id [] s = s
store_metadata id (kv ∷ m) s = record s { metas = insert id (kv ∷ m) s.metas }

unfoldable pub set_metadata : Text → Map Text Text → BatchWriteSet → BatchWriteSet
unfolding copy_non_empty store_metadata
set_metadata id [] s = s
set_metadata id (kv ∷ metadata) s =
    if is_some (lookup id s.metas)
    then s
    else store_metadata id (copy_non_empty (kv ∷ metadata) []) s

-- `set_metadata` for every entry of the other set.
unfoldable pub merge_metas : Map Text (Map Text Text) → BatchWriteSet → BatchWriteSet
unfolding set_metadata
merge_metas [] s = s
merge_metas ((id, md) ∷ rest) s = merge_metas rest (set_metadata id md s)

abbrev pub stamp : Time → EntitySetVal → EntitySetVal
stamp now v = record v { last_seen = now }

unfoldable pub merge : Option BatchWriteSet → Time → BatchWriteSet → BatchWriteSet
unfolding merge_metas
merge none now s = s
merge (some other) now s = merge_metas other.metas (record s {
  entities = insert_all (stamp now) other.entities s.entities;
  edges = insert_all (λ _. now) other.edges s.edges;
})

-- The first loop of `expire`, over the entities that were there when it began.
unfoldable pub expire_entities :
    Time → Map Text EntitySetVal → BatchWriteSet × ℕ → BatchWriteSet × ℕ
expire_entities cutoff [] r = r
expire_entities cutoff ((id, v) ∷ rest) (s, entities) = expire_entities cutoff rest (
    if ltb v.last_seen cutoff
    then (record s { entities = delete id s.entities; metas = delete id s.metas }, suc entities)
    else (s, entities))

-- The second loop of `expire`.
unfoldable pub expire_edges : Time → Map EdgeSetKey Time → BatchWriteSet × ℕ → BatchWriteSet × ℕ
expire_edges cutoff [] r = r
expire_edges cutoff ((k, last_seen) ∷ rest) (s, edges) = expire_edges cutoff rest (
    if ltb last_seen cutoff then (record s { edges = delete k s.edges }, suc edges) else (s, edges))

-- The set that is left, and how many entities and edges were dropped.
unfoldable pub expire : Time → BatchWriteSet → BatchWriteSet × ℕ × ℕ
unfolding expire_entities expire_edges
expire cutoff s =
    let (s', entities) = expire_entities cutoff s.entities (s, 0) in
    let (s'', edges) = expire_edges cutoff s'.edges (s', 0) in (s'', entities, edges)

unfoldable pub counts : BatchWriteSet → ℕ × ℕ × ℕ
counts s = (length s.entities, length s.edges, length s.metas)

-- A deep copy, map by map.
unfoldable pub snapshot : BatchWriteSet → BatchWriteSet
snapshot s = record {
  entities = insert_all (λ v. v) s.entities [];
  edges = insert_all (λ t. t) s.edges [];
  metas = insert_all (λ md. insert_all (λ v. v) md []) s.metas [];
}

-- *BatchWriteSet satisfies Writer.
abbrev pub batch_writer : Writer BatchWriteSet
batch_writer = record {
  upsert = upsert;
  upsert_with_edges = upsert_with_edges;
  set_metadata = set_metadata;
  add_edges = add_edges;
}

-- ===== src/Delta.antt =====
-- `WriteDeltaToRedis` of internal/graph/batchset_redis.go: the difference between two sets, written
-- in pipelines. `json.Marshal` of an edge is a parameter, and the server is that of Redis.antt.
pub mod Commands
pub mod Pipeline
pub mod Ids
pub mod Edges
pub mod Effect
use otel_k8s_graph.Base.{
  ℕ, zero, suc, ◌+◌, ◌-◌, Text, List, [], ◌∷◌, ◌++◌, Map, Option, none, some, Bool, true, false,
  not, codes, text_DecEq, nat_DecEq, if◌then◌else◌, ◌==◌, leb, is_some, lookup, length, count,
}
use otel_k8s_graph.Base.{decimal}
use otel_k8s_graph.Graph.{Edge, Time}
use otel_k8s_graph.Graph.Keys.{key_entity, key_metadata, key_edges, key_by_kind, key_ids}
use otel_k8s_graph.BatchSet.{
  EntitySetVal, EdgeSetKey, BatchWriteSet, new_batch_write_set, edge_key_DecEq,
}
use otel_k8s_graph.Redis.{Cmd, hset, sadd, srem, del, Redis}

pub record FlushStats : Type 0 where
  pub added_entities : ℕ
  pub removed_entities : ℕ
  pub added_edges : ℕ
  pub removed_edges : ℕ
  pub commands : ℕ

abbrev pub no_stats : FlushStats
no_stats = record {
  added_entities = 0;
  removed_entities = 0;
  added_edges = 0;
  removed_edges = 0;
  commands = 0;
}

-- st.AddedEntities++ and the like
abbrev pub count_added_entity : FlushStats → FlushStats
count_added_entity st = record st { added_entities = suc st.added_entities }

abbrev pub count_removed_entity : FlushStats → FlushStats
count_removed_entity st = record st { removed_entities = suc st.removed_entities }

abbrev pub count_added_edge : FlushStats → FlushStats
count_added_edge st = record st { added_edges = suc st.added_edges }

abbrev pub count_removed_edge : FlushStats → FlushStats
count_removed_edge st = record st { removed_edges = suc st.removed_edges }

-- The fields of an entity's hash, with the milliseconds of the flush.
abbrev pub entity_fields : Text → EntitySetVal → ℕ → Map Text Text
entity_fields id e ms =
    (codes "id", id)
    ∷ (codes "kind", e.kind)
    ∷ (codes "name", e.name)
    ∷ (codes "last_seen_at_ms", decimal ms)
    ∷ []

abbrev pub edge_of : EdgeSetKey → Edge
edge_of k = record { kind = k.kind; to_resource = k.to; action = k.action }

abbrev pub metadata_cmds : Text → Text → Option (Map Text Text) → List Cmd
metadata_cmds prefix id none = []
metadata_cmds prefix id (some []) = []
metadata_cmds prefix id (some (kv ∷ md)) = hset (key_metadata prefix id) (kv ∷ md) ∷ []

-- The commands for an entity that is new, and for one that is gone.
abbrev pub add_entity_cmds : Text → ℕ → Text → EntitySetVal → Option (Map Text Text) → List Cmd
add_entity_cmds prefix ms id e md =
    hset (key_entity prefix id) (entity_fields id e ms)
    ∷ sadd (key_by_kind prefix e.kind) id
    ∷ sadd (key_ids prefix) id
    ∷ metadata_cmds prefix id md

abbrev pub remove_entity_cmds : Text → Text → EntitySetVal → List Cmd
remove_entity_cmds prefix id e =
    del (key_entity prefix id ∷ key_metadata prefix id ∷ key_edges prefix id ∷ [])
    ∷ srem (key_ids prefix) id
    ∷ srem (key_by_kind prefix e.kind) id
    ∷ []

module _ (r : Redis) (chunk : ℕ) where
  -- The variables of a flush.
  pub record Writing : Type 0 where
    pub db : r.Db
    pub pipe : List Cmd
    pub n : ℕ
    pub stats : FlushStats

  -- A step gives the new variables, and whether there was no error.
  abbrev pub Step : Type 0
  Step = Writing → Writing × Bool

  infixl 5 ◌>>◌
  -- if err := m; err != nil { return st, err }
  abbrev pub ◌>>◌ : Step → Step → Step
  (m >> k) w = let done = m w in if done.1 then k done.0 else (done.0, false)

  unfoldable pub flush : Step
  flush w =
      let sent = r.exec w.pipe w.db in
      if w.n == 0
      then (w, true)
      else (record { db = sent.0; pipe = []; n = 0; stats = w.stats }, sent.1)

  -- `add`, after the commands were queued
  unfoldable pub add : ℕ → Step
  unfolding flush
  add cmds w =
      let stats = w.stats in
      let w' = record w {
        n = w.n + cmds;
        stats = record stats { commands = stats.commands + cmds };
      } in
      if leb chunk w'.n then flush w' else (w', true)

  -- Queue commands, count what they are for, and `add`.
  unfoldable pub queue : List Cmd → ℕ → (FlushStats → FlushStats) → Step
  unfolding add
  queue cs cmds tally w = add cmds (record w { pipe = w.pipe ++ cs; stats = tally w.stats })

  unfoldable pub for_each : {A : Type 0} → (A → Step) → List A → Step
  for_each body [] w = (w, true)
  for_each body (x ∷ xs) w =
      let done = body x w in if done.1 then for_each body xs done.0 else (done.0, false)

  module _ (marshal : Edge → Text) (prefix : Text) (ms : ℕ) (s prev : BatchWriteSet) where
    unfoldable pub add_entity : Text × EntitySetVal → Step
    unfolding queue
    add_entity (id, e) w =
        let md = metadata_cmds prefix id (lookup id s.metas) in
        let write =
          queue (add_entity_cmds prefix ms id e (lookup id s.metas)) (3 + length md)
            count_added_entity in
        if is_some (lookup id prev.entities) then (w, true) else write w

    unfoldable pub remove_entity : Text × EntitySetVal → Step
    unfolding queue
    remove_entity (id, e) w =
        let write = queue (remove_entity_cmds prefix id e) 3 count_removed_entity in
        if is_some (lookup id s.entities) then (w, true) else write w

    unfoldable pub add_edge : EdgeSetKey × Time → Step
    unfolding queue
    add_edge (k, t) w =
        let write =
          queue (sadd (key_edges prefix k.from) (marshal (edge_of k)) ∷ []) 1 count_added_edge in
        if is_some (lookup k prev.edges) then (w, true) else write w

    unfoldable pub remove_edge : EdgeSetKey × Time → Step
    unfolding queue
    remove_edge (k, t) w =
        let write =
          queue (srem (key_edges prefix k.from) (marshal (edge_of k)) ∷ []) 1 count_removed_edge in
        if is_some (lookup k s.edges) then (w, true) else write w

    unfoldable pub write_loops : Step
    write_loops =
        for_each add_entity s.entities
        >> for_each remove_entity prev.entities
        >> for_each add_edge s.edges
        >> for_each remove_edge prev.edges
        >> flush

-- A size that is not positive is 1000.
abbrev pub chunk_or_default : ℕ → ℕ
chunk_or_default zero = 1000
chunk_or_default (suc n) = suc n

-- A nil set is an empty one.
abbrev pub or_empty : Option BatchWriteSet → BatchWriteSet
or_empty none = new_batch_write_set
or_empty (some s) = s

-- The database after the call, the statistics, and whether there was no error.
unfoldable pub write_delta_to_redis :
    (r : Redis)
    → (Edge → Text)
    → Text
    → ℕ
    → ℕ
    → BatchWriteSet
    → Option BatchWriteSet
    → r.Db
    → r.Db × FlushStats × Bool
unfolding for_each add_entity remove_entity add_edge remove_edge flush write_loops
write_delta_to_redis r marshal prefix chunk_size ms s prev db =
    let done =
      write_loops r (chunk_or_default chunk_size) marshal prefix ms s (or_empty prev)
        (record { db = db; pipe = []; n = 0; stats = no_stats }) in
    (done.0.db, done.0.stats, done.1)

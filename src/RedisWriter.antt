-- ===== src/RedisWriter.antt =====
-- internal/graph/rediswriter.go: the writer of graph-k8s, which buffers commands and sends them when
-- enough have come, on the ticker and on Close. Each call holds the lock, so a run is a list of calls.
pub mod Batches
pub mod Buffer
pub mod Ids
use otel_k8s_graph.Base.{
  ℕ, zero, suc, ◌+◌, ◌-◌, Text, List, [], ◌∷◌, ◌++◌, Map, not, codes, text_DecEq, nat_DecEq,
  if◌then◌else◌, ◌==◌, leb,
}
use otel_k8s_graph.Base.{decimal}
use otel_k8s_graph.Graph.{Kind, Edge}
use otel_k8s_graph.Graph.Keys.{key_entity, key_metadata, key_edges, key_by_kind, key_ids}
use otel_k8s_graph.Redis.{Cmd, hset, sadd, srem, del, Redis}

-- The arguments of the second HSet: empty values are left out.
unfoldable pub meta_args : Map Text Text → Map Text Text
meta_args [] = []
meta_args ((k, []) ∷ md) = meta_args md
meta_args ((k, c ∷ v) ∷ md) = (k, c ∷ v) ∷ meta_args md

abbrev pub metadata_part : Text → Text → Map Text Text → List Cmd
metadata_part prefix id [] = []
metadata_part prefix id (kv ∷ args) = hset (key_metadata prefix id) (kv ∷ args) ∷ []

-- The commands of UpsertEntity, at a time in milliseconds.
abbrev pub upsert_cmds : Text → ℕ → Text → Kind → Text → Map Text Text → List Cmd
upsert_cmds prefix now_ms id kind name args =
    hset (key_entity prefix id) (
      (codes "id", id)
      ∷ (codes "kind", kind)
      ∷ (codes "name", name)
      ∷ (codes "last_seen_at_ms", decimal now_ms)
      ∷ [])
    ∷ sadd (key_by_kind prefix kind) id
    ∷ sadd (key_ids prefix) id
    ∷ metadata_part prefix id args

abbrev pub delete_cmds : Text → Text → Kind → List Cmd
delete_cmds prefix id kind =
    del (key_entity prefix id ∷ key_metadata prefix id ∷ key_edges prefix id ∷ [])
    ∷ srem (key_ids prefix) id
    ∷ srem (key_by_kind prefix kind) id
    ∷ []

-- How many commands UpsertEntity announces.
abbrev pub upsert_count : Map Text Text → ℕ
upsert_count [] = 3
upsert_count (kv ∷ args) = 4

-- A size that is not positive is 1000.
abbrev pub batch_or_default : ℕ → ℕ
batch_or_default zero = 1000
batch_or_default (suc n) = suc n

-- A call of the writer; `tick` is Flush, which the ticker and Close call.
pub data Call : Type 0 where
  upsert : ℕ → Text → Kind → Text → Map Text Text → Call
  remove : Text → Kind → Call
  link unlink : Text → Edge → Call
  tick : Call

module _ (r : Redis) (marshal : Edge → Text) (prefix : Text) (batch_size : ℕ) where
  -- The writer, with the database that it writes to and the warnings that it has logged.
  pub record RedisWriter : Type 0 where
    pub db : r.Db
    pub pipe : List Cmd
    pub n : ℕ
    pub warnings : ℕ

  unfoldable pub flush_locked : RedisWriter → RedisWriter
  flush_locked w =
      let sent = r.exec w.pipe w.db in
      if w.n == 0 then w else record {
        db = sent.0;
        pipe = [];
        n = 0;
        warnings = if sent.1 then w.warnings else suc w.warnings;
      }

  unfoldable pub add : ℕ → List Cmd → RedisWriter → RedisWriter
  unfolding flush_locked
  add cmds new w =
      let w' = record w { pipe = w.pipe ++ new; n = w.n + cmds } in
      if leb (batch_or_default batch_size) w'.n then flush_locked w' else w'

  unfoldable pub call : Call → RedisWriter → RedisWriter
  unfolding add meta_args
  call (upsert now_ms id kind name md) w =
      let args = meta_args md in
      add (upsert_count args) (upsert_cmds prefix now_ms id kind name args) w
  call (remove id kind) w = add 3 (delete_cmds prefix id kind) w
  call (link from e) w = add 1 (sadd (key_edges prefix from) (marshal e) ∷ []) w
  call (unlink from e) w = add 1 (srem (key_edges prefix from) (marshal e) ∷ []) w
  call tick w = flush_locked w

  unfoldable pub call_all : List Call → RedisWriter → RedisWriter
  unfolding call
  call_all [] w = w
  call_all (c ∷ cs) w = call_all cs (call c w)

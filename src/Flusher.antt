-- ===== src/Flusher.antt =====
-- The process of cmd/graph-otel/main.go: the shared set that pushes fill, and what `runFlusher` keeps
-- between two flushes. A push that comes while a flush writes changes the set only, so a flush is one
-- step. `now.UnixMilli()` is a parameter.
pub mod Edges
pub mod Mirror
use otel_k8s_graph.Base.{
  ℕ, zero, ◌-◌, Text, some, Bool, true, false, text_DecEq, nat_DecEq, if◌then◌else◌,
}
use otel_k8s_graph.Graph.{Edge, Time}
use otel_k8s_graph.BatchSet.{BatchWriteSet}
use otel_k8s_graph.Receiver.{expire_and_snapshot}
use otel_k8s_graph.Redis.{Redis}
use otel_k8s_graph.Delta.{write_delta_to_redis}

module _ (r : Redis) (marshal : Edge → Text) (unix_milli : Time → ℕ) (prefix : Text) (ttl : ℕ) where
  pub record Process : Type 0 where
    pub set : BatchWriteSet
    pub previous : BatchWriteSet
    pub db : r.Db

  -- flush(): the process after it, and whether there was no error. A cutoff before the zero time
  -- drops nothing, and neither does the zero time.
  unfoldable pub flush_once : Time → Process → Process × Bool
  unfolding expire_and_snapshot write_delta_to_redis
  flush_once now p =
      let taken = expire_and_snapshot (now - ttl) p.set in
      let snap = taken.1 in
      let written =
        write_delta_to_redis r marshal prefix 0 (unix_milli now) snap (some p.previous) p.db in
      if written.2
      then (record { set = taken.0; previous = snap; db = written.0 }, true)
      else (record { set = taken.0; previous = p.previous; db = written.0 }, false)

-- ===== src/Receiver.antt =====
-- internal/otlpreceiver/receiver.go: metric pushes become records, and records become the shared
-- set. Each critical section of the server's mutex is one function of the set.
pub mod Invariant
pub mod Reachable
use otel_k8s_graph.Base.{
  ℕ, suc, ◌+◌, ◌-◌, ◌<◌, Text, List, [], ◌∷◌, ◌++◌, map, Map, Option, some, text_DecEq, nat_DecEq,
  if◌then◌else◌, leb, insert_all,
}
use otel_k8s_graph.Graph.Kinds
use otel_k8s_graph.Graph.EdgeKinds
use otel_k8s_graph.Builder.Templatize.{Url, templatize_attrs}
use otel_k8s_graph.Builder.Derive.{derive}
use otel_k8s_graph.Graph.{Time}
use otel_k8s_graph.BatchSet.{
  BatchWriteSet, new_batch_write_set, merge, expire, snapshot, batch_writer,
}

-- What pdata hands over: attributes are maps of values, which `AsString` turns into texts.
pub data Metric (V : Type 0) : Type 0 where
  gauge sum histogram exponential_histogram summary : List (Map Text V) → Metric V
  other : Metric V

pub record ScopeMetrics (V : Type 0) : Type 0 where
  pub metrics : List (Metric V)

pub record ResourceMetrics (V : Type 0) : Type 0 where
  pub attributes : Map Text V
  pub scope_metrics : List (ScopeMetrics V)

module _ {V S : Type 0} (fn : Map Text V → S → S) where
  -- The loops `for i := 0; i < dps.Len(); i++ { fn(dps.At(i).Attributes()) }`.
  unfoldable pub range_points : List (Map Text V) → S → S × ℕ
  range_points [] s = (s, 0)
  range_points (attrs ∷ dps) s = let (s', n) = range_points dps (fn attrs s) in (s', suc n)

  unfoldable pub for_each_datapoint : Metric V → S → S × ℕ
  unfolding range_points
  for_each_datapoint (gauge dps) s = range_points dps s
  for_each_datapoint (sum dps) s = range_points dps s
  for_each_datapoint (histogram dps) s = range_points dps s
  for_each_datapoint (exponential_histogram dps) s = range_points dps s
  for_each_datapoint (summary dps) s = range_points dps s
  for_each_datapoint other s = (s, 0)

-- fillStringMap into a map that was cleared
unfoldable pub stringify_map : {V : Type 0} → (V → Text) → Map Text V → Map Text Text
unfolding insert_all
stringify_map as_string attrs = insert_all as_string attrs []

module _ {V : Type 0} (as_string : V → Text) (parse : Text → Option Url) where
  unfoldable pub derive_point : Map Text Text → Map Text V → BatchWriteSet → BatchWriteSet
  unfolding stringify_map
  derive_point resource_attrs attrs local =
      (derive batch_writer parse
        (record {
          attrs = resource_attrs;
          series_attrs = templatize_attrs parse (stringify_map as_string attrs);
        })
        local).0

  unfoldable pub derive_metrics :
      Map Text Text → List (Metric V) → BatchWriteSet × ℕ → BatchWriteSet × ℕ
  unfolding for_each_datapoint
  derive_metrics resource_attrs [] r = r
  derive_metrics resource_attrs (m ∷ ms) (local, records) =
      let (local', n) = for_each_datapoint (derive_point resource_attrs) m local in
      derive_metrics resource_attrs ms (local', records + n)

  unfoldable pub derive_scopes :
      Map Text Text → List (ScopeMetrics V) → BatchWriteSet × ℕ → BatchWriteSet × ℕ
  unfolding derive_metrics
  derive_scopes resource_attrs [] r = r
  derive_scopes resource_attrs (sm ∷ sms) r =
      derive_scopes resource_attrs sms (derive_metrics resource_attrs sm.metrics r)

  unfoldable pub derive_resources : List (ResourceMetrics V) → BatchWriteSet × ℕ → BatchWriteSet × ℕ
  unfolding derive_scopes stringify_map
  derive_resources [] r = r
  derive_resources (rm ∷ rms) r =
      derive_resources rms
        (derive_scopes (stringify_map as_string rm.attributes) rm.scope_metrics r)

  -- The request-local set, and the number of datapoints.
  unfoldable pub derive_all : List (ResourceMetrics V) → BatchWriteSet × ℕ
  unfolding derive_resources
  derive_all md = derive_resources md (new_batch_write_set, 0)

  -- What a push does to the shared set, at the time that is read under the lock.
  unfoldable pub export : List (ResourceMetrics V) → Time → BatchWriteSet → BatchWriteSet
  unfolding derive_all
  export md now set =
      let (local, records) = derive_all md in
      if leb records 0 then set else merge (some local) now set

-- The set that is left, the copy, and the expired counts.
unfoldable pub expire_and_snapshot : Time → BatchWriteSet → BatchWriteSet × BatchWriteSet × ℕ × ℕ
expire_and_snapshot cutoff set =
    let (set', entities, edges) = expire cutoff set in (set', snapshot set', entities, edges)

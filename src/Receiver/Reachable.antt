-- ===== src/Receiver/Reachable.antt =====
-- The server over its life: pushes and sweeps in any order, each under the mutex, with a clock that
-- does not run backwards.
use otel_k8s_graph.Base.{
  ℕ, suc, ◌+◌, ◌≤◌, Text, List, [], ◌∷◌, Map, Option, text_DecEq, nat_DecEq, leb, length, ◌≡◌, refl,
  ap, inl, inr, arith, Bool-cases,
}
use otel_k8s_graph.Builder.Templatize.{Url}
use otel_k8s_graph.Graph.{Time}
use otel_k8s_graph.BatchSet.{BatchWriteSet, new_batch_write_set, batch_writer}
use otel_k8s_graph.Builder.Derive.Emitter.{derive_induction}
use otel_k8s_graph.Receiver.{
  Metric, gauge, sum, histogram, exponential_histogram, summary, other, ScopeMetrics,
  ResourceMetrics, range_points, for_each_datapoint, stringify_map, derive_point, derive_metrics,
  derive_scopes, derive_resources, derive_all, export, expire_and_snapshot,
}
use otel_k8s_graph.Receiver.Invariant.{
  IsRelationshipSet, new-IsRelationshipSet, add_relationship-IsRelationshipSet,
  merge-IsRelationshipSet, IsRelationshipSet-later, expire-IsRelationshipSet,
}

module _ {V S : Type 0} (fn : Map Text V → S → S) (P : S → Type 0)
    (step : (attrs : Map Text V) (s : S) → P s → P (fn attrs s)) where
  range_points-keeps : (dps : List (Map Text V)) (s : S) → P s → P (range_points fn dps s).0
  unfolding range_points
  range_points-keeps [] s p = p
  range_points-keeps (attrs ∷ dps) s p = range_points-keeps dps (fn attrs s) (step attrs s p)

  for_each_datapoint-keeps : (m : Metric V) (s : S) → P s → P (for_each_datapoint fn m s).0
  unfolding for_each_datapoint
  for_each_datapoint-keeps (gauge dps) s p = range_points-keeps dps s p
  for_each_datapoint-keeps (sum dps) s p = range_points-keeps dps s p
  for_each_datapoint-keeps (histogram dps) s p = range_points-keeps dps s p
  for_each_datapoint-keeps (exponential_histogram dps) s p = range_points-keeps dps s p
  for_each_datapoint-keeps (summary dps) s p = range_points-keeps dps s p
  for_each_datapoint-keeps other s p = p

-- The datapoints of a push, whatever the type of their metric.
abbrev pub datapoints : {V : Type 0} → Metric V → List (Map Text V)
datapoints (gauge dps) = dps
datapoints (sum dps) = dps
datapoints (histogram dps) = dps
datapoints (exponential_histogram dps) = dps
datapoints (summary dps) = dps
datapoints other = []

abbrev pub datapoints_in : {V : Type 0} → List (Metric V) → ℕ
datapoints_in [] = 0
datapoints_in (m ∷ ms) = length (datapoints m) + datapoints_in ms

abbrev pub datapoints_of : {V : Type 0} → List (ScopeMetrics V) → ℕ
datapoints_of [] = 0
datapoints_of (sm ∷ sms) = datapoints_in sm.metrics + datapoints_of sms

abbrev pub total_datapoints : {V : Type 0} → List (ResourceMetrics V) → ℕ
total_datapoints [] = 0
total_datapoints (rm ∷ rms) = datapoints_of rm.scope_metrics + total_datapoints rms

module _ {V S : Type 0} (fn : Map Text V → S → S) where
  range_points-count : (dps : List (Map Text V)) (s : S) → (range_points fn dps s).1 ≡ length dps
  unfolding range_points
  range_points-count [] s = refl
  range_points-count (attrs ∷ dps) s = ap suc (range_points-count dps (fn attrs s))

  for_each_datapoint-count :
      (m : Metric V) (s : S) → (for_each_datapoint fn m s).1 ≡ length (datapoints m)
  unfolding for_each_datapoint
  for_each_datapoint-count (gauge dps) s = range_points-count dps s
  for_each_datapoint-count (sum dps) s = range_points-count dps s
  for_each_datapoint-count (histogram dps) s = range_points-count dps s
  for_each_datapoint-count (exponential_histogram dps) s = range_points-count dps s
  for_each_datapoint-count (summary dps) s = range_points-count dps s
  for_each_datapoint-count other s = refl

module _ {V : Type 0} (as_string : V → Text) (parse : Text → Option Url) where
  -- What holds between the local set and the count so far, with `n` datapoints visited.
  abbrev Local : ℕ → BatchWriteSet × ℕ → Type 0
  Local n r = IsRelationshipSet 0 r.0 × (r.1 ≡ n)

  point-keeps :
      (attrs : Map Text Text) (dp : Map Text V) (s : BatchWriteSet)
      → IsRelationshipSet 0 s
      → IsRelationshipSet 0 (derive_point as_string parse attrs dp s)
  unfolding derive_point
  point-keeps attrs dp s h =
      derive_induction batch_writer parse (IsRelationshipSet 0)
        (λ emitter rel s foreign sound h.
          add_relationship-IsRelationshipSet emitter rel s foreign sound h)
        _ s h

  metrics-keeps :
      (attrs : Map Text Text) (ms : List (Metric V)) (n : ℕ) (r : BatchWriteSet × ℕ)
      → Local n r
      → Local (n + datapoints_in ms) (derive_metrics as_string parse attrs ms r)
  unfolding derive_metrics
  metrics-keeps attrs [] n r h = (h.0, omega (arith, h.1))
  metrics-keeps attrs (m ∷ ms) n (local, records) h =
      let fn = derive_point as_string parse attrs in
      let ih =
        metrics-keeps attrs ms (n + length (datapoints m))
          ((for_each_datapoint fn m local).0, records + (for_each_datapoint fn m local).1)
          (
            for_each_datapoint-keeps fn (IsRelationshipSet 0) (point-keeps attrs) m local h.0,
            omega (arith, h.1, for_each_datapoint-count fn m local),
          ) in
      (ih.0, omega (arith, ih.1))

  scopes-keeps :
      (attrs : Map Text Text) (sms : List (ScopeMetrics V)) (n : ℕ) (r : BatchWriteSet × ℕ)
      → Local n r
      → Local (n + datapoints_of sms) (derive_scopes as_string parse attrs sms r)
  unfolding derive_scopes
  scopes-keeps attrs [] n r h = (h.0, omega (arith, h.1))
  scopes-keeps attrs (sm ∷ sms) n r h =
      let ih =
        scopes-keeps attrs sms (n + datapoints_in sm.metrics)
          (derive_metrics as_string parse attrs sm.metrics r)
          (metrics-keeps attrs sm.metrics n r h) in
      (ih.0, omega (arith, ih.1))

  resources-keeps :
      (rms : List (ResourceMetrics V)) (n : ℕ) (r : BatchWriteSet × ℕ)
      → Local n r
      → Local (n + total_datapoints rms) (derive_resources as_string parse rms r)
  unfolding derive_resources
  resources-keeps [] n r h = (h.0, omega (arith, h.1))
  resources-keeps (rm ∷ rms) n r h =
      let attrs = stringify_map as_string rm.attributes in
      let ih =
        resources-keeps rms (n + datapoints_of rm.scope_metrics)
          (derive_scopes as_string parse attrs rm.scope_metrics r)
          (scopes-keeps attrs rm.scope_metrics n r h) in
      (ih.0, omega (arith, ih.1))

  -- The count of a push is the number of its datapoints, over all resources, scopes and metrics of a
  -- known type; its local set satisfies the invariant of the shared set at time zero.
  pub derive_all-IsRelationshipSet :
      (md : List (ResourceMetrics V))
      → IsRelationshipSet 0 (derive_all as_string parse md).0
        × ((derive_all as_string parse md).1 ≡ total_datapoints md)
  unfolding derive_all
  derive_all-IsRelationshipSet md =
      let r = resources-keeps md 0 (new_batch_write_set, 0) (new-IsRelationshipSet 0, refl) in
      (r.0, omega (arith, r.1))

  pub export-IsRelationshipSet :
      (md : List (ResourceMetrics V)) (before now : Time) (set : BatchWriteSet)
      → before ≤ now
      → IsRelationshipSet before set
      → IsRelationshipSet now (export as_string parse md now set)
  unfolding export
  export-IsRelationshipSet md before now set later h =
      let local = derive_all as_string parse md in
      elim (Bool-cases (leb local.1 0)) [
        | inl e ↦ rw e (IsRelationshipSet-later before now set later h)
        | inr e ↦ rw e (
            merge-IsRelationshipSet now before local.0 set later (derive_all-IsRelationshipSet md).0
              h)
      ]

  -- The shared set, and the time of the last push.
  pub record Shared : Type 0 where
    pub set : BatchWriteSet
    pub clock : Time

  abbrev pub start : Shared
  start = record { set = new_batch_write_set; clock = 0 }

  pub data Step (s : Shared) : Shared → Type 0 where
    push :
        (md : List (ResourceMetrics V)) (now : Time)
        → s.clock ≤ now
        → Step s (record { set = export as_string parse md now s.set; clock = now })
    sweep :
        (cutoff : Time)
        → Step s (record { set = (expire_and_snapshot cutoff s.set).0; clock = s.clock })

  pub data Reach : Shared → Type 0 where
    here : Reach start
    next : {s t : Shared} → Reach s → Step s t → Reach t

  Step-IsRelationshipSet :
      (s t : Shared) → Step s t → IsRelationshipSet s.clock s.set → IsRelationshipSet t.clock t.set
  unfolding expire_and_snapshot
  Step-IsRelationshipSet s t (push md now later) h =
      export-IsRelationshipSet md s.clock now s.set later h
  Step-IsRelationshipSet s t (sweep cutoff) h = expire-IsRelationshipSet cutoff s.clock s.set h

  -- Whatever is pushed, at times that do not go back, and whatever cutoffs the sweeps between have,
  -- the shared set is well formed, no entity in it is from the future, each has the id of its kind and
  -- is one that graph-otel owns, each edge has its inverse with the same time, and exactly one of its
  -- ends is an owned entity, which is in the set and was seen when the edge was or later.
  pub Reach-IsRelationshipSet : {s : Shared} → Reach s → IsRelationshipSet s.clock s.set
  Reach-IsRelationshipSet here = new-IsRelationshipSet 0
  Reach-IsRelationshipSet (next {s} {t} r step) =
      Step-IsRelationshipSet s t step (Reach-IsRelationshipSet r)

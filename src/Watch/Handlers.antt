-- ===== src/Watch/Handlers.antt =====
-- The informer handlers of internal/k8swatch/watcher.go.
use otel_k8s_graph.Base.{Text, List, Option, none, some, text_DecEq, nat_DecEq}
use otel_k8s_graph.Watch.Desired.{Desired}
use otel_k8s_graph.Watch.Objects.{OwnerReference, Pod}
use otel_k8s_graph.Watch.Owner.{pod_desired}
use otel_k8s_graph.Watch.Apply.{EntityWriter, apply_add, apply_update, apply_delete}

-- What a delete event hands over: the object, or a tombstone with the last known one.
pub data Deleted (O : Type 0) : Type 0 where
  object tombstone : O → Deleted O

abbrev pub last_known : {O : Type 0} → Deleted O → O
last_known (object o) = o
last_known (tombstone o) = o

pub data Event (O : Type 0) : Type 0 where
  added : O → Event O
  updated : O → O → Event O
  deleted : Deleted O → Event O

module _ {O S : Type 0} (w : EntityWriter S) (map_fn : O → Option Desired) where
  -- registerSingle: objects that `mapFn` does not map are passed over.
  unfoldable pub handle_single : Event O → S → S
  handle_single (added o) s = elim (map_fn o) [ none ↦ s | some d ↦ apply_add w d s ]
  handle_single (updated old new) s = elim (map_fn old) [
    | none ↦ s
    | some od ↦ elim (map_fn new) [ none ↦ s | some nd ↦ apply_update w od nd s ]
  ]
  handle_single (deleted d) s = elim (map_fn (last_known d)) [
    | none ↦ s
    | some d' ↦ apply_delete w d' s
  ]

module _ {S : Type 0} (w : EntityWriter S)
    (lister : Text → Text → Option (List OwnerReference)) where
  -- registerPods
  unfoldable pub handle_pod : Event Pod → S → S
  handle_pod (added p) s = apply_add w (pod_desired lister p) s
  handle_pod (updated old new) s =
      apply_update w (pod_desired lister old) (pod_desired lister new) s
  handle_pod (deleted d) s = apply_delete w (pod_desired lister (last_known d)) s

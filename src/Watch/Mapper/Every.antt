-- ===== src/Watch/Mapper/Every.antt =====
-- All mappers of internal/k8swatch, for every kind of object.
use otel_k8s_graph.Base.{Text, codes}
use otel_k8s_graph.Graph.{Kind}
use otel_k8s_graph.Graph.Kinds
use otel_k8s_graph.Watch.Objects.{ObjectMeta, Pod, CronJob, HorizontalPodAutoscaler, Unstructured}
use otel_k8s_graph.Watch.Desired.{Desired}
use otel_k8s_graph.Watch.Mapper.{
  map_pod, map_node, map_namespace, map_deployment, map_stateful_set, map_daemon_set, map_job,
  map_cron_job, map_hpa, ns_id, deployment_id, stateful_set_id, daemon_set_id, cron_job_id,
  rollout_id, label_meta,
}
use otel_k8s_graph.Watch.Dynamic.{
  map_rollout_unstructured, map_scaled_object_unstructured, rollout_strategy,
}
use otel_k8s_graph.Watch.Mapper.Closed.{IsClosed, first-Holds}
use otel_k8s_graph.Watch.Mapper.Mapped.{
  map_pod-IsClosed, map_node-IsClosed, map_job-IsClosed, map_hpa-IsClosed,
  map_scaled_object_unstructured-IsClosed,
}
use otel_k8s_graph.Base.{insert, text_DecEq}

-- What some object of the cluster implies.
pub data Mapped : Desired → Type 0 where
  of_pod :
      (p : Pod) (owner_id owner_name : Text) (owner_kind : Kind)
      → Mapped (map_pod p owner_id owner_name owner_kind)
  of_node : (n : ObjectMeta) → Mapped (map_node n)
  of_namespace : (n : ObjectMeta) → Mapped (map_namespace n)
  of_deployment : (o : ObjectMeta) → Mapped (map_deployment o)
  of_stateful_set : (o : ObjectMeta) → Mapped (map_stateful_set o)
  of_daemon_set : (o : ObjectMeta) → Mapped (map_daemon_set o)
  of_job : (j : ObjectMeta) → Mapped (map_job j)
  of_cron_job : (cj : CronJob) → Mapped (map_cron_job cj)
  of_hpa : (h : HorizontalPodAutoscaler) → Mapped (map_hpa h)
  of_rollout : (u : Unstructured) → Mapped (map_rollout_unstructured u)
  of_scaled_object : (u : Unstructured) → Mapped (map_scaled_object_unstructured u)

-- Whatever object of the cluster it is, each edge that it implies has both its ends among the
-- entities and its inverse among the edges that the object implies.
pub Mapped-IsClosed : (d : Desired) → Mapped d → IsClosed d
unfolding map_namespace map_deployment map_stateful_set map_daemon_set map_cron_job
    map_rollout_unstructured
Mapped-IsClosed d (of_pod p owner_id owner_name owner_kind) =
    map_pod-IsClosed p owner_id owner_name owner_kind
Mapped-IsClosed d (of_node n) = map_node-IsClosed n
Mapped-IsClosed d (of_namespace n) =
    (first-Holds (ns_id n.name) Kinds.namespace n.name (label_meta n.labels)).closed
Mapped-IsClosed d (of_deployment o) =
    (first-Holds (deployment_id o.namespace o.name) Kinds.deployment o.name
      (label_meta o.labels)).closed
Mapped-IsClosed d (of_stateful_set o) =
    (first-Holds (stateful_set_id o.namespace o.name) Kinds.stateful_set o.name
      (label_meta o.labels)).closed
Mapped-IsClosed d (of_daemon_set o) =
    (first-Holds (daemon_set_id o.namespace o.name) Kinds.daemon_set o.name
      (label_meta o.labels)).closed
Mapped-IsClosed d (of_job j) = map_job-IsClosed j
Mapped-IsClosed d (of_cron_job cj) =
    (first-Holds (cron_job_id cj.meta.namespace cj.meta.name) Kinds.cron_job cj.meta.name
      (insert (codes "cronjob.schedule") cj.schedule (label_meta cj.meta.labels))).closed
Mapped-IsClosed d (of_hpa h) = map_hpa-IsClosed h
Mapped-IsClosed d (of_rollout u) =
    (first-Holds (rollout_id u.namespace u.name) Kinds.rollout u.name
      (rollout_strategy u (label_meta u.labels))).closed
Mapped-IsClosed d (of_scaled_object u) = map_scaled_object_unstructured-IsClosed u

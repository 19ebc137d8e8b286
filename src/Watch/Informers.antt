-- ===== src/Watch/Informers.antt =====
-- The informers that `NewWatcher` and `registerDynamic` of internal/k8swatch/watcher.go set up.
pub mod Deletes
use otel_k8s_graph.Base.{
  Text, List, [], ◌∷◌, ◌++◌, Option, none, some, Bool, true, false, codes, text_DecEq, nat_DecEq,
  if◌then◌else◌,
}
use otel_k8s_graph.Redis.{is_in}
use otel_k8s_graph.Watch.Objects.{
  OwnerReference, ObjectMeta, Pod, CronJob, HorizontalPodAutoscaler, Unstructured,
}
use otel_k8s_graph.Watch.Desired.{Desired}
use otel_k8s_graph.Watch.Mapper.{
  map_node, map_namespace, map_deployment, map_stateful_set, map_daemon_set, map_job, map_cron_job,
  map_hpa,
}
use otel_k8s_graph.Watch.Dynamic.{
  map_rollout_unstructured, map_scaled_object_unstructured, crd_available,
}
use otel_k8s_graph.Watch.Apply.{EntityWriter}
use otel_k8s_graph.Watch.Handlers.{Event, handle_single, handle_pod}

-- What an informer may hand to its handlers, which assert its type.
pub data Object : Type 0 where
  a_node a_namespace a_deployment a_stateful_set a_daemon_set a_job : ObjectMeta → Object
  a_cron_job : CronJob → Object
  an_autoscaler : HorizontalPodAutoscaler → Object
  an_unstructured : Unstructured → Object
  anything_else : Object

pub data Informer : Type 0 where
  nodes namespaces deployments stateful_sets daemon_sets jobs cron_jobs autoscalers : Informer
  rollouts scaled_objects : Informer

-- The mapper that is registered with an informer; `none` where the type assertion fails.
unfoldable pub map_object : Informer → Object → Option Desired
map_object nodes (a_node n) = some (map_node n)
map_object namespaces (a_namespace n) = some (map_namespace n)
map_object deployments (a_deployment dep) = some (map_deployment dep)
map_object stateful_sets (a_stateful_set ss) = some (map_stateful_set ss)
map_object daemon_sets (a_daemon_set ds) = some (map_daemon_set ds)
map_object jobs (a_job j) = some (map_job j)
map_object cron_jobs (a_cron_job cj) = some (map_cron_job cj)
map_object autoscalers (an_autoscaler h) = some (map_hpa h)
map_object rollouts (an_unstructured u) = some (map_rollout_unstructured u)
map_object scaled_objects (an_unstructured u) = some (map_scaled_object_unstructured u)
map_object informer object = none

abbrev pub when_available : Bool → Informer → List Informer
when_available true informer = informer ∷ []
when_available false informer = []

-- The informers with a handler, besides that of the pods: the dynamic ones only with both clients.
-- `discovered` is what discovery answers for a group and version.
abbrev pub registered : Bool → (Text → Option (List Text)) → List Informer
registered has_clients discovered =
    nodes
    ∷ namespaces
    ∷ deployments
    ∷ stateful_sets
    ∷ daemon_sets
    ∷ jobs
    ∷ cron_jobs
    ∷ autoscalers
    ∷ (if has_clients
        then when_available
            (crd_available (discovered (codes "argoproj.io/v1alpha1")) (codes "rollouts")) rollouts
          ++ when_available
              (crd_available (discovered (codes "keda.sh/v1alpha1")) (codes "scaledobjects"))
              scaled_objects
        else [])

-- An event of an informer, or of the pods.
pub data Notice : Type 0 where
  of_objects : Informer → Event Object → Notice
  of_pods : Event Pod → Notice

module _ {S : Type 0} (w : EntityWriter S)
    (lister : Text → Text → Option (List OwnerReference)) where
  unfoldable pub notify : Notice → S → S
  unfolding handle_single handle_pod map_object
  notify (of_objects informer event) s = handle_single w (map_object informer) event s
  notify (of_pods event) s = handle_pod w lister event s

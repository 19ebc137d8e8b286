-- ===== src/Watch/Mapper.antt =====
-- internal/k8swatch/mapper.go: what each object implies.
pub mod Closed
pub mod Mapped
pub mod Every
use otel_k8s_graph.Base.{
  Text, List, [], ◌∷◌, ◌++◌, Map, Option, none, some, not, codes, text_DecEq, nat_DecEq,
  if◌then◌else◌, ◌==◌, lookup, insert,
}
use otel_k8s_graph.Base.{ℤ, pos, itoa}
use otel_k8s_graph.Graph.{Kind, EdgeKind}
use otel_k8s_graph.Graph.Kinds
use otel_k8s_graph.Graph.EdgeKinds
use otel_k8s_graph.Watch.Desired.{Desired, nothing, add_entity, add_pair}
use otel_k8s_graph.Watch.Objects.{
  OwnerReference, ObjectMeta, Container, Pod, CronJob, HorizontalPodAutoscaler,
}

abbrev pub namespaced : Text → Text → Text → Text
namespaced kind ns name = kind ++ b':' ∷ (ns ++ b'/' ∷ name)

abbrev pub pod_id : Text → Text → Text
pod_id = namespaced (codes "pod")

abbrev pub container_id : Text → Text → Text → Text
container_id ns pod c = namespaced (codes "container") ns (pod ++ b'/' ∷ c)

abbrev pub ns_id : Text → Text
ns_id name = codes "namespace:" ++ name

abbrev pub node_id : Text → Text
node_id name = codes "node:" ++ name

abbrev pub zone_id : Text → Text
zone_id name = codes "zone:" ++ name

abbrev pub region_id : Text → Text
region_id name = codes "region:" ++ name

abbrev pub deployment_id : Text → Text → Text
deployment_id = namespaced (codes "deployment")

abbrev pub stateful_set_id : Text → Text → Text
stateful_set_id = namespaced (codes "statefulset")

abbrev pub daemon_set_id : Text → Text → Text
daemon_set_id = namespaced (codes "daemonset")

abbrev pub job_id : Text → Text → Text
job_id = namespaced (codes "job")

abbrev pub cron_job_id : Text → Text → Text
cron_job_id = namespaced (codes "cronjob")

abbrev pub rollout_id : Text → Text → Text
rollout_id = namespaced (codes "rollout")

abbrev pub hpa_id : Text → Text → Text
hpa_id = namespaced (codes "hpa")

abbrev pub scaled_object_id : Text → Text → Text
scaled_object_id = namespaced (codes "scaledobject")

-- m[key], "" if it is not there
unfoldable pub label : Map Text Text → Text → Text
label m key = elim (lookup key m) [ none ↦ [] | some v ↦ v ]

unfoldable pub node_topology_label : Map Text Text → Text → Text
unfolding label
node_topology_label labels suffix =
    let v = label labels (codes "topology.kubernetes.io/" ++ suffix) in
    if not (v == []) then v else label labels (codes "failure-domain.beta.kubernetes.io/" ++ suffix)

-- The loop of `labelMeta`.
unfoldable pub prefix_labels : Map Text Text → Map Text Text → Map Text Text
prefix_labels [] m = m
prefix_labels ((k, v) ∷ labels) m = prefix_labels labels (insert (codes "label." ++ k) v m)

unfoldable pub label_meta : Map Text Text → Map Text Text
unfolding prefix_labels
label_meta labels = prefix_labels labels []

unfoldable pub pod_metadata : Pod → Map Text Text
unfolding label_meta
pod_metadata p =
    let m = label_meta p.meta.labels in
    let m' = if not (p.node_name == []) then insert (codes "k8s.node.name") p.node_name m else m in
    insert (codes "k8s.pod.uid") p.meta.uid m'

unfoldable pub add_containers : Text → Text → List Container → Desired → Desired
unfolding add_entity add_pair
add_containers ns pod [] d = d
add_containers ns pod (c ∷ cs) d =
    let c_id = container_id ns pod c.name in
    add_containers ns pod cs (
      add_pair (pod_id ns pod) EdgeKinds.contains c_id EdgeKinds.runs_in
        (add_entity c_id Kinds.container c.name ((codes "container.image.name", c.image) ∷ []) d))

-- An entity that holds the object, and the pair of edges between them.
abbrev pub add_parent : Text → Kind → Text → EdgeKind → Text → EdgeKind → Desired → Desired
add_parent parent kind name fwd id rev d =
    add_pair parent fwd id rev (add_entity parent kind name [] d)

unfoldable pub map_pod : Pod → Text → Text → Kind → Desired
unfolding add_entity add_pair add_containers pod_metadata
map_pod p owner_id owner_name owner_kind =
    let ns = p.meta.namespace in
    let name = p.meta.name in
    let id = pod_id ns name in
    let d = add_entity id Kinds.pod name (pod_metadata p) nothing in
    let d1 = add_parent (ns_id ns) Kinds.namespace ns EdgeKinds.contains id EdgeKinds.runs_in d in
    let d2 =
      if not (p.node_name == [])
      then add_parent (node_id p.node_name) Kinds.node p.node_name EdgeKinds.contains id
          EdgeKinds.runs_in d1
      else d1 in
    let d3 =
      if not (owner_id == [])
      then add_parent owner_id owner_kind owner_name EdgeKinds.manages id EdgeKinds.managed_by d2
      else d2 in
    add_containers ns name p.containers d3

unfoldable pub map_node : ObjectMeta → Desired
unfolding add_entity add_pair node_topology_label label_meta
map_node n =
    let n_id = node_id n.name in
    let zone = node_topology_label n.labels (codes "zone") in
    let region = node_topology_label n.labels (codes "region") in
    let d = add_entity n_id Kinds.node n.name (label_meta n.labels) nothing in
    let d1 =
      add_parent (zone_id zone) Kinds.zone zone EdgeKinds.contains n_id EdgeKinds.runs_in d in
    let d2 =
      add_parent (region_id region) Kinds.region region EdgeKinds.contains (zone_id zone)
        EdgeKinds.runs_in d1 in
    if zone == [] then d else if region == [] then d1 else d2

unfoldable pub map_namespace : ObjectMeta → Desired
unfolding add_entity label_meta
map_namespace n = add_entity (ns_id n.name) Kinds.namespace n.name (label_meta n.labels) nothing

unfoldable pub map_deployment : ObjectMeta → Desired
unfolding add_entity label_meta
map_deployment o =
    add_entity (deployment_id o.namespace o.name) Kinds.deployment o.name (label_meta o.labels)
      nothing

unfoldable pub map_stateful_set : ObjectMeta → Desired
unfolding add_entity label_meta
map_stateful_set o =
    add_entity (stateful_set_id o.namespace o.name) Kinds.stateful_set o.name (label_meta o.labels)
      nothing

unfoldable pub map_daemon_set : ObjectMeta → Desired
unfolding add_entity label_meta
map_daemon_set o =
    add_entity (daemon_set_id o.namespace o.name) Kinds.daemon_set o.name (label_meta o.labels)
      nothing

-- The name of the first owner of a kind.
unfoldable pub owner_name : Text → List OwnerReference → Option Text
owner_name kind [] = none
owner_name kind (ref ∷ refs) = if ref.kind == kind then some ref.name else owner_name kind refs

unfoldable pub map_job : ObjectMeta → Desired
unfolding add_entity add_pair owner_name label_meta
map_job j =
    let j_id = job_id j.namespace j.name in
    let d = add_entity j_id Kinds.job j.name (label_meta j.labels) nothing in
    elim (owner_name (codes "CronJob") j.owner_references) [
      | none ↦ d
      | some name ↦
          add_parent (cron_job_id j.namespace name) Kinds.cron_job name EdgeKinds.manages j_id
            EdgeKinds.managed_by d
    ]

unfoldable pub map_cron_job : CronJob → Desired
unfolding add_entity label_meta
map_cron_job cj =
    add_entity (cron_job_id cj.meta.namespace cj.meta.name) Kinds.cron_job cj.meta.name
      (insert (codes "cronjob.schedule") cj.schedule (label_meta cj.meta.labels)) nothing

-- The id and the kind of a scale target, for the kinds that the graph has.
unfoldable pub scale_target : Text → Text → Text → Option (Text × Kind)
scale_target kind ns name =
    if kind == codes "Deployment"
    then some (deployment_id ns name, Kinds.deployment)
    else if kind == codes "StatefulSet"
    then some (stateful_set_id ns name, Kinds.stateful_set)
    else if kind == codes "Rollout"
    then some (rollout_id ns name, Kinds.rollout)
    else none

-- The target's entity and the pair of SCALES edges.
unfoldable pub add_scale_target : Text → Text → Option (Text × Kind) → Desired → Desired
unfolding add_entity add_pair
add_scale_target id name none d = d
add_scale_target id name (some (t_id, kind)) d =
    add_pair id EdgeKinds.scales t_id EdgeKinds.scaled_by (add_entity t_id kind name [] d)

unfoldable pub hpa_metadata : HorizontalPodAutoscaler → Map Text Text
unfolding label_meta
hpa_metadata h =
    let min_r : ℤ = elim h.min_replicas [ none ↦ pos 1 | some r ↦ r ] in
    insert (codes "hpa.target.name") h.target_name (
      insert (codes "hpa.target.kind") h.target_kind (
        insert (codes "hpa.max_replicas") (itoa h.max_replicas)
          (insert (codes "hpa.min_replicas") (itoa min_r) (label_meta h.meta.labels))))

unfoldable pub map_hpa : HorizontalPodAutoscaler → Desired
unfolding add_entity add_pair add_scale_target scale_target owner_name hpa_metadata
map_hpa h =
    let ns = h.meta.namespace in
    let id = hpa_id ns h.meta.name in
    let d = add_entity id Kinds.hpa h.meta.name (hpa_metadata h) nothing in
    let d1 = add_scale_target id h.target_name (scale_target h.target_kind ns h.target_name) d in
    elim (owner_name (codes "ScaledObject") h.meta.owner_references) [
      | none ↦ d1
      | some name ↦
          add_parent (scaled_object_id ns name) Kinds.scaled_object name EdgeKinds.manages id
            EdgeKinds.managed_by d1
    ]

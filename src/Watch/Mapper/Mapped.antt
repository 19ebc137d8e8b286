-- ===== src/Watch/Mapper/Mapped.antt =====
-- The mappers of internal/k8swatch that give edges, for the nodes, pods and controllers of a cluster.
use otel_k8s_graph.Base.{
  Text, List, [], ◌∷◌, Option, none, some, Bool, true, false, not, codes, Text-discrete, text_DecEq,
  nat_DecEq, if◌then◌else◌, ◌==◌, refl, inl, inr, Option-cases,
}
use otel_k8s_graph.Graph.{Kind, edge_DecEq}
use otel_k8s_graph.Graph.Kinds
use otel_k8s_graph.Graph.EdgeKinds
use otel_k8s_graph.Graph.Inverse.{inverse}
use otel_k8s_graph.Watch.Objects.{ObjectMeta, Container, Pod, HorizontalPodAutoscaler, Unstructured}
use otel_k8s_graph.Watch.Desired.{Desired}
use otel_k8s_graph.Watch.Mapper.{
  add_containers, map_pod, map_node, map_job, map_hpa, add_scale_target, scale_target, owner_name,
  node_topology_label, container_id, pod_id, zone_id, region_id, node_id, ns_id, job_id,
  cron_job_id, hpa_id, scaled_object_id, pod_metadata, label_meta, hpa_metadata,
}
use otel_k8s_graph.Watch.Dynamic.{
  map_scaled_object_unstructured, scaled_object_metadata, target_name, target_kind,
}
use otel_k8s_graph.Watch.Mapper.Closed.{
  IsClosed, Holds, AreInverse, first-Holds, add_parent-Holds, add_child-Holds,
}

contains_lem : AreInverse EdgeKinds.contains EdgeKinds.runs_in
unfolding inverse Text-discrete
contains_lem = (refl, refl)

manages_lem : AreInverse EdgeKinds.manages EdgeKinds.managed_by
unfolding inverse Text-discrete
manages_lem = (refl, refl)

scales_lem : AreInverse EdgeKinds.scales EdgeKinds.scaled_by
unfolding inverse Text-discrete
scales_lem = (refl, refl)

add_containers-Holds :
    (ns pod : Text) (cs : List Container) (d : Desired)
    → Holds (pod_id ns pod) d
    → Holds (pod_id ns pod) (add_containers ns pod cs d)
unfolding add_containers
add_containers-Holds ns pod [] d h = h
add_containers-Holds ns pod (c ∷ cs) d h = add_containers-Holds ns pod cs _ (
    add_child-Holds (pod_id ns pod) EdgeKinds.contains (container_id ns pod c.name)
      EdgeKinds.runs_in Kinds.container c.name ((codes "container.image.name", c.image) ∷ []) d
      contains_lem h)

-- A step that a test may skip.
when-Holds :
    (id : Text) (test : Bool) (d e : Desired)
    → Holds id d
    → Holds id e
    → Holds id (if test then e else d)
when-Holds id true d e h k = k
when-Holds id false d e h k = h

unless-IsClosed :
    (test : Bool) (d e : Desired) → IsClosed d → IsClosed e → IsClosed (if test then d else e)
unless-IsClosed true d e h k = h
unless-IsClosed false d e h k = k

-- Each edge that a pod implies, whatever its owner, node and containers, has both its ends among the
-- entities and its inverse among the edges that the pod implies.
pub map_pod-IsClosed :
    (p : Pod) (owner_id owner_name : Text) (owner_kind : Kind)
    → IsClosed (map_pod p owner_id owner_name owner_kind)
unfolding map_pod
map_pod-IsClosed p owner_id owner_name owner_kind =
    let ns = p.meta.namespace in
    let name = p.meta.name in
    let id = pod_id ns name in
    let zero_step = first-Holds id Kinds.pod name (pod_metadata p) in
    let one =
      (add_parent-Holds (ns_id ns) Kinds.namespace ns EdgeKinds.contains id EdgeKinds.runs_in _
        contains_lem zero_step).0 in
    let two =
      when-Holds id (not (p.node_name == [])) _ _ one
        (add_parent-Holds (node_id p.node_name) Kinds.node p.node_name EdgeKinds.contains id
          EdgeKinds.runs_in _ contains_lem one).0 in
    let three =
      when-Holds id (not (owner_id == [])) _ _ two
        (add_parent-Holds owner_id owner_kind owner_name EdgeKinds.manages id EdgeKinds.managed_by _
          manages_lem two).0 in
    (add_containers-Holds ns name p.containers _ three).closed

-- Each edge that a node implies, with its zone and region, has both its ends among the entities and
-- its inverse among the edges that the node implies.
pub map_node-IsClosed : (n : ObjectMeta) → IsClosed (map_node n)
unfolding map_node
map_node-IsClosed n =
    let zone = node_topology_label n.labels (codes "zone") in
    let region = node_topology_label n.labels (codes "region") in
    let zero_step = first-Holds (node_id n.name) Kinds.node n.name (label_meta n.labels) in
    let one =
      add_parent-Holds (zone_id zone) Kinds.zone zone EdgeKinds.contains (node_id n.name)
        EdgeKinds.runs_in _ contains_lem zero_step in
    let two =
      add_parent-Holds (region_id region) Kinds.region region EdgeKinds.contains (zone_id zone)
        EdgeKinds.runs_in _ contains_lem one.1 in
    unless-IsClosed (zone == []) _ _ zero_step.closed
      (unless-IsClosed (region == []) _ _ one.0.closed two.0.closed)

-- Each edge that a job implies has both its ends among the entities and its inverse among the edges
-- that the job implies.
pub map_job-IsClosed : (j : ObjectMeta) → IsClosed (map_job j)
unfolding map_job
map_job-IsClosed j =
    let id = job_id j.namespace j.name in
    let zero_step = first-Holds id Kinds.job j.name (label_meta j.labels) in
    elim (Option-cases (owner_name (codes "CronJob") j.owner_references)) [
      | inl e ↦ rw (map_job, e) zero_step.closed
      | inr (name, e) ↦
          rw (map_job, e)
            (add_parent-Holds (cron_job_id j.namespace name) Kinds.cron_job name EdgeKinds.manages
              id EdgeKinds.managed_by _ manages_lem zero_step).0.closed
    ]

add_scale_target-Holds :
    (id name : Text) (target : Option (Text × Kind)) (d : Desired)
    → Holds id d
    → Holds id (add_scale_target id name target d)
unfolding add_scale_target
add_scale_target-Holds id name none d h = h
add_scale_target-Holds id name (some (t_id, kind)) d h =
    add_child-Holds id EdgeKinds.scales t_id EdgeKinds.scaled_by kind name [] d scales_lem h

-- Each edge that an autoscaler implies, for its target and its owner, has both its ends among the
-- entities and its inverse among the edges that the autoscaler implies.
pub map_hpa-IsClosed : (h : HorizontalPodAutoscaler) → IsClosed (map_hpa h)
unfolding map_hpa
map_hpa-IsClosed h =
    let ns = h.meta.namespace in
    let id = hpa_id ns h.meta.name in
    let one =
      add_scale_target-Holds id h.target_name (scale_target h.target_kind ns h.target_name) _
        (first-Holds id Kinds.hpa h.meta.name (hpa_metadata h)) in
    elim (Option-cases (owner_name (codes "ScaledObject") h.meta.owner_references)) [
      | inl e ↦ rw (map_hpa, e) one.closed
      | inr (name, e) ↦
          rw (map_hpa, e)
            (add_parent-Holds (scaled_object_id ns name) Kinds.scaled_object name EdgeKinds.manages
              id EdgeKinds.managed_by _ manages_lem one).0.closed
    ]

-- Each edge that a ScaledObject implies, if it has a target of a known kind, has both its ends among
-- the entities and its inverse among the edges that the ScaledObject implies.
pub map_scaled_object_unstructured-IsClosed :
    (u : Unstructured) → IsClosed (map_scaled_object_unstructured u)
unfolding map_scaled_object_unstructured
map_scaled_object_unstructured-IsClosed u =
    let id = scaled_object_id u.namespace u.name in
    let zero_step = first-Holds id Kinds.scaled_object u.name (scaled_object_metadata u) in
    unless-IsClosed (target_name u == []) _ _ zero_step.closed
      (add_scale_target-Holds id (target_name u)
        (scale_target (target_kind u) u.namespace (target_name u)) _ zero_step).closed

-- ===== src/Watch/Dynamic.antt =====
-- internal/k8swatch/dynamic.go: Argo Rollouts and KEDA ScaledObjects.
use otel_k8s_graph.Base.{
  Text, List, [], ◌∷◌, Map, Option, none, some, Bool, false, ◌||◌, codes, text_DecEq, nat_DecEq,
  if◌then◌else◌, ◌==◌, map_option, insert,
}
use otel_k8s_graph.Base.{itoa}
use otel_k8s_graph.Strings.{join}
use otel_k8s_graph.Graph.Kinds
use otel_k8s_graph.Watch.Desired.{Desired, nothing, add_entity}
use otel_k8s_graph.Watch.Objects.{Trigger, no_map, typed, Unstructured}
use otel_k8s_graph.Watch.Mapper.{
  rollout_id, scaled_object_id, label_meta, scale_target, add_scale_target,
}

-- The loop of `crdAvailable` over the names of the resources; `none` is a failed discovery.
unfoldable pub crd_available : Option (List Text) → Text → Bool
crd_available none resource = false
crd_available (some []) resource = false
crd_available (some (name ∷ names)) resource =
    name == resource || crd_available (some names) resource

unfoldable pub rollout_strategy : Unstructured → Map Text Text → Map Text Text
rollout_strategy u md =
    if u.nested_map (codes "spec" ∷ codes "strategy" ∷ codes "canary" ∷ [])
    then insert (codes "rollout.strategy") (codes "canary") md
    else if u.nested_map (codes "spec" ∷ codes "strategy" ∷ codes "blueGreen" ∷ [])
    then insert (codes "rollout.strategy") (codes "blueGreen") md
    else md

unfoldable pub map_rollout_unstructured : Unstructured → Desired
unfolding add_entity label_meta rollout_strategy
map_rollout_unstructured u =
    add_entity (rollout_id u.namespace u.name) Kinds.rollout u.name
      (rollout_strategy u (label_meta u.labels)) nothing

-- if v, ok := ...; ok { md[key] = v }
abbrev pub insert_found : Text → Option Text → Map Text Text → Map Text Text
insert_found key none md = md
insert_found key (some v) md = insert key v md

-- The non-empty types of the triggers.
unfoldable pub trigger_types : List Trigger → List Text
trigger_types [] = []
trigger_types (no_map ∷ ts) = trigger_types ts
trigger_types (typed none ∷ ts) = trigger_types ts
trigger_types (typed (some []) ∷ ts) = trigger_types ts
trigger_types (typed (some (c ∷ t)) ∷ ts) = (c ∷ t) ∷ trigger_types ts

abbrev pub joined_types : List Text → Option Text
joined_types [] = none
joined_types (t ∷ ts) = some (join (t ∷ ts) b',')

abbrev pub trigger_metadata : Option (List Trigger) → Option Text
trigger_metadata none = none
trigger_metadata (some ts) = joined_types (trigger_types ts)

-- The target's kind defaults to Deployment.
unfoldable pub target_kind : Unstructured → Text
target_kind u =
    let kind = u.nested_string (codes "spec" ∷ codes "scaleTargetRef" ∷ codes "kind" ∷ []) in
    if kind == [] then codes "Deployment" else kind

abbrev pub target_name : Unstructured → Text
target_name u = u.nested_string (codes "spec" ∷ codes "scaleTargetRef" ∷ codes "name" ∷ [])

unfoldable pub scaled_object_metadata : Unstructured → Map Text Text
unfolding label_meta target_kind trigger_types join
scaled_object_metadata u =
    let md = label_meta u.labels in
    let targeted =
      if target_name u == []
      then md
      else insert (codes "keda.target.name") (target_name u)
          (insert (codes "keda.target.kind") (target_kind u) md) in
    let replicas =
      insert_found (codes "keda.max_replicas")
        (map_option itoa (u.nested_int64 (codes "spec" ∷ codes "maxReplicaCount" ∷ [])))
        (insert_found (codes "keda.min_replicas")
          (map_option itoa (u.nested_int64 (codes "spec" ∷ codes "minReplicaCount" ∷ [])))
          targeted) in
    insert_found (codes "keda.scaling_policy")
      (u.marshal_map (
        codes "spec"
        ∷ codes "advanced"
        ∷ codes "horizontalPodAutoscalerConfig"
        ∷ codes "behavior"
        ∷ []))
      (insert_found (codes "keda.triggers")
        (trigger_metadata (u.nested_slice (codes "spec" ∷ codes "triggers" ∷ []))) replicas)

unfoldable pub map_scaled_object_unstructured : Unstructured → Desired
unfolding add_entity add_scale_target scale_target scaled_object_metadata
map_scaled_object_unstructured u =
    let id = scaled_object_id u.namespace u.name in
    let d = add_entity id Kinds.scaled_object u.name (scaled_object_metadata u) nothing in
    if target_name u == []
    then d
    else add_scale_target id (target_name u)
        (scale_target (target_kind u) u.namespace (target_name u)) d

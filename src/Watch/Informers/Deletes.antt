-- ===== src/Watch/Informers/Deletes.antt =====
-- What the deletion of an object that is no pod does.
use otel_k8s_graph.Base.{
  ◌⊎◌, Text, List, [], ◌∷◌, Option, none, some, Bool, true, false, ◌||◌, ◌++◌, ◌∙◌, codes,
  text_DecEq, nat_DecEq, if◌then◌else◌, ◌==◌, ◌≡◌, refl, arith, inl, inr, Bool-cases, Option-cases,
  Text-discrete, ap, subst,
}
use otel_k8s_graph.Graph.Kinds
use otel_k8s_graph.Watch.Objects.{
  OwnerReference, ObjectMeta, CronJob, HorizontalPodAutoscaler, Unstructured,
}
use otel_k8s_graph.Watch.Desired.{DesiredEntity, Desired, add_entity, nothing}
use otel_k8s_graph.Watch.Mapper.{
  map_node, map_namespace, map_deployment, map_stateful_set, map_daemon_set, map_job, map_cron_job,
  map_hpa, add_scale_target, scale_target, owner_name, node_topology_label, hpa_id, hpa_metadata,
  scaled_object_id,
}
use otel_k8s_graph.Watch.Dynamic.{
  map_rollout_unstructured, map_scaled_object_unstructured, target_name, target_kind,
  scaled_object_metadata,
}
use otel_k8s_graph.Watch.Apply.{EntityWriter, is_owned, delete_owned, remove_all, apply_delete}
use otel_k8s_graph.Watch.Handlers.{Deleted, last_known, deleted}
use otel_k8s_graph.Watch.Mapper.Every.{
  Mapped, of_node, of_namespace, of_deployment, of_stateful_set, of_daemon_set, of_job, of_cron_job,
  of_hpa, of_rollout, of_scaled_object,
}
use otel_k8s_graph.Watch.Informers.{
  Object, a_node, a_namespace, a_deployment, a_stateful_set, a_daemon_set, a_job, a_cron_job,
  an_autoscaler, an_unstructured, Informer, nodes, namespaces, deployments, stateful_sets,
  daemon_sets, jobs, cron_jobs, autoscalers, rollouts, scaled_objects, map_object, of_objects,
  notify,
}

-- Is a pod or a container among the entities?
unfoldable owns : List DesiredEntity → Bool
owns [] = false
owns (e ∷ es) = is_owned e.kind || owns es

delete_owned-owns :
    {S : Type 0} (w : EntityWriter S) (kept es : List DesiredEntity) (s : S)
    → owns es ≡ false
    → delete_owned w kept es s ≡ s
unfolding delete_owned owns
delete_owned-owns w kept [] s h = refl
delete_owned-owns w kept (e ∷ es) s h = ground (arith, delete_owned-owns w kept es s)

owns-node : (n : ObjectMeta) → owns (map_node n).entities ≡ false
unfolding owns is_owned map_node Text-discrete
owns-node n = elim (Bool-cases (node_topology_label n.labels (codes "zone") == [])) [
  | inl e ↦ rw e refl
  | inr e ↦ elim (Bool-cases (node_topology_label n.labels (codes "region") == [])) [
    | inl f ↦ rw (e, f) refl
    | inr f ↦ rw (e, f) refl
  ]
]

owns-job : (j : ObjectMeta) → owns (map_job j).entities ≡ false
unfolding owns is_owned map_job Text-discrete
owns-job j = elim (Option-cases (owner_name (codes "CronJob") j.owner_references)) [
  | inl e ↦ rw (map_job, e) refl
  | inr (name, e) ↦ rw (map_job, e) refl
]

owns-simple :
    (o : ObjectMeta)
    → (owns (map_namespace o).entities ≡ false)
      × (owns (map_deployment o).entities ≡ false)
      × (owns (map_stateful_set o).entities ≡ false)
      × (owns (map_daemon_set o).entities ≡ false)
unfolding owns is_owned map_namespace map_deployment map_stateful_set map_daemon_set Text-discrete
owns-simple o = (refl, refl, refl, refl)

owns-cron_job : (cj : CronJob) → owns (map_cron_job cj).entities ≡ false
unfolding owns is_owned map_cron_job Text-discrete
owns-cron_job cj = refl

owns-rollout : (u : Unstructured) → owns (map_rollout_unstructured u).entities ≡ false
unfolding owns is_owned map_rollout_unstructured Text-discrete
owns-rollout u = refl

owns-append : (es fs : List DesiredEntity) → owns (es ++ fs) ≡ (owns es || owns fs)
unfolding owns
owns-append [] fs = refl
owns-append (e ∷ es) fs = ground (arith, owns-append es fs)

owns-target :
    (kind ns target id name : Text) (d : Desired)
    → owns d.entities ≡ false
    → owns (add_scale_target id name (scale_target kind ns target) d).entities ≡ false
unfolding owns is_owned add_scale_target scale_target Text-discrete
owns-target kind ns target id name d h = elim (Bool-cases (kind == codes "Deployment")) [
  | inl e ↦ rw e (owns-append d.entities _ ∙ rw h refl)
  | inr e ↦ elim (Bool-cases (kind == codes "StatefulSet")) [
    | inl f ↦ rw (e, f) (owns-append d.entities _ ∙ rw h refl)
    | inr f ↦ elim (Bool-cases (kind == codes "Rollout")) [
      | inl g ↦ rw (e, f, g) (owns-append d.entities _ ∙ rw h refl)
      | inr g ↦ rw (e, f, g) h
    ]
  ]
]

owns-hpa : (h : HorizontalPodAutoscaler) → owns (map_hpa h).entities ≡ false
unfolding owns is_owned map_hpa add_entity Text-discrete
owns-hpa h =
    let ns = h.meta.namespace in
    let target =
      owns-target h.target_kind ns h.target_name (hpa_id ns h.meta.name) h.target_name
        (add_entity (hpa_id ns h.meta.name) Kinds.hpa h.meta.name (hpa_metadata h) nothing) refl in
    elim (Option-cases (owner_name (codes "ScaledObject") h.meta.owner_references)) [
      | inl e ↦ rw (map_hpa, e) target
      | inr (name, e) ↦
          rw (map_hpa, e)
            (owns-append
                (add_scale_target (hpa_id ns h.meta.name) h.target_name
                  (scale_target h.target_kind ns h.target_name)
                  (add_entity (hpa_id ns h.meta.name) Kinds.hpa h.meta.name (hpa_metadata h)
                    nothing)).entities
                (record {
                  id = scaled_object_id ns name;
                  kind = Kinds.scaled_object;
                  name = name;
                  metadata = [];
                }
                  ∷ [])
              ∙ rw target refl)
    ]

owns-if :
    (test : Bool) (d e : Desired)
    → owns d.entities ≡ false
    → owns e.entities ≡ false
    → owns (if test then d else e).entities ≡ false
owns-if true d e h k = h
owns-if false d e h k = k

owns-scaled_object : (u : Unstructured) → owns (map_scaled_object_unstructured u).entities ≡ false
unfolding owns is_owned map_scaled_object_unstructured add_entity Text-discrete
owns-scaled_object u =
    let id = scaled_object_id u.namespace u.name in
    owns-if (target_name u == []) _ _ refl (
      owns-target (target_kind u) u.namespace (target_name u) id (target_name u)
        (add_entity id Kinds.scaled_object u.name (scaled_object_metadata u) nothing) refl)

-- What an informer's object implies, and that no pod or container is among it.
abbrev IsForeign : Desired → Type 0
IsForeign d = Mapped d × (owns d.entities ≡ false)

map_object-IsForeign :
    (i : Informer) (o : Object) (d : Desired) → map_object i o ≡ some d → IsForeign d
unfolding map_object
map_object-IsForeign nodes (a_node n) d h = subst IsForeign (ground arith) (of_node n, owns-node n)
map_object-IsForeign namespaces (a_namespace n) d h =
    subst IsForeign (ground arith) (of_namespace n, (owns-simple n).0)
map_object-IsForeign deployments (a_deployment o) d h =
    subst IsForeign (ground arith) (of_deployment o, (owns-simple o).1)
map_object-IsForeign stateful_sets (a_stateful_set o) d h =
    subst IsForeign (ground arith) (of_stateful_set o, (owns-simple o).2)
map_object-IsForeign daemon_sets (a_daemon_set o) d h =
    subst IsForeign (ground arith) (of_daemon_set o, (owns-simple o).3)
map_object-IsForeign jobs (a_job j) d h = subst IsForeign (ground arith) (of_job j, owns-job j)
map_object-IsForeign cron_jobs (a_cron_job cj) d h =
    subst IsForeign (ground arith) (of_cron_job cj, owns-cron_job cj)
map_object-IsForeign autoscalers (an_autoscaler a) d h =
    subst IsForeign (ground arith) (of_hpa a, owns-hpa a)
map_object-IsForeign rollouts (an_unstructured u) d h =
    subst IsForeign (ground arith) (of_rollout u, owns-rollout u)
map_object-IsForeign scaled_objects (an_unstructured u) d h =
    subst IsForeign (ground arith) (of_scaled_object u, owns-scaled_object u)
map_object-IsForeign i o d h = ground arith

-- When an object that is no pod is deleted, nothing but edges is removed: those that the object
-- implied. The object's own entity stays, with its metadata.
pub notify-deleted :
    {S : Type 0} (w : EntityWriter S) (lister : Text → Text → Option (List OwnerReference))
    (i : Informer) (event : Deleted Object) (s : S)
    → ((map_object i (last_known event) ≡ none)
        × (notify w lister (of_objects i (deleted event)) s ≡ s))
      ⊎ ((d : Desired) × (map_object i (last_known event) ≡ some d)
          × Mapped d
          × (notify w lister (of_objects i (deleted event)) s ≡ remove_all w d.edges s))
unfolding notify apply_delete
notify-deleted w lister i event s = elim (Option-cases (map_object i (last_known event))) [
  | inl e ↦ inl (e, ground arith)
  | inr (d, e) ↦
      let (mapped, foreign) = map_object-IsForeign i (last_known event) d e in
      let kept = delete_owned-owns w [] d.entities s foreign in
      inr (
        d,
        e,
        mapped,
        ap (λ (o : Option Desired). elim o [ none ↦ s | some d' ↦ apply_delete w d' s ]) e
            ∙ ap (remove_all w d.edges) kept,
      )
]

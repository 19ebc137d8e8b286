-- ===== src/Watch/Owner.antt =====
-- `ownerForPod` and `podDesired` of internal/k8swatch/watcher.go.
use otel_k8s_graph.Base.{
  Text, List, [], ◌∷◌, Option, none, some, codes, text_DecEq, nat_DecEq, if◌then◌else◌, ◌==◌,
}
use otel_k8s_graph.Graph.{Kind}
use otel_k8s_graph.Graph.Kinds
use otel_k8s_graph.Watch.Desired.{Desired}
use otel_k8s_graph.Watch.Objects.{OwnerReference, Pod}
use otel_k8s_graph.Watch.Mapper.{
  deployment_id, rollout_id, stateful_set_id, daemon_set_id, job_id, map_pod,
}

pub record Owner : Type 0 where
  pub id : Text
  pub name : Text
  pub kind : Kind

-- ("", "", "")
abbrev pub no_owner : Owner
no_owner = record { id = []; name = []; kind = [] }

abbrev pub owned_by : (Text → Text → Text) → Text → Text → Kind → Owner
owned_by id ns name kind = record { id = id ns name; name = name; kind = kind }

-- The loop over the owners of a ReplicaSet.
unfoldable pub replica_set_owner : Text → List OwnerReference → Option Owner
replica_set_owner ns [] = none
replica_set_owner ns (rref ∷ refs) =
    if rref.kind == codes "Deployment"
    then some (owned_by deployment_id ns rref.name Kinds.deployment)
    else if rref.kind == codes "Rollout"
    then some (owned_by rollout_id ns rref.name Kinds.rollout)
    else replica_set_owner ns refs

-- The owners of the ReplicaSet of a namespace and a name; `none` if the lister does not have it.
module _ (lister : Text → Text → Option (List OwnerReference)) where
  -- One owner reference of a pod: the owner, or none to go on.
  unfoldable pub reference_owner : Text → OwnerReference → Option Owner
  unfolding replica_set_owner
  reference_owner ns ref =
      if ref.kind == codes "ReplicaSet"
      then elim (lister ns ref.name) [ none ↦ none | some refs ↦ replica_set_owner ns refs ]
      else if ref.kind == codes "StatefulSet"
      then some (owned_by stateful_set_id ns ref.name Kinds.stateful_set)
      else if ref.kind == codes "DaemonSet"
      then some (owned_by daemon_set_id ns ref.name Kinds.daemon_set)
      else if ref.kind == codes "Job"
      then some (owned_by job_id ns ref.name Kinds.job)
      else none

  unfoldable pub first_owner : Text → List OwnerReference → Owner
  unfolding reference_owner
  first_owner ns [] = no_owner
  first_owner ns (ref ∷ refs) =
      let rest = first_owner ns refs in
      elim (reference_owner ns ref) [ none ↦ rest | some owner ↦ owner ]

  unfoldable pub owner_for_pod : Pod → Owner
  unfolding first_owner
  owner_for_pod p = first_owner p.meta.namespace p.meta.owner_references

  unfoldable pub pod_desired : Pod → Desired
  unfolding owner_for_pod map_pod
  pod_desired p = let o = owner_for_pod p in map_pod p o.id o.name o.kind

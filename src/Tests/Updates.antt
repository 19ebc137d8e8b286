-- ===== src/Tests/Updates.antt =====
-- A pod that moves to another node and loses a container.
use otel_k8s_graph.Watch.Mapper.{map_node}
use otel_k8s_graph.Base.{
  Text, [], ◌∷◌, none, some, true, false, not, ◌&&◌, ◌||◌, codes, Text-discrete, text_DecEq,
  nat_DecEq, if◌then◌else◌, ◌or_else◌, lookup, insert, ◌≡◌, refl, arith,
}
use otel_k8s_graph.Graph.{Edge}
use otel_k8s_graph.Graph.Kinds
use otel_k8s_graph.Graph.EdgeKinds
use otel_k8s_graph.Watch.Desired.{DesiredEntity, Desired, plain_edge}
use otel_k8s_graph.Base.{List, Option, ◌⊎◌}
use otel_k8s_graph.Watch.Objects.{OwnerReference}
use otel_k8s_graph.Watch.Handlers.{Deleted, tombstone, last_known, deleted}
use otel_k8s_graph.Watch.Informers.{Object, a_node, nodes, map_object, of_objects, notify}
use otel_k8s_graph.Watch.Informers.Deletes.{notify-deleted}
use otel_k8s_graph.Watch.Mapper.Every.{Mapped}
use otel_k8s_graph.Watch.Apply.{remove_all, apply_add, apply_update, apply_delete}
use otel_k8s_graph.Watch.Apply.Keys.{IsNulFree, AllNulFree, in_edges, edge_key-injective}
use otel_k8s_graph.Watch.Apply.Store.{Store, store_writer, described, is_dropped}
use otel_k8s_graph.Watch.Apply.Update.{
  apply_update-edge, apply_update-entity, apply_add_lem, apply_delete_lem,
}

abbrev web : Text
web = codes "pod:shop/web"

abbrev n1 : Text
n1 = codes "node:n1"

abbrev n2 : Text
n2 = codes "node:n2"

abbrev side : Text
side = codes "container:shop/web/side"

abbrev entity : Text → Text → Text → DesiredEntity
entity id kind name = record { id = id; kind = kind; name = name; metadata = [] }

abbrev old : Desired
old = record {
  entities =
      entity web Kinds.pod (codes "web")
      ∷ entity n1 Kinds.node (codes "n1")
      ∷ entity side Kinds.container (codes "side")
      ∷ [];
  edges = plain_edge n1 EdgeKinds.contains web ∷ plain_edge web EdgeKinds.runs_in n1 ∷ [];
}

abbrev new : Desired
new = record {
  entities = entity web Kinds.pod (codes "web") ∷ entity n2 Kinds.node (codes "n2") ∷ [];
  edges = plain_edge n2 EdgeKinds.contains web ∷ plain_edge web EdgeKinds.runs_in n2 ∷ [];
}

-- The store after the object was added.
abbrev before : Store
before =
    apply_add store_writer old
      (record { entity = λ id. none; metadata = λ id key. none; edge = λ from e. false })

abbrev runs_in_n2 : Edge
runs_in_n2 = (plain_edge web EdgeKinds.runs_in n2).edge

free : IsNulFree web runs_in_n2
free = ground arith

old_free : AllNulFree old.edges
old_free = ground arith

new_free : AllNulFree new.edges
new_free = ground arith

-- The sidecar goes; the node that the pod has left stays.
update_entities :
    ((apply_update store_writer old new before).entity side ≡ none)
    × ((apply_update store_writer old new before).entity n1 ≡ some (Kinds.node, codes "n1"))
unfolding apply_update apply_add Text-discrete insert lookup
update_entities = (refl, refl)

apply_update-edge_example : (apply_update store_writer old new before).edge web runs_in_n2 ≡ (
    if in_edges web runs_in_n2 new.edges && not (in_edges web runs_in_n2 old.edges)
    then true
    else if in_edges web runs_in_n2 old.edges && not (in_edges web runs_in_n2 new.edges)
    then false
    else if is_dropped web new.entities old.entities
    then false
    else before.edge web runs_in_n2)
apply_update-edge_example = apply_update-edge old new before web runs_in_n2 free old_free new_free

apply_update-entity_example : (apply_update store_writer old new before).entity side ≡ (
    if is_dropped side new.entities old.entities
    then none
    else (described side new.entities or_else before.entity side))
apply_update-entity_example = apply_update-entity old new before side

apply_add_lem_example :
    ((apply_add store_writer new before).edge web runs_in_n2
      ≡ (in_edges web runs_in_n2 new.edges || before.edge web runs_in_n2))
    × ((apply_add store_writer new before).entity n2
        ≡ (described n2 new.entities or_else before.entity n2))
apply_add_lem_example = apply_add_lem new before n2 web runs_in_n2

apply_delete_lem_example :
    ((apply_delete store_writer old before).edge web runs_in_n2 ≡ (
      not (in_edges web runs_in_n2 old.edges)
      && not (is_dropped web [] old.entities)
      && before.edge web runs_in_n2))
    × ((apply_delete store_writer old before).entity web
        ≡ (if is_dropped web [] old.entities then none else before.entity web))
apply_delete_lem_example = apply_delete_lem old before web web runs_in_n2

edge_key-injective_example : (web ≡ web) × (runs_in_n2 ≡ runs_in_n2)
edge_key-injective_example = edge_key-injective web web runs_in_n2 runs_in_n2 free free refl

abbrev gone_node : Deleted Object
gone_node = tombstone (
    a_node (record {
      namespace = [];
      name = codes "n1";
      uid = [];
      labels = (codes "topology.kubernetes.io/zone", codes "eu-1a") ∷ [];
      owner_references = [];
    }))

abbrev lister : Text → Text → Option (List OwnerReference)
lister ns name = none

-- The node stays in the store.
gone_node_stays :
    (notify store_writer lister (of_objects nodes (deleted gone_node)) before).entity n1
    ≡ some (Kinds.node, codes "n1")
unfolding notify apply_add apply_delete map_node Text-discrete lookup
gone_node_stays = refl

notify-deleted_example :
    ((map_object nodes (last_known gone_node) ≡ none)
      × (notify store_writer lister (of_objects nodes (deleted gone_node)) before ≡ before))
    ⊎ ((d : Desired) × (map_object nodes (last_known gone_node) ≡ some d)
        × Mapped d
        × (notify store_writer lister (of_objects nodes (deleted gone_node)) before
            ≡ remove_all store_writer d.edges before))
notify-deleted_example = notify-deleted store_writer lister nodes gone_node before

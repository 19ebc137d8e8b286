-- ===== src/Watch/Apply/Update.antt =====
-- What a handler's writes leave in the store, entity by entity and edge by edge.
use otel_k8s_graph.Base.{
  Text, List, [], ◌∷◌, Map, none, Bool, true, false, not, ◌&&◌, ◌||◌, text_DecEq, nat_DecEq,
  if◌then◌else◌, is_some, ◌or_else◌, lookup, ◌≡◌, refl, arith,
}
use otel_k8s_graph.Graph.{Edge, edge_DecEq}
use otel_k8s_graph.Watch.Desired.{DesiredEntity, DesiredEdge, Desired}
use otel_k8s_graph.Watch.Apply.{
  edge_key, index_edges, has_id, upsert_all, add_all, remove_all, delete_owned, add_missing,
  remove_missing, apply_add, apply_update, apply_delete,
}
use otel_k8s_graph.Watch.Apply.Keys.{
  IsNulFree, AllNulFree, in_edges, IsIndexed, index_edges-IsIndexed, index_edges_lem, same_key,
}
use otel_k8s_graph.Watch.Apply.Store.{
  Store, store_writer, described, is_dropped, upsert_all-store, delete_owned-store,
}

add_all-store :
    (eds : List DesiredEdge) (s : Store) (from : Text) (e : Edge)
    → (add_all store_writer eds s).edge from e ≡ (in_edges from e eds || s.edge from e)
unfolding add_all in_edges
add_all-store [] s from e = refl
add_all-store (ed ∷ eds) s from e =
    ground (arith, add_all-store eds (store_writer.add_edge ed.from_id ed.edge s) from e)

remove_all-store :
    (eds : List DesiredEdge) (s : Store) (from : Text) (e : Edge)
    → (remove_all store_writer eds s).edge from e ≡ (not (in_edges from e eds) && s.edge from e)
unfolding remove_all in_edges
remove_all-store [] s from e = refl
remove_all-store (ed ∷ eds) s from e =
    ground (arith, remove_all-store eds (store_writer.remove_edge ed.from_id ed.edge s) from e)

add_all-entity :
    (eds : List DesiredEdge) (s : Store) (id : Text)
    → (add_all store_writer eds s).entity id ≡ s.entity id
unfolding add_all
add_all-entity [] s id = refl
add_all-entity (ed ∷ eds) s id = add_all-entity eds (store_writer.add_edge ed.from_id ed.edge s) id

remove_all-entity :
    (eds : List DesiredEdge) (s : Store) (id : Text)
    → (remove_all store_writer eds s).entity id ≡ s.entity id
unfolding remove_all
remove_all-entity [] s id = refl
remove_all-entity (ed ∷ eds) s id =
    remove_all-entity eds (store_writer.remove_edge ed.from_id ed.edge s) id

module _ (from : Text) (e : Edge) (free : IsNulFree from e) (other : Map Text DesiredEdge) where
  abbrev missing : Map Text DesiredEdge → Bool
  missing m = is_some (lookup (edge_key from e) m) && not (is_some (lookup (edge_key from e) other))

  add_missing-store :
      (m : Map Text DesiredEdge) (s : Store)
      → IsIndexed m
      → (add_missing store_writer other m s).edge from e ≡ (missing m || s.edge from e)
  unfolding add_missing lookup
  add_missing-store [] s h = refl
  add_missing-store ((k, ed) ∷ m) s h = ground (
    arith,
    h.0,
    same_key from e ed free h.1,
    add_missing-store m s h.2,
    add_missing-store m (store_writer.add_edge ed.from_id ed.edge s) h.2,
  )

  remove_missing-store :
      (m : Map Text DesiredEdge) (s : Store)
      → IsIndexed m
      → (remove_missing store_writer other m s).edge from e ≡ (not (missing m) && s.edge from e)
  unfolding remove_missing lookup
  remove_missing-store [] s h = refl
  remove_missing-store ((k, ed) ∷ m) s h = ground (
    arith,
    h.0,
    same_key from e ed free h.1,
    remove_missing-store m s h.2,
    remove_missing-store m (store_writer.remove_edge ed.from_id ed.edge s) h.2,
  )

add_missing-entity :
    (other m : Map Text DesiredEdge) (s : Store) (id : Text)
    → (add_missing store_writer other m s).entity id ≡ s.entity id
unfolding add_missing
add_missing-entity other [] s id = refl
add_missing-entity other ((k, ed) ∷ m) s id = ground (
  arith,
  add_missing-entity other m s id,
  add_missing-entity other m (store_writer.add_edge ed.from_id ed.edge s) id,
)

remove_missing-entity :
    (other m : Map Text DesiredEdge) (s : Store) (id : Text)
    → (remove_missing store_writer other m s).entity id ≡ s.entity id
unfolding remove_missing
remove_missing-entity other [] s id = refl
remove_missing-entity other ((k, ed) ∷ m) s id = ground (
  arith,
  remove_missing-entity other m s id,
  remove_missing-entity other m (store_writer.remove_edge ed.from_id ed.edge s) id,
)

module _ (old new : Desired) (s : Store) where
  abbrev kept : Store
  kept =
      delete_owned store_writer new.entities old.entities (upsert_all store_writer new.entities s)

  abbrev joined : Store
  joined = add_missing store_writer (index_edges old.edges) (index_edges new.edges) kept

  -- After an update an edge of the new object is there and one of the old object alone is not; any
  -- other edge is as before, and so is one of both, unless its source is an entity that the update
  -- deletes. This holds if no id and no edge kind holds the separator of the edge keys.
  pub apply_update-edge :
      (from : Text) (e : Edge)
      → IsNulFree from e
      → AllNulFree old.edges
      → AllNulFree new.edges
      → (apply_update store_writer old new s).edge from e ≡ (
          if in_edges from e new.edges && not (in_edges from e old.edges)
          then true
          else if in_edges from e old.edges && not (in_edges from e new.edges)
          then false
          else if is_dropped from new.entities old.entities
          then false
          else s.edge from e)
  unfolding apply_update
  apply_update-edge from e free old_free new_free = ground (
    arith,
    remove_missing-store from e free (index_edges new.edges) (index_edges old.edges) joined
        (index_edges-IsIndexed old.edges old_free),
    add_missing-store from e free (index_edges old.edges) (index_edges new.edges) kept
        (index_edges-IsIndexed new.edges new_free),
    delete_owned-store new.entities old.entities (upsert_all store_writer new.entities s) from from
        e,
    upsert_all-store new.entities s from from e,
    index_edges_lem old.edges from e free old_free,
    index_edges_lem new.edges from e free new_free,
  )

  -- After an update an entity that the new object implies has the kind and the name that it gives;
  -- of the others, the pods and containers that only the old object implies are gone, and all else
  -- is as before.
  pub apply_update-entity :
      (id : Text)
      → (apply_update store_writer old new s).entity id ≡ (
          if is_dropped id new.entities old.entities
          then none
          else (described id new.entities or_else s.entity id))
  unfolding apply_update
  apply_update-entity id =
      let e : Edge = record { kind = []; to_resource = []; action = [] } in
      ground (
        arith,
        remove_missing-entity (index_edges new.edges) (index_edges old.edges) joined id,
        add_missing-entity (index_edges old.edges) (index_edges new.edges) kept id,
        delete_owned-store new.entities old.entities (upsert_all store_writer new.entities s) id id
            e,
        upsert_all-store new.entities s id id e,
      )

-- What is dropped is not kept.
pub is_dropped-has_id :
    (id : Text) (kept es : List DesiredEntity)
    → is_dropped id kept es ≡ true
    → has_id id kept ≡ false
unfolding is_dropped
is_dropped-has_id id kept [] h = cc
is_dropped-has_id id kept (x ∷ es) h = ground (arith, is_dropped-has_id id kept es)

module _ (d : Desired) (s : Store) where
  -- Adding an object adds its edges and takes none away, and describes its entities.
  pub apply_add_lem :
      (id from : Text) (e : Edge)
      → ((apply_add store_writer d s).edge from e ≡ (in_edges from e d.edges || s.edge from e))
        × ((apply_add store_writer d s).entity id ≡ (described id d.entities or_else s.entity id))
  unfolding apply_add
  apply_add_lem id from e = ground (
    arith,
    add_all-store d.edges (upsert_all store_writer d.entities s) from e,
    add_all-entity d.edges (upsert_all store_writer d.entities s) id,
    upsert_all-store d.entities s id from e,
  )

  -- Deleting an object takes away its edges, the pods and containers among its entities and the
  -- edges from these, and nothing else.
  pub apply_delete_lem :
      (id from : Text) (e : Edge)
      → ((apply_delete store_writer d s).edge from e
          ≡ (not (in_edges from e d.edges) && not (is_dropped from [] d.entities) && s.edge from e))
        × ((apply_delete store_writer d s).entity id
            ≡ (if is_dropped id [] d.entities then none else s.entity id))
  unfolding apply_delete
  apply_delete_lem id from e = ground (
    arith,
    remove_all-store d.edges (delete_owned store_writer [] d.entities s) from e,
    remove_all-entity d.edges (delete_owned store_writer [] d.entities s) id,
    delete_owned-store [] d.entities s id from e,
    delete_owned-store [] d.entities s from from e,
  )

-- ===== src/Delta/Ids.antt =====
-- What the commands of a difference do to the set of all ids.
use otel_k8s_graph.Base.{
  ℕ, Text, [], ◌∷◌, ◌++◌, Map, Option, none, some, Bool, true, false, not, ◌&&◌, text_DecEq,
  nat_DecEq, if◌then◌else◌, ◌==◌, is_some, lookup, ◌≡◌, refl, arith, ==_refl,
}
use otel_k8s_graph.Graph.{Edge, Time}
use otel_k8s_graph.Graph.Keys.{key_ids}
use otel_k8s_graph.BatchSet.{EntitySetVal, EdgeSetKey, BatchWriteSet, edge_key_DecEq}
use otel_k8s_graph.Redis.{members, members-append}
use otel_k8s_graph.Delta.{metadata_cmds}
use otel_k8s_graph.Graph.Keys.{key_ids-distinct}
use otel_k8s_graph.Delta.Commands.{
  gather, entity_added, entity_removed, edge_added, edge_removed, delta_commands,
}

module _ (marshal : Edge → Text) (prefix : Text) (ms : ℕ) (s prev : BatchWriteSet) (id : Text) where
  abbrev ids : Text
  ids = key_ids prefix

  metadata-members :
      (j : Text) (o : Option (Map Text Text)) (b : Bool)
      → members ids id (metadata_cmds prefix j o) b ≡ b
  unfolding members
  metadata-members j none b = refl
  metadata-members j (some []) b = refl
  metadata-members j (some (kv ∷ md)) b = refl

  added-members :
      (j : Text) (e : EntitySetVal) (b : Bool)
      → members ids id (entity_added marshal prefix ms s prev (j, e)) b
        ≡ (if not (is_some (lookup j prev.entities)) && j == id then true else b)
  unfolding members
  added-members j e b = ground (
    arith,
    key_ids-distinct prefix j e.kind,
    ==_refl ids,
    metadata-members j (lookup j s.metas) (if j == id then true else b),
    metadata-members j (lookup j s.metas) b,
    metadata-members j (lookup j s.metas) true,
  )

  gather_added-members :
      (es : Map Text EntitySetVal) (b : Bool)
      → members ids id (gather (entity_added marshal prefix ms s prev) es) b
        ≡ (if is_some (lookup id es) && not (is_some (lookup id prev.entities)) then true else b)
  unfolding members lookup
  gather_added-members [] b = refl
  gather_added-members ((j, e) ∷ es) b =
      let cs = entity_added marshal prefix ms s prev (j, e) in
      ground (
        arith,
        members-append ids id cs (gather (entity_added marshal prefix ms s prev) es) b,
        gather_added-members es (members ids id cs b),
        added-members j e b,
      )

  removed-members :
      (j : Text) (e : EntitySetVal) (b : Bool)
      → members ids id (entity_removed marshal prefix ms s prev (j, e)) b
        ≡ (if not (is_some (lookup j s.entities)) && j == id then false else b)
  unfolding members
  removed-members j e b = ground (arith, key_ids-distinct prefix j e.kind, ==_refl ids)

  gather_removed-members :
      (es : Map Text EntitySetVal) (b : Bool)
      → members ids id (gather (entity_removed marshal prefix ms s prev) es) b
        ≡ (if is_some (lookup id es) && not (is_some (lookup id s.entities)) then false else b)
  unfolding members lookup
  gather_removed-members [] b = refl
  gather_removed-members ((j, e) ∷ es) b =
      let cs = entity_removed marshal prefix ms s prev (j, e) in
      ground (
        arith,
        members-append ids id cs (gather (entity_removed marshal prefix ms s prev) es) b,
        gather_removed-members es (members ids id cs b),
        removed-members j e b,
      )

  edge_added-members :
      (k : EdgeSetKey) (t : Time) (b : Bool)
      → members ids id (edge_added marshal prefix ms s prev (k, t)) b ≡ b
  unfolding members
  edge_added-members k t b = ground (arith, key_ids-distinct prefix k.from k.kind)

  edge_removed-members :
      (k : EdgeSetKey) (t : Time) (b : Bool)
      → members ids id (edge_removed marshal prefix ms s prev (k, t)) b ≡ b
  unfolding members
  edge_removed-members k t b = ground (arith, key_ids-distinct prefix k.from k.kind)

  edges_added-members :
      (es : Map EdgeSetKey Time) (b : Bool)
      → members ids id (gather (edge_added marshal prefix ms s prev) es) b ≡ b
  unfolding members
  edges_added-members [] b = refl
  edges_added-members ((k, t) ∷ es) b =
      rw
        (
          members-append ids id (edge_added marshal prefix ms s prev (k, t))
              (gather (edge_added marshal prefix ms s prev) es) b,
          edge_added-members k t b,
        )
        (edges_added-members es b)

  edges_removed-members :
      (es : Map EdgeSetKey Time) (b : Bool)
      → members ids id (gather (edge_removed marshal prefix ms s prev) es) b ≡ b
  unfolding members
  edges_removed-members [] b = refl
  edges_removed-members ((k, t) ∷ es) b =
      rw
        (
          members-append ids id (edge_removed marshal prefix ms s prev (k, t))
              (gather (edge_removed marshal prefix ms s prev) es) b,
          edge_removed-members k t b,
        )
        (edges_removed-members es b)

  -- Whether an id is a member after the commands of a difference.
  delta_commands-any :
      (b : Bool)
      → let added = is_some (lookup id s.entities) && not (is_some (lookup id prev.entities)) in
        let removed = is_some (lookup id prev.entities) && not (is_some (lookup id s.entities)) in
        members ids id (delta_commands marshal prefix ms s prev) b
        ≡ (if removed then false else if added then true else b)
  unfolding delta_commands
  delta_commands-any b =
      let c1 = gather (entity_added marshal prefix ms s prev) s.entities in
      let c2 = gather (entity_removed marshal prefix ms s prev) prev.entities in
      let c3 = gather (edge_added marshal prefix ms s prev) s.edges in
      let c4 = gather (edge_removed marshal prefix ms s prev) prev.edges in
      rw
        (
          members-append ids id (c1 ++ c2 ++ c3) c4 b,
          members-append ids id (c1 ++ c2) c3 b,
          members-append ids id c1 c2 b,
          edges_added-members s.edges (members ids id c2 (members ids id c1 b)),
          edges_removed-members prev.edges (members ids id c2 (members ids id c1 b)),
          gather_added-members s.entities b,
        )
        (ground (
          arith,
          gather_removed-members prev.entities (
              if is_some (lookup id s.entities) && not (is_some (lookup id prev.entities))
              then true
              else b),
        ))

  -- The commands of a difference add the ids that are new and remove those that are gone.
  pub delta_commands-members :
      (b : Bool)
      → is_some (lookup id prev.entities) ≡ b
      → members ids id (delta_commands marshal prefix ms s prev) b ≡ is_some (lookup id s.entities)
  delta_commands-members b h = ground (arith, delta_commands-any b)

  -- They leave an id of neither set as it is.
  pub delta_commands-foreign :
      (b : Bool)
      → lookup id prev.entities ≡ none
      → lookup id s.entities ≡ none
      → members ids id (delta_commands marshal prefix ms s prev) b ≡ b
  delta_commands-foreign b h k = ground (arith, delta_commands-any b)

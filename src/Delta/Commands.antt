-- ===== src/Delta/Commands.antt =====
-- The commands of the difference between two sets, in the order of the loops.
use otel_k8s_graph.Base.{
  ℕ, Text, List, [], ◌∷◌, ◌++◌, text_DecEq, nat_DecEq, if◌then◌else◌, is_some, lookup,
}
use otel_k8s_graph.Graph.{Edge, Time}
use otel_k8s_graph.Graph.Keys.{key_edges}
use otel_k8s_graph.BatchSet.{EntitySetVal, EdgeSetKey, BatchWriteSet, edge_key_DecEq}
use otel_k8s_graph.Redis.{Cmd, sadd, srem}
use otel_k8s_graph.Delta.{edge_of, add_entity_cmds, remove_entity_cmds}

abbrev pub gather : {A : Type 0} → (A → List Cmd) → List A → List Cmd
gather f [] = []
gather f (x ∷ xs) = f x ++ gather f xs

-- The commands of the difference between two sets, in the order of the loops.
module _ (marshal : Edge → Text) (prefix : Text) (ms : ℕ) (s prev : BatchWriteSet) where
  abbrev pub entity_added : Text × EntitySetVal → List Cmd
  entity_added (id, e) =
      if is_some (lookup id prev.entities)
      then []
      else add_entity_cmds prefix ms id e (lookup id s.metas)

  abbrev pub entity_removed : Text × EntitySetVal → List Cmd
  entity_removed (id, e) =
      if is_some (lookup id s.entities) then [] else remove_entity_cmds prefix id e

  abbrev pub edge_added : EdgeSetKey × Time → List Cmd
  edge_added (k, t) =
      if is_some (lookup k prev.edges)
      then []
      else sadd (key_edges prefix k.from) (marshal (edge_of k)) ∷ []

  abbrev pub edge_removed : EdgeSetKey × Time → List Cmd
  edge_removed (k, t) =
      if is_some (lookup k s.edges)
      then []
      else srem (key_edges prefix k.from) (marshal (edge_of k)) ∷ []

  unfoldable pub delta_commands : List Cmd
  delta_commands =
      gather entity_added s.entities
      ++ gather entity_removed prev.entities
      ++ gather edge_added s.edges
      ++ gather edge_removed prev.edges

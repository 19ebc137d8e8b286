-- ===== src/Watch/Apply.antt =====
-- The writes of internal/k8swatch/watcher.go: `applyAdd`, `applyUpdate` and `applyDelete`.
pub mod Keys
pub mod Store
pub mod Written
pub mod Update
use otel_k8s_graph.Base.{
  ℕ, ◌+◌, ◌-◌, Text, List, [], ◌∷◌, ◌++◌, Map, Bool, false, not, ◌||◌, text_DecEq, nat_DecEq,
  if◌then◌else◌, ◌==◌, is_some, lookup, insert,
}
use otel_k8s_graph.Graph.{Kind, Edge}
use otel_k8s_graph.Graph.Kinds
use otel_k8s_graph.Watch.Desired.{DesiredEntity, DesiredEdge, Desired}

-- `entityWriter`: each method takes the writer's state to its next state.
pub record EntityWriter (S : Type 0) : Type 0 where
  pub upsert_entity : Text → Kind → Text → Map Text Text → S → S
  pub delete_entity : Text → Kind → S → S
  pub add_edge : Text → Edge → S → S
  pub remove_edge : Text → Edge → S → S

-- The byte that separates the fields of a key.
abbrev pub nul : ℕ
nul = 0

unfoldable pub edge_key : Text → Edge → Text
edge_key from e = from ++ nul ∷ (e.kind ++ nul ∷ (e.to_resource ++ nul ∷ e.action))

-- The loop of `indexEdges`.
unfoldable pub index_into : List DesiredEdge → Map Text DesiredEdge → Map Text DesiredEdge
unfolding edge_key
index_into [] m = m
index_into (ed ∷ edges) m = index_into edges (insert (edge_key ed.from_id ed.edge) ed m)

unfoldable pub index_edges : List DesiredEdge → Map Text DesiredEdge
unfolding index_into
index_edges edges = index_into edges []

-- A pod or a container: an entity that its object owns.
unfoldable pub is_owned : Kind → Bool
is_owned kind = kind == Kinds.pod || kind == Kinds.container

unfoldable pub has_id : Text → List DesiredEntity → Bool
has_id id [] = false
has_id id (e ∷ es) = e.id == id || has_id id es

module _ {S : Type 0} (w : EntityWriter S) where
  unfoldable pub upsert_all : List DesiredEntity → S → S
  upsert_all [] s = s
  upsert_all (e ∷ es) s = upsert_all es (w.upsert_entity e.id e.kind e.name e.metadata s)

  unfoldable pub add_all : List DesiredEdge → S → S
  add_all [] s = s
  add_all (ed ∷ eds) s = add_all eds (w.add_edge ed.from_id ed.edge s)

  unfoldable pub remove_all : List DesiredEdge → S → S
  remove_all [] s = s
  remove_all (ed ∷ eds) s = remove_all eds (w.remove_edge ed.from_id ed.edge s)

  -- The owned entities of the list that are not among the kept ones are deleted.
  unfoldable pub delete_owned : List DesiredEntity → List DesiredEntity → S → S
  unfolding has_id is_owned
  delete_owned kept [] s = s
  delete_owned kept (e ∷ es) s =
      delete_owned kept es (
        if has_id e.id kept
        then s
        else if is_owned e.kind
        then w.delete_entity e.id e.kind s
        else s)

  -- for k, ed := range m { if _, ok := other[k]; !ok { AddEdge } }
  unfoldable pub add_missing : Map Text DesiredEdge → Map Text DesiredEdge → S → S
  add_missing other [] s = s
  add_missing other ((k, ed) ∷ m) s =
      add_missing other m (if is_some (lookup k other) then s else w.add_edge ed.from_id ed.edge s)

  unfoldable pub remove_missing : Map Text DesiredEdge → Map Text DesiredEdge → S → S
  remove_missing other [] s = s
  remove_missing other ((k, ed) ∷ m) s =
      remove_missing other m
        (if is_some (lookup k other) then s else w.remove_edge ed.from_id ed.edge s)

  unfoldable pub apply_add : Desired → S → S
  unfolding upsert_all add_all
  apply_add d s = add_all d.edges (upsert_all d.entities s)

  unfoldable pub apply_update : Desired → Desired → S → S
  unfolding upsert_all delete_owned index_edges add_missing remove_missing
  apply_update old_d new_d s =
      let s1 = upsert_all new_d.entities s in
      let s2 = delete_owned new_d.entities old_d.entities s1 in
      let old_edges = index_edges old_d.edges in
      let new_edges = index_edges new_d.edges in
      remove_missing new_edges old_edges (add_missing old_edges new_edges s2)

  unfoldable pub apply_delete : Desired → S → S
  unfolding delete_owned remove_all
  apply_delete d s = remove_all d.edges (delete_owned [] d.entities s)

-- ===== src/Reader/Subgraph.antt =====
-- `Subgraph` of internal/graph/redis.go: a breadth-first search over the entities that can be loaded.
pub mod Offer
pub mod Walks
pub mod Invariant
pub mod Correct
pub mod Small
pub mod Reachable
pub mod Ends
use otel_k8s_graph.Base.{
  ℕ, zero, suc, ◌+◌, ◌-◌, Text, List, [], ◌∷◌, ◌++◌, Map, Option, none, some, not, text_DecEq,
  nat_DecEq, if◌then◌else◌, ◌==◌, leb, is_some, lookup, insert,
}
use otel_k8s_graph.Base.{ℤ}
use otel_k8s_graph.Graph.{Edge, Entity}
use otel_k8s_graph.Reader.{Answers, get, size, positive_or}
use otel_k8s_graph.Reader.Sort.{sort_by}

-- The variables of the loop.
pub record Search : Type 0 where
  pub visited : Map Text ℕ
  pub queue : List Text
  pub out : List Entity
  pub frontier : Map Text Entity

-- visited[id], and the edges of frontier[id]: zero values for an id that is not there
abbrev pub depth_of : Map Text ℕ → Text → ℕ
depth_of visited id = elim (lookup id visited) [ none ↦ 0 | some depth ↦ depth ]

abbrev pub edges_at : Map Text Entity → Text → List Edge
edges_at frontier id = elim (lookup id frontier) [ none ↦ [] | some e ↦ e.edges ]

module _ (load : Text → Option Entity) where
  -- One edge of an entity at a depth.
  unfoldable pub offer : ℕ → Edge → Search → Search
  offer depth e s =
      let id = e.to_resource in
      if is_some (lookup id s.visited) then s else elim (load id) [
        | none ↦ s
        | some child ↦ record {
          visited = insert id (depth + 1) s.visited;
          queue = s.queue ++ id ∷ [];
          out = s.out ++ child ∷ [];
          frontier = insert id child s.frontier;
        }
      ]

  unfoldable pub offer_all : ℕ → List Edge → Search → Search
  unfolding offer
  offer_all depth [] s = s
  offer_all depth (e ∷ es) s = offer_all depth es (offer depth e s)

  module _ (root_id : Text) (root : Entity) (max_depth : ℕ) where
    -- One round, after the id left the queue.
    unfoldable pub expand : Text → Search → Search
    unfolding offer_all
    expand id s =
        let depth = depth_of s.visited id in
        let edges = if id == root_id then root.edges else edges_at s.frontier id in
        if leb max_depth depth then s else offer_all depth edges s

    -- `none` means that the fuel ran out.
    unfoldable pub loop : ℕ → Search → Option Search
    unfolding expand
    loop zero s = elim s.queue [ [] ↦ some s | id ∷ rest ↦ none ]
    loop (suc fuel) s = elim s.queue [
      | [] ↦ some s
      | id ∷ rest ↦ loop fuel (expand id (record s { queue = rest }))
    ]

    abbrev pub start : Search
    start = record {
      visited = (root_id, 0) ∷ [];
      queue = root_id ∷ [];
      out = root ∷ [];
      frontier = (root_id, root) ∷ [];
    }

pub data Outcome : Type 0 where
  found : List Entity → Outcome
  no_such_entity out_of_fuel : Outcome

module _ (a : Answers) (unmarshal : Text → Option Edge) (prefix : Text) where
  -- With the fuel of the loop, which the code does not have.
  unfoldable pub subgraph : ℕ → Text → ℤ → Outcome
  unfolding loop get size sort_by
  subgraph fuel root_id max_depth = elim (get a unmarshal prefix root_id) [
    | none ↦ no_such_entity
    | some root ↦
        let depth = positive_or (size a unmarshal prefix) max_depth in
        elim (loop (get a unmarshal prefix) root_id root depth fuel
          (start (get a unmarshal prefix) root_id root depth)) [
            | none ↦ out_of_fuel
            | some s ↦ found (sort_by (λ (e : Entity). e.id) s.out)
          ]
  ]

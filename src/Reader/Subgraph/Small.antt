-- ===== src/Reader/Subgraph/Small.antt =====
-- The depths of a search stay below the number of ids that it visited, which is at most the number of
-- those that can be loaded.
use otel_k8s_graph.Base.{
  ℕ, zero, suc, ◌+◌, ◌≤◌, ◌<◌, Text, List, [], ◌∷◌, Option, some, true, text_DecEq, nat_DecEq,
  if◌then◌else◌, ◌==◌, is_some, lookup, insert, length, ◌≡◌, refl, inl, inr, subst, arith,
  Option-cases, lookup-insert, length-insert, leb, Bool-cases,
}
use otel_k8s_graph.Graph.{Edge, Entity}
use otel_k8s_graph.Reader.Subgraph.{
  Search, depth_of, edges_at, offer, offer_all, expand, loop, start,
}
use otel_k8s_graph.Reader.Subgraph.Ends.{
  List-cases, unvisited, unvisited-insert_new, unvisited-nil, HasOnly,
}

module _ (load : Text → Option Entity) (ids : List Text) (only : HasOnly load ids) where
  pub record IsSmall (s : Search) : Type 0 where
    pub begun : 0 < length s.visited
    pub fits : unvisited ids s.visited + length s.visited ≤ length ids
    pub shallow :
        (id : Text) (depth : ℕ) → lookup id s.visited ≡ some depth → depth < length s.visited

  offer-IsSmall :
      (depth : ℕ) (e : Edge) (s : Search)
      → depth < length s.visited
      → IsSmall s
      → IsSmall (offer load depth e s) × (depth < length (offer load depth e s).visited)
  unfolding offer
  offer-IsSmall depth e s l small =
      let to = e.to_resource in
      elim (Option-cases (lookup to s.visited)) [
        | inr (d, v) ↦ rw v (small, l)
        | inl v ↦ elim (Option-cases (load to)) [
          | inl h ↦ rw (v, h) (small, l)
          | inr (child, h) ↦
              let more = length-insert to (depth + 1) s.visited in
              let less =
                unvisited-insert_new ids s.visited to (depth + 1) (only to (ground arith)) v in
              rw (v, h)
                (
                  record {
                    begun = ground (arith, small.begun);
                    fits = ground (arith, small.fits);
                    shallow = λ id d at.
                        ground
                          (arith, small.shallow id d, lookup-insert to id (depth + 1) s.visited);
                  },
                  ground arith,
                )
        ]
      ]

  offer_all-IsSmall :
      (depth : ℕ) (es : List Edge) (s : Search)
      → depth < length s.visited
      → IsSmall s
      → IsSmall (offer_all load depth es s)
  unfolding offer_all
  offer_all-IsSmall depth [] s l small = small
  offer_all-IsSmall depth (e ∷ es) s l small =
      let (small', l') = offer-IsSmall depth e s l small in
      offer_all-IsSmall depth es (offer load depth e s) l' small'

  module _ (root_id : Text) (root : Entity) (max_depth : ℕ) where
    expand-IsSmall :
        (id : Text) (s : Search) → IsSmall s → IsSmall (expand load root_id root max_depth id s)
    unfolding expand
    expand-IsSmall id s small =
        let edges = if id == root_id then root.edges else edges_at s.frontier id in
        let low : depth_of s.visited id < length s.visited =
          elim (Option-cases (lookup id s.visited)) [
            | inl e ↦ ground (arith, small.begun)
            | inr (d, e) ↦ ground (arith, small.shallow id d e)
          ] in
        elim (Bool-cases (leb max_depth (depth_of s.visited id))) [
          | inl full ↦ rw full small
          | inr room ↦ rw room (offer_all-IsSmall (depth_of s.visited id) edges s low small)
        ]

    pub loop-IsSmall :
        (fuel : ℕ) (s t : Search)
        → IsSmall s
        → loop load root_id root max_depth fuel s ≡ some t
        → IsSmall t
    unfolding loop
    loop-IsSmall zero s t small h = elim (List-cases s.queue) [
      | inl e ↦ subst IsSmall (ground arith) small
      | inr (id, rest, e) ↦ ground arith
    ]
    loop-IsSmall (suc fuel) s t small h = elim (List-cases s.queue) [
      | inl e ↦ subst IsSmall (ground arith) small
      | inr (id, rest, e) ↦
          let s' : Search = record s { queue = rest } in
          let small' : IsSmall s' = record {
            begun = small.begun;
            fits = small.fits;
            shallow = small.shallow;
          } in
          loop-IsSmall fuel (expand load root_id root max_depth id s') t
            (expand-IsSmall id s' small') (ground arith)
    ]

    pub start-IsSmall : is_some (load root_id) ≡ true → IsSmall (start load root_id root max_depth)
    unfolding insert lookup
    start-IsSmall h =
        let less = unvisited-insert_new ids [] root_id 0 (only root_id h) refl in
        record {
          begun = omega arith;
          fits = omega (arith, less, unvisited-nil ids);
          shallow = λ id d at. ground arith;
        }

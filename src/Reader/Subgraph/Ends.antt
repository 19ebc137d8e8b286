-- ===== src/Reader/Subgraph/Ends.antt =====
-- The search ends: a round takes one id from the queue, and adds only ids that were not visited.
use otel_k8s_graph.Base.{
  ℕ, zero, suc, ◌+◌, ◌≤◌, ◌<◌, Text, List, [], ◌∷◌, ◌++◌, Map, Option, none, some, true, text_DecEq,
  nat_DecEq, if◌then◌else◌, ◌==◌, is_some, lookup, insert, length, ◌≡◌, refl, ap, ◌⊎◌, inl, inr,
  arith, Option-cases, lookup-insert,
}
use otel_k8s_graph.Graph.{Edge, Entity}
use otel_k8s_graph.Redis.{is_in}
use otel_k8s_graph.Reader.Subgraph.{
  Search, depth_of, edges_at, offer, offer_all, expand, loop, start,
}

pub List-cases {ℓ} :
    {A : Type ℓ} (xs : List A) → (xs ≡ []) ⊎ ((x : A) × (rest : List A) × (xs ≡ x ∷ rest))
List-cases [] = inl refl
List-cases (x ∷ xs) = inr (x, xs, refl)

-- How many of some ids are not visited.
abbrev pub unvisited : List Text → Map Text ℕ → ℕ
unvisited [] visited = 0
unvisited (id ∷ ids) visited =
    if is_some (lookup id visited) then unvisited ids visited else suc (unvisited ids visited)

-- A visit lowers the number by one at least, if the id is among them and new.
unvisited-insert :
    (ids : List Text) (visited : Map Text ℕ) (id : Text) (depth : ℕ)
    → unvisited ids (insert id depth visited) ≤ unvisited ids visited
unvisited-insert [] visited id depth = omega arith
unvisited-insert (j ∷ ids) visited id depth =
    ground (arith, lookup-insert id j depth visited, unvisited-insert ids visited id depth)

pub unvisited-insert_new :
    (ids : List Text) (visited : Map Text ℕ) (id : Text) (depth : ℕ)
    → is_in id ids ≡ true
    → lookup id visited ≡ none
    → unvisited ids (insert id depth visited) < unvisited ids visited
unvisited-insert_new [] visited id depth h new = cc
unvisited-insert_new (j ∷ ids) visited id depth h new = ground (
  arith,
  lookup-insert id j depth visited,
  unvisited-insert ids visited id depth,
  unvisited-insert_new ids visited id depth,
)

pub unvisited-nil : (ids : List Text) → unvisited ids [] ≡ length ids
unfolding lookup
unvisited-nil [] = refl
unvisited-nil (id ∷ ids) = ap suc (unvisited-nil ids)

length-snoc {ℓ} : {A : Type ℓ} (xs : List A) (x : A) → length (xs ++ x ∷ []) ≡ length xs + 1
length-snoc [] x = omega arith
length-snoc (y ∷ xs) x = omega (arith, length-snoc xs x)

-- All that can be loaded is among the ids, as in a database with finitely many keys.
abbrev pub HasOnly : (Text → Option Entity) → List Text → Type 0
HasOnly load ids = (id : Text) → is_some (load id) ≡ true → is_in id ids ≡ true

module _ (load : Text → Option Entity) (ids : List Text) (only : HasOnly load ids) where
  abbrev work : Search → ℕ
  work s = unvisited ids s.visited + length s.queue

  offer-work : (depth : ℕ) (e : Edge) (s : Search) → work (offer load depth e s) ≤ work s
  unfolding offer
  offer-work depth e s =
      let to = e.to_resource in
      elim (Option-cases (lookup to s.visited)) [
        | inr (d, v) ↦ ground arith
        | inl v ↦ elim (Option-cases (load to)) [
          | inl h ↦ ground arith
          | inr (child, h) ↦ ground (
            arith,
            only to (ground arith),
            unvisited-insert_new ids s.visited to (depth + 1),
            length-snoc s.queue to,
          )
        ]
      ]

  offer_all-work :
      (depth : ℕ) (es : List Edge) (s : Search) → work (offer_all load depth es s) ≤ work s
  unfolding offer_all
  offer_all-work depth [] s = omega arith
  offer_all-work depth (e ∷ es) s =
      omega (arith, offer-work depth e s, offer_all-work depth es (offer load depth e s))

  module _ (root_id : Text) (root : Entity) (max_depth : ℕ) where
    expand-work : (id : Text) (s : Search) → work (expand load root_id root max_depth id s) ≤ work s
    unfolding expand
    expand-work id s =
        let edges = if id == root_id then root.edges else edges_at s.frontier id in
        ground (arith, offer_all-work (depth_of s.visited id) edges s)

    pub loop_ends :
        (fuel : ℕ) (s : Search)
        → work s ≤ fuel
        → (t : Search) × (loop load root_id root max_depth fuel s ≡ some t)
    unfolding loop
    loop_ends zero s h = elim (List-cases s.queue) [
      | inl e ↦ (s, ground arith)
      | inr (id, rest, e) ↦ absurd (omega (arith, ap length e))
    ]
    loop_ends (suc fuel) s h = elim (List-cases s.queue) [
      | inl e ↦ (s, ground arith)
      | inr (id, rest, e) ↦
          let s' = expand load root_id root max_depth id (record s { queue = rest }) in
          let less = expand-work id (record s { queue = rest }) in
          let (t, ends) = loop_ends fuel s' (omega (arith, less, ap length e)) in (t, ground arith)
    ]

    pub start-work :
        is_some (load root_id) ≡ true → work (start load root_id root max_depth) ≤ length ids
    unfolding insert lookup
    start-work h =
        let less = unvisited-insert_new ids [] root_id 0 (only root_id h) refl in
        omega (arith, less, unvisited-nil ids)

-- ===== src/Reader/Subgraph/Correct.antt =====
-- `Subgraph` ends, and its result is the entities within the maximal depth, in ascending order.
use otel_k8s_graph.Base.{
  ℕ, zero, suc, ◌≤◌, Text, List, [], ◌∷◌, ◌++◌, Option, none, some, true, text_DecEq, nat_DecEq,
  leb, lookup, length, ◌≡◌, ◌↔◌, ap, subst, ◌⊎◌, inl, inr, arith, Bool-cases, Option-cases,
}
use otel_k8s_graph.Base.{ℤ}
use otel_k8s_graph.Graph.{Edge, Entity}
use otel_k8s_graph.Redis.{is_in}
use otel_k8s_graph.Reader.{Answers, get, size, positive_or, load_all}
use otel_k8s_graph.Reader.Sort.{sort_by, IsAscending, sort_by-IsAscending}
use otel_k8s_graph.Reader.Subgraph.{
  Search, depth_of, expand, loop, start, found, no_such_entity, subgraph,
}
use otel_k8s_graph.Reader.Subgraph.Walks.{AllDistinct, Walk, here, step, Ascends}
use otel_k8s_graph.Reader.Subgraph.Invariant.{
  Inv, start-Inv, round_edges, new, skip-Inv, explore-Inv,
}
use otel_k8s_graph.Reader.Subgraph.Ends.{HasOnly, List-cases, loop_ends, start-work}

module _ (load : Text → Option Entity) (root_id : Text) (root : Entity) (max_depth : ℕ)
    (rooted : load root_id ≡ some root) where
  abbrev pub Invariant : List Text → ℕ → Search → Type 0
  Invariant = Inv load root_id root max_depth

  -- Some order of the visited ids meets the invariant.
  abbrev pub IsSearching : Search → Type 0
  IsSearching s = (order : List Text) × (lo : ℕ) × Invariant order lo s

  expand-IsSearching :
      (s : Search) (id : Text) (rest : List Text)
      → s.queue ≡ id ∷ rest
      → IsSearching s
      → IsSearching (expand load root_id root max_depth id (record s { queue = rest }))
  unfolding expand
  expand-IsSearching s id rest e (order, lo, inv) =
      let (depth, at, le, waiting) = subst (Ascends s.visited lo) e inv.queued in
      let here_depth : depth_of s.visited id ≡ depth = ground arith in
      let edges = round_edges load root_id root max_depth rooted order lo depth s id inv at in
      elim (Bool-cases (leb max_depth depth)) [
        | inl full ↦
            rw (here_depth, full)
              (
                order,
                depth,
                skip-Inv load root_id root max_depth rooted order lo depth s id rest inv e at le
                    waiting (ground arith),
              )
        | inr room ↦
            rw (here_depth, room, edges)
              (
                order
                    ++ new load root_id root max_depth rooted order lo depth s id rest inv e at le
                        waiting,
                depth,
                explore-Inv load root_id root max_depth rooted order lo depth s id rest inv e at le
                    waiting (ground arith),
              )
      ]

  pub loop-IsSearching :
      (fuel : ℕ) (s t : Search)
      → IsSearching s
      → loop load root_id root max_depth fuel s ≡ some t
      → IsSearching t × (t.queue ≡ [])
  unfolding loop
  loop-IsSearching zero s t inv h = elim (List-cases s.queue) [
    | inl e ↦ let same : s ≡ t = ground arith in (subst IsSearching same inv, ground arith)
    | inr (id, rest, e) ↦ ground arith
  ]
  loop-IsSearching (suc fuel) s t inv h = elim (List-cases s.queue) [
    | inl e ↦ let same : s ≡ t = ground arith in (subst IsSearching same inv, ground arith)
    | inr (id, rest, e) ↦
        loop-IsSearching fuel (expand load root_id root max_depth id (record s { queue = rest })) t
          (expand-IsSearching s id rest e inv) (ground arith)
  ]

  -- At the end every walk within the depth is followed.
  complete :
      (order : List Text) (lo : ℕ) (s : Search)
      → Invariant order lo s
      → s.queue ≡ []
      → (n : ℕ) (v : Text) → Walk load root_id n v
      → n ≤ max_depth
      → (t : ℕ) × (lookup v s.visited ≡ some t) × (t ≤ n)
  complete order lo s inv e n v here l = (0, inv.source, omega arith)
  complete order lo s inv e n v (step {n = m} {u = u} v' w target loads) l =
      let (t, at, le) = complete order lo s inv e m u w (omega arith) in
      let (x, to, less) =
        (inv.explored u t at (ground arith) (omega arith)).reached v' target loads in
      (x, to, omega arith)

-- A list of entities is what a walk of at most some length from the root leads to: its ids, each
-- once, are those of the walks, and the entities are sorted by their ids.
pub record IsNeighbourhood (load : Text → Option Entity) (root_id : Text) (max_depth : ℕ)
    (es : List Entity) : Type 0 where
  pub ids : List Text
  pub distinct : AllDistinct ids
  pub entities : es ≡ sort_by (λ (e : Entity). e.id) (load_all load ids)
  pub sorted : IsAscending (λ (e : Entity). e.id) es
  pub exact : (v : Text) → is_in v ids ≡ true ↔ ((n : ℕ) × Walk load root_id n v × (n ≤ max_depth))

module _ (a : Answers) (unmarshal : Text → Option Edge) (prefix : Text) (root_id : Text)
    (max_depth : ℤ) where
  abbrev pub load : Text → Option Entity
  load = get a unmarshal prefix

  abbrev pub depth : ℕ
  depth = positive_or (size a unmarshal prefix) max_depth

  found-IsNeighbourhood :
      (root : Entity) (t : Search)
      → load root_id ≡ some root
      → (fuel : ℕ) → loop load root_id root depth fuel (start load root_id root depth) ≡ some t
      → IsNeighbourhood load root_id depth (sort_by (λ (e : Entity). e.id) t.out)
  found-IsNeighbourhood root t rooted fuel h =
      let ((order, lo, inv), e) =
        loop-IsSearching load root_id root depth rooted fuel (start load root_id root depth) t
          (root_id ∷ [], 0, start-Inv load root_id root depth rooted) h in
      record {
        ids = order;
        distinct = inv.distinct;
        entities = ap (sort_by (λ (x : Entity). x.id)) inv.result;
        sorted = sort_by-IsAscending (λ (x : Entity). x.id) t.out;
        exact = λ v. (
          walked_from order lo t inv v,
          λ (n, w, l).
              let (x, at, le) = complete load root_id root depth rooted order lo t inv e n v w l in
              ground (arith, inv.listed v),
        );
      }
    where
      walked_from :
          (order : List Text) (lo : ℕ) (t : Search)
          → Inv load root_id root depth order lo t
          → (v : Text) → is_in v order ≡ true
          → (n : ℕ) × Walk load root_id n v × (n ≤ depth)
      walked_from order lo t inv v m = elim (Option-cases (lookup v t.visited)) [
        | inl e ↦ absurd (ground (arith, inv.listed v))
        | inr (n, e) ↦ (n, (inv.known v n e).1, (inv.known v n e).2)
      ]

  -- If what can be loaded is among some ids, then with as much fuel as there are ids `Subgraph`
  -- returns. For a root that cannot be loaded it finds nothing; otherwise its result is sorted and
  -- holds, each once, exactly the entities that a walk of at most the maximal depth from the root
  -- leads to, which is the number of ids in the database where no positive depth is asked for.
  pub subgraph_lem :
      (ids : List Text) (fuel : ℕ)
      → HasOnly load ids
      → length ids ≤ fuel
      → ((load root_id ≡ none)
          × (subgraph a unmarshal prefix fuel root_id max_depth ≡ no_such_entity))
        ⊎ ((es : List Entity) × (subgraph a unmarshal prefix fuel root_id max_depth ≡ found es)
            × IsNeighbourhood load root_id depth es)
  unfolding subgraph
  subgraph_lem ids fuel only enough = elim (Option-cases (load root_id)) [
    | inl e ↦ inl (e, ground arith)
    | inr (root, e) ↦
        let begin = start-work load ids only root_id root depth (ground arith) in
        let (t, ends) =
          loop_ends load ids only root_id root depth fuel (start load root_id root depth)
            (omega arith) in
        inr (
          sort_by (λ (x : Entity). x.id) t.out,
          ground arith,
          found-IsNeighbourhood root t e fuel ends,
        )
  ]

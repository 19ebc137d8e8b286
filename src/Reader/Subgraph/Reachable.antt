-- ===== src/Reader/Subgraph/Reachable.antt =====
-- `Subgraph` without a maximal depth reaches whatever can be reached.
use otel_k8s_graph.Base.{
  ℕ, zero, suc, ◌≤◌, ◌<◌, Text, List, [], ◌∷◌, Option, none, some, true, text_DecEq, nat_DecEq,
  lookup, length, is_some, ◌≡◌, ◌↔◌, inl, inr, arith, Option-cases,
}
use otel_k8s_graph.Base.{ℤ, pos, negsuc, refl, subst, ap, sym, ◌∙◌, Bool-cases, if◌then◌else◌}
use otel_k8s_graph.Graph.{Edge, Entity}
use otel_k8s_graph.Redis.{is_in}
use otel_k8s_graph.Reader.{Answers, get, size, positive_or, load_all}
use otel_k8s_graph.Reader.Sort.{sort_by, IsAscending}
use otel_k8s_graph.Reader.Subgraph.{Search, start, found, subgraph}
use otel_k8s_graph.Reader.Subgraph.Walks.{AllDistinct, Walk, here, step, edges_of}
use otel_k8s_graph.Reader.Subgraph.Offer.{is_target}
use otel_k8s_graph.Reader.Subgraph.Invariant.{start-Inv}
use otel_k8s_graph.Reader.Subgraph.Ends.{HasOnly, loop_ends, start-work}
use otel_k8s_graph.Reader.Subgraph.Small.{IsSmall, loop-IsSmall, start-IsSmall}
use otel_k8s_graph.Reader.Subgraph.Correct.{Invariant, loop-IsSearching, subgraph_lem}

module _ (load : Text → Option Entity) (ids : List Text) (only : HasOnly load ids) (root_id : Text)
    (root : Entity) (rooted : load root_id ≡ some root) where
  -- At the end of a search that is not cut short every walk is followed.
  all_walks :
      (max_depth : ℕ) (order : List Text) (lo : ℕ) (s : Search)
      → length ids ≤ max_depth
      → Invariant load root_id root max_depth rooted order lo s
      → IsSmall load ids only s
      → s.queue ≡ []
      → (n : ℕ) (v : Text) → Walk load root_id n v
      → (t : ℕ) × (lookup v s.visited ≡ some t) × (t < length ids)
  all_walks max_depth order lo s wide inv small e n v here =
      (0, inv.source, omega (arith, small.begun, small.fits))
  all_walks max_depth order lo s wide inv small e n v (step {n = m} {u = u} v' w target loads) =
      let (t, at, le) = all_walks max_depth order lo s wide inv small e m u w in
      let (x, to, less) =
        (inv.explored u t at (ground arith) (omega arith)).reached v' target loads in
      (x, to, omega (arith, small.shallow v' x to, small.fits))

  -- A walk need not be longer than there are ids.
  shorter-Walk :
      (n : ℕ) (v : Text)
      → Walk load root_id n v
      → (t : ℕ) × Walk load root_id t v × (t < length ids)
  shorter-Walk n v w =
      let depth = length ids in
      let begin = start load root_id root depth in
      let (s, ends) =
        loop_ends load ids only root_id root depth depth begin
          (start-work load ids only root_id root depth (ground arith)) in
      let ((order, lo, inv), e) =
        loop-IsSearching load root_id root depth rooted depth begin s
          (root_id ∷ [], 0, start-Inv load root_id root depth rooted) ends in
      let small =
        loop-IsSmall load ids only root_id root depth depth begin s
          (start-IsSmall load ids only root_id root depth (ground arith)) ends in
      let (t, at, l) = all_walks depth order lo s (omega arith) inv small e n v w in
      (t, (inv.known v t at).1, l)

-- What walks from a root lead to is among some ids.
abbrev pub HasWalksIn : (Text → Option Entity) → Text → List Text → Type 0
HasWalksIn load root_id ids = (n : ℕ) (v : Text) → Walk load root_id n v → is_in v ids ≡ true

-- The same, where more can be loaded than the ids that the walks stay within.
module _ (load : Text → Option Entity) (ids : List Text) (root_id : Text)
    (within : HasWalksIn load root_id ids) where
  abbrev known_of : Text → Option Entity
  known_of id = if is_in id ids then load id else none

  known_of-HasOnly : HasOnly known_of ids
  known_of-HasOnly id h = elim (Bool-cases (is_in id ids)) [
    | inl e ↦ e
    | inr e ↦ absurd (ground arith)
  ]

  known_of-eq : (u : Text) → is_in u ids ≡ true → known_of u ≡ load u
  known_of-eq u h = rw h refl

  known_of-edges : (u : Text) → is_in u ids ≡ true → edges_of known_of u ≡ edges_of load u
  known_of-edges u h =
      ap (λ (o : Option Entity). elim o [ none ↦ [] | some e ↦ e.edges ]) (known_of-eq u h)

  Walk-known : (n : ℕ) (v : Text) → Walk load root_id n v → Walk known_of root_id n v
  Walk-known n v here = here
  Walk-known n v (step {n = m} {u = u} v' w target loads) =
      let to = within n v (step v' w target loads) in
      step v' (Walk-known m u w)
        (subst (λ es. is_target v' es ≡ true) (sym (known_of-edges u (within m u w))) target)
        (ap is_some (known_of-eq v' to) ∙ loads)

  known-Walk : (n : ℕ) (v : Text) → Walk known_of root_id n v → Walk load root_id n v
  known-Walk n v here = here
  known-Walk n v (step {n = m} {u = u} v' w target loads) =
      let w' = known-Walk m u w in
      let to = known_of-HasOnly v' loads in
      step v' w' (subst (λ es. is_target v' es ≡ true) (known_of-edges u (within m u w')) target)
        (sym (ap is_some (known_of-eq v' to)) ∙ loads)

  shorter-Walk-within :
      (root : Entity) (n : ℕ) (v : Text)
      → load root_id ≡ some root
      → Walk load root_id n v
      → (t : ℕ) × Walk load root_id t v × (t < length ids)
  shorter-Walk-within root n v rooted w =
      let from = within 0 root_id here in
      let root_known : known_of root_id ≡ some root = rw from rooted in
      let (t, w', l) =
        shorter-Walk known_of ids known_of-HasOnly root_id root root_known n v (Walk-known n v w) in
      (t, known-Walk t v w', l)

-- A list of entities is what walks from the root lead to: its ids, each once, are those of the
-- walks, and the entities are sorted by their ids.
pub record IsReachable (load : Text → Option Entity) (root_id : Text) (es : List Entity)
    : Type 0 where
  pub ids : List Text
  pub distinct : AllDistinct ids
  pub entities : es ≡ sort_by (λ (e : Entity). e.id) (load_all load ids)
  pub sorted : IsAscending (λ (e : Entity). e.id) es
  pub exact : (v : Text) → is_in v ids ≡ true ↔ ((n : ℕ) × Walk load root_id n v)

module _ (a : Answers) (unmarshal : Text → Option Edge) (prefix : Text) where
  abbrev load : Text → Option Entity
  load = get a unmarshal prefix

  -- `Subgraph` from a root that can be loaded, where no positive depth is asked for, returns exactly
  -- the entities that some walk from the root leads to, however long. The conditions are that what can
  -- be loaded at all is among finitely many ids, no more than the fuel, and that the ids that walks
  -- from the root lead to are among some that are no more than the members of the set of all ids.
  pub subgraph-IsReachable :
      (all ids : List Text) (fuel : ℕ) (root_id : Text) (max_depth : ℤ)
      → HasOnly load all
      → length all ≤ fuel
      → HasWalksIn load root_id ids
      → length ids ≤ size a unmarshal prefix
      → positive_or 0 max_depth ≡ 0
      → is_some (load root_id) ≡ true
      → (es : List Entity) × (subgraph a unmarshal prefix fuel root_id max_depth ≡ found es)
        × IsReachable load root_id es
  subgraph-IsReachable all ids fuel root_id max_depth only enough within wide unbounded known =
      elim (subgraph_lem a unmarshal prefix root_id max_depth all fuel only enough) [
        | inl (lacks, e) ↦ absurd (ground arith)
        | inr (es, e, near) ↦ elim (Option-cases (load root_id)) [
          | inl lacks ↦ absurd (ground arith)
          | inr (root, rooted) ↦ (
            es,
            e,
            record {
              ids = near.ids;
              distinct = near.distinct;
              entities = near.entities;
              sorted = near.sorted;
              exact = λ v. (
                λ i. let (n, w, l) = (near.exact v).0 i in (n, w),
                λ (n, w).
                    let (t, w', l) =
                      shorter-Walk-within load ids root_id within root n v rooted w in
                    let same = positive_or_zero (size a unmarshal prefix) max_depth unbounded in
                    (near.exact v).1 (t, w', omega (arith, same)),
              );
            },
          )
        ]
      ]
    where
      positive_or_zero : (d : ℕ) (z : ℤ) → positive_or 0 z ≡ 0 → positive_or d z ≡ d
      positive_or_zero d (pos zero) h = refl
      positive_or_zero d (pos (suc n)) h = absurd (omega arith)
      positive_or_zero d (negsuc n) h = refl

-- ===== src/Reader/Subgraph/Invariant.antt =====
-- The invariant of the search, which each round keeps.
use otel_k8s_graph.Base.{
  ℕ, suc, ◌+◌, ◌≤◌, ◌<◌, Text, List, [], ◌∷◌, ◌++◌, Map, Option, none, some, true, false,
  text_DecEq, nat_DecEq, if◌then◌else◌, ◌==◌, is_some, ◌or_else◌, lookup, ◌≡◌, refl, subst, inl,
  inr, arith, Bool-cases, Option-cases, ==_refl, ==→≡,
}
use otel_k8s_graph.Graph.{Edge, Entity}
use otel_k8s_graph.Redis.{is_in}
use otel_k8s_graph.Reader.{load_all}
use otel_k8s_graph.Reader.Subgraph.{Search, edges_at, offer_all, start}
use otel_k8s_graph.Reader.Subgraph.Offer.{
  is_target, is_in-append, fresh, is_in-fresh, offer_all-visited, offer_all-frontier,
  offer_all-lists,
}
use otel_k8s_graph.Reader.Subgraph.Walks.{
  AllDistinct, edges_of, Walk, here, step, fresh-AllDistinct, append-AllDistinct, Ascends, IsBelow,
  append-Ascends, wider-Ascends, all-AllAt,
}

pub load_all-append :
    (load : Text → Option Entity) (xs ys : List Text)
    → load_all load (xs ++ ys) ≡ load_all load xs ++ load_all load ys
load_all-append load [] ys = refl
load_all-append load (x ∷ xs) ys = ground (arith, load_all-append load xs ys)

module _ (load : Text → Option Entity) (root_id : Text) (root : Entity) (max_depth : ℕ) where
  -- Where the entity's edges lead is visited, at most one deeper.
  pub record IsExplored (visited : Map Text ℕ) (id : Text) (depth : ℕ) : Type 0 where
    pub reached :
        (w : Text)
        → is_target w (edges_of load id) ≡ true
        → is_some (load w) ≡ true
        → (t : ℕ) × (lookup w visited ≡ some t) × (t ≤ suc depth)

  -- The visited ids in their order, and the depth of the queue's head.
  pub record Inv (order : List Text) (lo : ℕ) (s : Search) : Type 0 where
    pub listed : (id : Text) → is_in id order ≡ is_some (lookup id s.visited)
    pub result : s.out ≡ load_all load order
    pub distinct : AllDistinct order
    pub source : lookup root_id s.visited ≡ some 0
    pub known :
        (id : Text) (depth : ℕ)
        → lookup id s.visited ≡ some depth
        → (lookup id s.frontier ≡ load id) × Walk load root_id depth id × (depth ≤ max_depth)
    pub below : IsBelow s.visited (suc lo)
    pub queued : Ascends s.visited lo s.queue
    pub explored :
        (id : Text) (depth : ℕ)
        → lookup id s.visited ≡ some depth
        → is_in id s.queue ≡ false
        → depth < max_depth
        → IsExplored s.visited id depth

  module _ (rooted : load root_id ≡ some root) where
    pub start-Inv : Inv (root_id ∷ []) 0 (start load root_id root max_depth)
    unfolding lookup
    start-Inv = record {
      listed = λ id. ground arith;
      result = ground (arith, rooted);
      distinct = (refl, tt);
      source = ground (arith, ==_refl root_id);
      known = λ id depth h. ground (arith, rooted, at id depth h);
      below = λ id depth h. ground arith;
      queued = (0, ground (arith, ==_refl root_id), omega arith, tt);
      explored = λ id depth h q l. ground arith;
    }
      where
        at :
            (id : Text) (depth : ℕ)
            → (if root_id == id then some 0 else none) ≡ some depth
            → Walk load root_id depth id
        at id depth h =
            let e : root_id ≡ id = ground arith in
            let d : 0 ≡ depth = ground arith in
            subst (Walk load root_id depth) e (subst (λ n. Walk load root_id n root_id) d here)

    -- The edges that a round reads are those of the loaded entity.
    pub round_edges :
        (order : List Text) (lo depth : ℕ) (s : Search) (id : Text)
        → Inv order lo s
        → lookup id s.visited ≡ some depth
        → (if id == root_id then root.edges else edges_at s.frontier id) ≡ edges_of load id
    round_edges order lo depth s id h e = let k = (h.known id depth e).0 in ground (arith, rooted)

    module _ (order : List Text) (lo depth : ℕ) (s : Search) (id : Text) (rest : List Text)
        (inv : Inv order lo s) (head : s.queue ≡ id ∷ rest) (at : lookup id s.visited ≡ some depth)
        (le : lo ≤ depth) (waiting : Ascends s.visited depth rest) where
      abbrev pub popped : Search
      popped = record s { queue = rest }

      -- An entity at the maximal depth is not explored.
      pub skip-Inv : max_depth ≤ depth → Inv order depth popped
      skip-Inv full = record {
        listed = inv.listed;
        result = inv.result;
        distinct = inv.distinct;
        source = inv.source;
        known = inv.known;
        below = λ j t h. omega (arith, inv.below j t h);
        queued = waiting;
        explored = λ j t h q l.
            let other : is_in j s.queue ≡ false = ground (arith, at) in inv.explored j t h other l;
      }

      abbrev pub es : List Edge
      es = edges_of load id

      abbrev pub new : List Text
      new = fresh load es s.visited

      abbrev pub after : Search
      after = offer_all load depth es popped

      visited_after :
          (j : Text)
          → lookup j after.visited
            ≡ (lookup j s.visited or_else (if is_in j new then some (depth + 1) else none))
      visited_after j =
          rw (is_in-fresh load es s.visited j) (offer_all-visited load depth es popped j)

      kept : (j : Text) (t : ℕ) → lookup j s.visited ≡ some t → lookup j after.visited ≡ some t
      kept j t h = ground (arith, visited_after j)

      new_at : (j : Text) → is_in j new ≡ true → lookup j after.visited ≡ some (suc depth)
      new_at j h = ground (arith, visited_after j, is_in-fresh load es s.visited j)

      IsBelow-after : IsBelow after.visited (suc depth)
      IsBelow-after j t h = elim (Option-cases (lookup j s.visited)) [
        | inl e ↦ ground (arith, visited_after j)
        | inr (u, e) ↦ ground (arith, visited_after j, inv.below j u e)
      ]

      known_after :
          (j : Text) (t : ℕ)
          → depth < max_depth
          → lookup j after.visited ≡ some t
          → (lookup j after.frontier ≡ load j) × Walk load root_id t j × (t ≤ max_depth)
      known_after j t less h = elim (Option-cases (lookup j s.visited)) [
        | inr (u, e) ↦
            let k = inv.known j u e in
            let same : u ≡ t = ground (arith, visited_after j) in
            (
              ground (arith, offer_all-frontier load depth es popped j),
              subst (λ n. Walk load root_id n j) same k.1,
              omega arith,
            )
        | inl e ↦
            let fact : is_in j new ≡ true = ground (arith, visited_after j) in
            let same : suc depth ≡ t = ground (arith, visited_after j) in
            let parts = is_in-fresh load es s.visited j in
            let walked : Walk load root_id (suc depth) j =
              step j (inv.known id depth at).1 (ground arith) (ground arith) in
            (
              ground (arith, offer_all-frontier load depth es popped j),
              subst (λ n. Walk load root_id n j) same walked,
              omega arith,
            )
      ]

      IsExplored-after :
          (j : Text) (t : ℕ)
          → lookup j after.visited ≡ some t
          → is_in j after.queue ≡ false
          → t < max_depth
          → IsExplored after.visited j t
      IsExplored-after j t h q less = elim (Bool-cases (j == id)) [
        | inl same ↦
            let e : j ≡ id = ==→≡ j id same in
            let d : t ≡ depth = ground (arith, kept id depth at) in
            record { reached = λ w target loads. from_head w (ground arith) loads d }
        | inr other ↦
            let not_new : is_in j new ≡ false =
              ground (arith, offer_all-lists load depth es popped, is_in-append j rest new) in
            let not_rest : is_in j rest ≡ false =
              ground (arith, offer_all-lists load depth es popped, is_in-append j rest new) in
            let old : lookup j s.visited ≡ some t = ground (arith, visited_after j) in
            let was = inv.explored j t old (ground arith) less in
            record {
              reached = λ w target loads.
                  let (u, e, l) = was.reached w target loads in (u, kept w u e, l);
            }
      ]
        where
          from_head :
              (w : Text)
              → is_target w es ≡ true
              → is_some (load w) ≡ true
              → t ≡ depth
              → (u : ℕ) × (lookup w after.visited ≡ some u) × (u ≤ suc t)
          from_head w target loads d = elim (Option-cases (lookup w s.visited)) [
            | inr (u, e) ↦ (u, kept w u e, omega (arith, inv.below w u e))
            | inl e ↦
                (suc depth, new_at w (ground (arith, is_in-fresh load es s.visited w)), omega arith)
          ]

      -- An entity above it is.
      pub explore-Inv : depth < max_depth → Inv (order ++ new) depth after
      explore-Inv less = record {
        listed = λ j. ground (arith, is_in-append j order new, visited_after j, inv.listed j);
        result = ground (
          arith,
          offer_all-lists load depth es popped,
          load_all-append load order new,
          inv.result,
        );
        distinct =
            append-AllDistinct order new inv.distinct (fresh-AllDistinct load es s.visited)
              (λ j h. ground (arith, inv.listed j, is_in-fresh load es s.visited j));
        source = kept root_id 0 inv.source;
        known = λ j t h. known_after j t less h;
        below = IsBelow-after;
        queued = rw (offer_all-lists load depth es popped).0 (
            append-Ascends after.visited depth (suc depth) rest new (omega arith) IsBelow-after
              (wider-Ascends s.visited after.visited depth rest kept waiting)
              (all-AllAt after.visited (suc depth) new new_at));
        explored = IsExplored-after;
      }

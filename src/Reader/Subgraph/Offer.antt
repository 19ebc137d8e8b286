-- ===== src/Reader/Subgraph/Offer.antt =====
-- What one round of the search does to its variables, in closed form.
use otel_k8s_graph.Base.{
  ℕ, ◌+◌, Text, List, [], ◌∷◌, ◌++◌, append-nil, append_assoc, Map, Option, none, some, Bool, false,
  not, ◌&&◌, ◌||◌, text_DecEq, nat_DecEq, if◌then◌else◌, ◌==◌, is_some, ◌or_else◌, lookup, insert,
  ◌≡◌, refl, sym, inl, inr, arith, Option-cases, lookup-insert,
}
use otel_k8s_graph.Graph.{Edge, Entity}
use otel_k8s_graph.Redis.{is_in}
use otel_k8s_graph.Reader.{load_all}
use otel_k8s_graph.Reader.Subgraph.{Search, offer, offer_all}

-- Does some edge lead there?
abbrev pub is_target : Text → List Edge → Bool
is_target id [] = false
is_target id (e ∷ es) = e.to_resource == id || is_target id es

pub is_in-append : (k : Text) (xs ys : List Text) → is_in k (xs ++ ys) ≡ (is_in k xs || is_in k ys)
is_in-append k [] ys = refl
is_in-append k (x ∷ xs) ys = ground (arith, is_in-append k xs ys)

module _ (load : Text → Option Entity) where
  -- The ids that the edges add, in order.
  unfoldable pub fresh : List Edge → Map Text ℕ → List Text
  fresh [] visited = []
  fresh (e ∷ es) visited =
      let id = e.to_resource in
      let more = id ∷ fresh es (insert id 0 visited) in
      let same = fresh es visited in
      if is_some (lookup id visited) then same else if is_some (load id) then more else same

  -- A loaded target that was not visited.
  abbrev pub is_new : Text → List Edge → Map Text ℕ → Bool
  is_new id es visited = is_target id es && is_some (load id) && not (is_some (lookup id visited))

  pub is_in-fresh :
      (es : List Edge) (visited : Map Text ℕ) (id : Text)
      → is_in id (fresh es visited) ≡ is_new id es visited
  unfolding fresh
  is_in-fresh [] visited id = refl
  is_in-fresh (e ∷ es) visited id = ground (
    arith,
    is_in-fresh es visited id,
    is_in-fresh es (insert e.to_resource 0 visited) id,
    lookup-insert e.to_resource id 0 visited,
  )

  fresh-agree :
      (es : List Edge) (v w : Map Text ℕ)
      → ((id : Text) → is_some (lookup id v) ≡ is_some (lookup id w))
      → fresh es v ≡ fresh es w
  unfolding fresh
  fresh-agree [] v w h = refl
  fresh-agree (e ∷ es) v w h =
      let to = e.to_resource in
      let same = fresh-agree es v w h in
      let more =
        fresh-agree es (insert to 0 v) (insert to 0 w)
          (λ id. ground (arith, h id, lookup-insert to id 0 v, lookup-insert to id 0 w)) in
      ground (arith, h to, same, more)

  -- The depth that is stored does not matter.
  fresh-insert :
      (es : List Edge) (id : Text) (depth : ℕ) (visited : Map Text ℕ)
      → fresh es (insert id depth visited) ≡ fresh es (insert id 0 visited)
  fresh-insert es id depth visited =
      fresh-agree es _ _
        (λ j. ground (arith, lookup-insert id j depth visited, lookup-insert id j 0 visited))

  pub offer_all-visited :
      (depth : ℕ) (es : List Edge) (s : Search) (id : Text)
      → lookup id (offer_all load depth es s).visited
        ≡ (lookup id s.visited or_else (if is_new id es s.visited then some (depth + 1) else none))
  unfolding offer_all offer
  offer_all-visited depth [] s id = ground arith
  offer_all-visited depth (e ∷ es) s id = ground (
    arith,
    offer_all-visited depth es (offer load depth e s) id,
    lookup-insert e.to_resource id (depth + 1) s.visited,
  )

  pub offer_all-frontier :
      (depth : ℕ) (es : List Edge) (s : Search) (id : Text)
      → lookup id (offer_all load depth es s).frontier
        ≡ (if is_new id es s.visited then load id else lookup id s.frontier)
  unfolding offer_all offer
  offer_all-frontier depth [] s id = refl
  offer_all-frontier depth (e ∷ es) s id = elim (Option-cases (load e.to_resource)) [
    | inl h ↦ ground (arith, offer_all-frontier depth es s id)
    | inr (child, h) ↦ ground (
      arith,
      offer_all-frontier depth es (offer load depth e s) id,
      lookup-insert e.to_resource id (depth + 1) s.visited,
      lookup-insert e.to_resource id child s.frontier,
    )
  ]

  -- The same ids are added to the queue and, loaded, to the result.
  pub offer_all-lists :
      (depth : ℕ) (es : List Edge) (s : Search)
      → ((offer_all load depth es s).queue ≡ s.queue ++ fresh es s.visited)
        × ((offer_all load depth es s).out ≡ s.out ++ load_all load (fresh es s.visited))
  unfolding offer_all offer fresh
  offer_all-lists depth [] s = (sym (append-nil s.queue), sym (append-nil s.out))
  offer_all-lists depth (e ∷ es) s =
      let to = e.to_resource in
      elim (Option-cases (load to)) [
        | inl h ↦ ground (arith, offer_all-lists depth es s)
        | inr (child, h) ↦
            let s' : Search = record {
              visited = insert to (depth + 1) s.visited;
              queue = s.queue ++ to ∷ [];
              out = s.out ++ child ∷ [];
              frontier = insert to child s.frontier;
            } in
            ground (
              arith,
              offer_all-lists depth es s,
              offer_all-lists depth es s',
              fresh-insert es to (depth + 1) s.visited,
              append_assoc s.queue (to ∷ []) (fresh es (insert to 0 s.visited)),
              append_assoc s.out (child ∷ []) (load_all load (fresh es (insert to 0 s.visited))),
            )
      ]

-- ===== src/Api/Safe.antt =====
-- What the handlers of the API ask of the graph, whatever the request is.
use otel_k8s_graph.Base.{
  ℕ, zero, suc, ◌≤◌, ◌<◌, Text, List, [], ◌++◌, Option, none, some, false, codes, text_DecEq,
  nat_DecEq, ◌==◌, ltb, length, ◌≡◌, refl, ◌≢◌, ◌⊎◌, inl, inr, arith, Bool-cases, Option-cases,
  ==→≢,
}
use otel_k8s_graph.Base.{ℤ, pos, negsuc}
use otel_k8s_graph.Graph.{Entity, Graph}
use otel_k8s_graph.Api.{
  Query, Body, matches_of, reach_of, Response, failed, Request, get_search, get_entities,
  get_entity, get_subgraph, post_prune, get_healthz, int_param, write_json, search_handler,
  subgraph_handler, Deps, clock_or, serve,
}

-- An int parameter that may be left out: refused, or a natural number up to the maximum.
abbrev IsWithin : (Response ⊎ ℤ) → Text → ℕ → Type 0
IsWithin result key hi =
    (result ≡ inl (failed 400 (key ++ codes " must be an integer in valid range")))
    ⊎ ((n : ℕ) × (result ≡ inr (pos n)) × (n ≤ hi))

int_param-IsWithin :
    (atoi : Text → Option ℤ) (query : Query) (key : Text) (default hi : ℕ)
    → default ≤ hi
    → 0 < hi
    → IsWithin (int_param atoi query key (pos default) (pos 0) (pos hi)) key hi
unfolding int_param
int_param-IsWithin atoi query key default hi low some_max = elim (Bool-cases (query key == [])) [
  | inl e ↦ inr (default, ground arith, low)
  | inr e ↦ elim (Option-cases (atoi (query key))) [
    | inl f ↦ inl (ground arith)
    | inr (z, f) ↦ go z f e
  ]
]
  where
    go :
        (z : ℤ)
        → atoi (query key) ≡ some z
        → (query key == []) ≡ false
        → IsWithin (int_param atoi query key (pos default) (pos 0) (pos hi)) key hi
    go (pos n) f e = elim (Bool-cases (ltb hi n)) [
      | inl over ↦ inl (rw e (rw f (ground arith)))
      | inr fits ↦ inr (n, rw e (rw f (ground arith)), ground arith)
    ]
    go (negsuc n) f e = inl (rw e (rw f refl))

module _ {G T : Type 0} (g : Graph G T) (marshal : Body T → Text ⊎ Text)
    (atoi : Text → Option ℤ) where
  -- A search asks the graph for a non-empty text and a limit from 0 to 500 and sends the hits and their
  -- number, or is refused with status 400.
  pub search_handler_lem :
      (query : Query) (graph : G)
      → ((message : Text) × (search_handler g marshal atoi query graph ≡ failed 400 message))
        ⊎ ((limit : ℕ) × (limit ≤ 500)
            × (query (codes "q") ≢ [])
            × (search_handler g marshal atoi query graph
                ≡ write_json g marshal 200 (
                    matches_of
                      (query (codes "q"))
                      (query (codes "kind"))
                      (length
                        (g.search (query (codes "q")) (query (codes "kind")) (pos limit) graph))
                      (g.search (query (codes "q")) (query (codes "kind")) (pos limit) graph))))
  unfolding search_handler
  search_handler_lem query graph = elim (Bool-cases (query (codes "q") == [])) [
    | inl e ↦ inl (codes "q query param required", ground arith)
    | inr e ↦
        elim (int_param-IsWithin atoi query (codes "limit") 50 500 (omega arith) (omega arith)) [
          | inl bad ↦ inl (codes "limit must be an integer in valid range", ground arith)
          | inr (n, at, fits) ↦ inr (n, fits, ==→≢ (query (codes "q")) [] e, ground arith)
        ]
  ]

  -- A request for a subgraph asks the graph for a depth from 0 to 100. It is answered with status 404
  -- if the graph does not find the root, and with status 400 if the depth is refused.
  pub subgraph_handler_lem :
      (id : Text) (query : Query) (graph : G)
      → ((message : Text) × (subgraph_handler g marshal atoi id query graph ≡ failed 400 message))
        ⊎ ((depth : ℕ) × (depth ≤ 100)
            × (((g.subgraph id (pos depth) graph ≡ none)
                  × (subgraph_handler g marshal atoi id query graph
                      ≡ failed 404 (codes "no such entity")))
                ⊎ ((es : List Entity) × (g.subgraph id (pos depth) graph ≡ some es)
                    × (subgraph_handler g marshal atoi id query graph
                        ≡ write_json g marshal 200 (reach_of id es)))))
  unfolding subgraph_handler
  subgraph_handler_lem id query graph =
      elim (int_param-IsWithin atoi query (codes "max_depth") 0 100 (omega arith) (omega arith)) [
        | inl bad ↦ inl (codes "max_depth must be an integer in valid range", ground arith)
        | inr (n, at, fits) ↦ inr (
          n,
          fits,
          elim (Option-cases (g.subgraph id (pos n) graph)) [
            | inl e ↦ inl (e, ground arith)
            | inr (es, e) ↦ inr (es, e, ground arith)
          ],
        )
      ]

module _ {G T : Type 0} (d : Deps G T) (marshal : Body T → Text ⊎ Text) (atoi : Text → Option ℤ)
    (parse_duration : Text → Option ℤ) (add : T → ℤ → T) (time_now : T) where
  -- Only a prune with a positive duration changes the graph, and it does so by Prune with the cutoff
  -- that is this long before the time of the clock.
  pub serve-reads :
      (r : Request) (graph : G)
      → ((serve d marshal atoi parse_duration add time_now r graph).0 ≡ graph)
        ⊎ ((query : Query) × (n : ℕ) × (r ≡ post_prune query)
            × (parse_duration (query (codes "older_than")) ≡ some (pos (suc n)))
            × ((serve d marshal atoi parse_duration add time_now r graph).0
                ≡ (d.graph.prune (add (clock_or time_now d.clock) (negsuc n)) graph).0))
  unfolding serve
  serve-reads (get_search query) graph = inl refl
  serve-reads (get_entities query) graph = inl refl
  serve-reads (get_entity id) graph = inl refl
  serve-reads (get_subgraph id query) graph = inl refl
  serve-reads get_healthz graph = inl refl
  serve-reads (post_prune query) graph = elim (Bool-cases (query (codes "older_than") == [])) [
    | inl e ↦ inl (ground arith)
    | inr e ↦ elim (Option-cases (parse_duration (query (codes "older_than")))) [
      | inl f ↦ inl (ground arith)
      | inr (dur, f) ↦ go dur e f
    ]
  ]
    where
      go :
          (dur : ℤ)
          → (query (codes "older_than") == []) ≡ false
          → parse_duration (query (codes "older_than")) ≡ some dur
          → ((serve d marshal atoi parse_duration add time_now (post_prune query) graph).0 ≡ graph)
            ⊎ ((q : Query) × (n : ℕ) × (post_prune query ≡ post_prune q)
                × (parse_duration (q (codes "older_than")) ≡ some (pos (suc n)))
                × ((serve d marshal atoi parse_duration add time_now (post_prune query) graph).0
                    ≡ (d.graph.prune (add (clock_or time_now d.clock) (negsuc n)) graph).0))
      go (pos zero) e f = inl (ground arith)
      go (pos (suc n)) e f = inr (query, n, refl, f, ground arith)
      go (negsuc n) e f = inl (ground arith)

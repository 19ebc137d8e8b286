-- ===== src/Mcp/Asked.antt =====
-- What the API answers to the tools' requests.
use otel_k8s_graph.Base.{
  ℕ, zero, suc, ◌≤◌, ◌<◌, Text, List, [], ◌∷◌, ◌++◌, Option, none, some, Bool, true, false, codes,
  Text-discrete, text_DecEq, nat_DecEq, if◌then◌else◌, ◌==◌, ltb, lookup, insert, length,
  map_option, ◌≡◌, refl, sym, ap, subst, ◌⊎◌, inl, inr, arith, Option-cases,
}
use otel_k8s_graph.Base.{ℤ, pos, negsuc, itoa}
use otel_k8s_graph.Graph.{Entity, Graph}
use otel_k8s_graph.Reader.{positive_or}
use otel_k8s_graph.Reader.Int64.{itoa_cons}
use otel_k8s_graph.Api.{
  Query, Body, matches_of, reach_of, Response, failed, int_ltb, int_param, write_json,
  search_handler, subgraph_handler, Deps, serve,
}
use otel_k8s_graph.Mcp.{
  value_of, set_positive, search_query, search_tool, get_subgraph_tool, depth_or_two, SearchInput,
  Route, IsRouted, is_plain, GetSubgraphInput,
}

abbrev text_of : ℤ → Text
text_of (pos (suc n)) = itoa (pos (suc n))
text_of (pos zero) = []
text_of (negsuc n) = []

-- What the server reads of a search's query.
search_query-value_of :
    (query kind : Text) (limit : ℤ)
    → (value_of (search_query query kind limit) (codes "q") ≡ query)
      × (value_of (search_query query kind limit) (codes "kind") ≡ kind)
      × (value_of (search_query query kind limit) (codes "limit") ≡ text_of limit)
unfolding search_query lookup insert Text-discrete
search_query-value_of query [] (pos zero) = (refl, refl, refl)
search_query-value_of query [] (pos (suc n)) = (refl, refl, refl)
search_query-value_of query [] (negsuc n) = (refl, refl, refl)
search_query-value_of query (c ∷ kind) (pos zero) = (refl, refl, refl)
search_query-value_of query (c ∷ kind) (pos (suc n)) = (refl, refl, refl)
search_query-value_of query (c ∷ kind) (negsuc n) = (refl, refl, refl)

subgraph_query-value_of :
    (depth : ℤ)
    → value_of (set_positive (codes "max_depth") depth []) (codes "max_depth") ≡ text_of depth
unfolding lookup insert Text-discrete
subgraph_query-value_of (pos zero) = refl
subgraph_query-value_of (pos (suc n)) = refl
subgraph_query-value_of (negsuc n) = refl

-- Atoi reads what Itoa writes of an int.
abbrev pub Reads : (Text → Option ℤ) → Type 0
Reads atoi = (n : ℕ) → n < 9_223_372_036_854_775_808 → atoi (itoa (pos n)) ≡ some (pos n)

module _ (atoi : Text → Option ℤ) (reads : Reads atoi) where
  -- An int that is sent only if it is positive is the default otherwise.
  int_param_sent :
      (query : Query) (key : Text) (default hi : ℕ) (z : ℤ)
      → query key ≡ text_of z
      → 0 < hi
      → int_ltb z (pos 9_223_372_036_854_775_808) ≡ true
      → int_param atoi query key (pos default) (pos 0) (pos hi) ≡ (
          if int_ltb (pos hi) z
          then inl (failed 400 (key ++ codes " must be an integer in valid range"))
          else inr (pos (positive_or default z)))
  unfolding int_param
  int_param_sent query key default hi (pos zero) e some_max l = ground arith
  int_param_sent query key default hi (pos (suc n)) e some_max l =
      ground (arith, itoa_cons (suc n), reads (suc n))
  int_param_sent query key default hi (negsuc n) e some_max l = ground arith

  module _ {G T : Type 0} (g : Graph G T) (marshal : Body T → Text ⊎ Text) where
    search_handler-sent :
        (query : Query) (graph : G) (q kind : Text) (refused : Bool) (bad : Response) (n : ℤ)
        → query (codes "q") ≡ q
        → query (codes "kind") ≡ kind
        → int_param atoi query (codes "limit") (pos 50) (pos 0) (pos 500)
          ≡ (if refused then inl bad else inr n)
        → search_handler g marshal atoi query graph ≡ (
            if q == []
            then failed 400 (codes "q query param required")
            else if refused
            then bad
            else write_json g marshal 200
                (matches_of q kind (length (g.search q kind n graph)) (g.search q kind n graph)))
    unfolding search_handler
    search_handler-sent query graph q kind true bad n e f h = ground arith
    search_handler-sent query graph q kind false bad n e f h = ground arith

    subgraph_handler-sent :
        (id : Text) (query : Query) (graph : G) (refused : Bool) (bad : Response) (n : ℤ)
        → int_param atoi query (codes "max_depth") (pos 0) (pos 0) (pos 100)
          ≡ (if refused then inl bad else inr n)
        → subgraph_handler g marshal atoi id query graph ≡ (
            if refused then bad else elim (g.subgraph id n graph) [
              | none ↦ failed 404 (codes "no such entity")
              | some es ↦ write_json g marshal 200 (reach_of id es)
            ])
    unfolding subgraph_handler
    subgraph_handler-sent id query graph true bad n h = ground arith
    subgraph_handler-sent id query graph false bad n h =
        elim (Option-cases (g.subgraph id n graph)) [
          | inl e ↦ ground arith
          | inr (es, e) ↦ ground arith
        ]

  module _ {G T : Type 0} (d : Deps G T) (marshal : Body T → Text ⊎ Text)
      (parse_duration : Text → Option ℤ) (add : T → ℤ → T) (time_now : T) where
    -- The answer to a search for a text among a kind, or among all with no kind.
    abbrev pub search_answer : SearchInput → G → Response
    search_answer input graph =
        let hits = d.graph.search input.query input.kind (pos (positive_or 50 input.limit)) graph in
        if input.query == []
        then failed 400 (codes "q query param required")
        else if int_ltb (pos 500) input.limit
        then failed 400 (codes "limit must be an integer in valid range")
        else write_json d.graph marshal 200 (matches_of input.query input.kind (length hits) hits)

    -- If Atoi reads what Itoa writes, then the tool's search, with a limit that is an int, is answered
    -- by the hits for its text and kind: at most as many as its limit, if that is positive and not over
    -- 500, or 50 without a positive one. A limit over 500, or no text, is refused.
    pub search_tool-serve :
        (input : SearchInput) (graph : G)
        → int_ltb input.limit (pos 9_223_372_036_854_775_808) ≡ true
        → serve d marshal atoi parse_duration add time_now (search_tool input) graph
          ≡ (graph, search_answer input graph)
    unfolding serve search_tool search_handler
    search_tool-serve input graph l =
        let (q, kind, limit) = search_query-value_of input.query input.kind input.limit in
        let sent_limit =
          int_param_sent (value_of (search_query input.query input.kind input.limit))
            (codes "limit") 50 500 input.limit limit (omega arith) l in
        ap (λ r. (graph, r))
          (search_handler-sent d.graph marshal
            (value_of (search_query input.query input.kind input.limit)) graph input.query
            input.kind (int_ltb (pos 500) input.limit)
            (failed 400 (codes "limit must be an integer in valid range"))
            (pos (positive_or 50 input.limit)) q kind sent_limit)

    abbrev pub subgraph_answer : Text → ℤ → G → Response
    subgraph_answer id depth graph =
        let found = d.graph.subgraph id (pos (positive_or 0 depth)) graph in
        if int_ltb (pos 100) depth
        then failed 400 (codes "max_depth must be an integer in valid range")
        else elim found [
          | none ↦ failed 404 (codes "no such entity")
          | some es ↦ write_json d.graph marshal 200 (reach_of id es)
        ]

    -- If Atoi reads what Itoa writes, and the API reads a plain id behind a handler's prefix as it
    -- stands, then the tool for subgraphs, with a plain id (at most 8000 characters of printable
    -- ASCII without `?`, `#` and `%`, no segment of which is empty, `.` or `..`) and a depth that is
    -- an int, is answered by the graph's subgraph of its root: to its depth, if that is positive and
    -- not over 100, to depth 2 if it is zero, and without a bound if it is negative. A depth over
    -- 100 is refused.
    pub get_subgraph_tool-serve :
        (route : Route) (input : GetSubgraphInput) (graph : G)
        → IsRouted route
        → is_plain input.id ≡ true
        → int_ltb (depth_or_two input.max_depth) (pos 9_223_372_036_854_775_808) ≡ true
        → map_option
            (λ request. serve d marshal atoi parse_duration add time_now request graph)
            (get_subgraph_tool route input)
          ≡ some (graph, subgraph_answer input.id (depth_or_two input.max_depth) graph)
    unfolding serve get_subgraph_tool subgraph_handler
    get_subgraph_tool-serve route input graph routed plain l =
        let depth = depth_or_two input.max_depth in
        let sent_depth =
          int_param_sent (value_of (set_positive (codes "max_depth") depth [])) (codes "max_depth")
            0 100 depth (subgraph_query-value_of depth) (omega arith) l in
        rw (routed.subgraph input.id (set_positive (codes "max_depth") depth []) plain) (
          ap (λ r. some (graph, r))
            (subgraph_handler-sent d.graph marshal input.id
              (value_of (set_positive (codes "max_depth") depth [])) graph (int_ltb (pos 100) depth)
              (failed 400 (codes "max_depth must be an integer in valid range"))
              (pos (positive_or 0 depth)) sent_depth))

    abbrev pub answer_of : Text → Option (List Entity) → Response
    answer_of id none = failed 404 (codes "no such entity")
    answer_of id (some es) = write_json d.graph marshal 200 (reach_of id es)

    -- A depth in the range is used.
    pub subgraph_answer_lem :
        (id : Text) (n : ℕ) (graph : G) (o : Option (List Entity)) (z : ℤ)
        → z ≡ pos (suc n)
        → suc n ≤ 100
        → d.graph.subgraph id (pos (suc n)) graph ≡ o
        → subgraph_answer id z graph ≡ answer_of id o
    subgraph_answer_lem id n graph o z at fits e =
        let room : ltb 100 (suc n) ≡ false = ground arith in
        subst (λ z'. subgraph_answer id z' graph ≡ answer_of id o) (sym at)
          (rw room (ap (answer_of id) e))

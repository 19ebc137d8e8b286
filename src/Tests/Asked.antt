-- ===== src/Tests/Asked.antt =====
-- Requests of the tools, answered from the small database of Tests/Reader.
use native.Mathlib.Decide.{ℕ_discrete}
use otel_k8s_graph.Graph.Keys.{key_ids}
use otel_k8s_graph.Base.{
  ℕ, suc, ◌+◌, ◌≤◌, Text, List, [], ◌∷◌, Option, none, some, false, codes, Text-discrete,
  text_DecEq, nat_DecEq, if◌then◌else◌, ◌==◌, length, map_option, lookup, ◌≡◌, refl, ◌≢◌, ◌⊎◌, inr,
  arith,
}
use otel_k8s_graph.Base.{ℤ, pos, negsuc}
use otel_k8s_graph.Graph.{Entity, SearchHit}
use otel_k8s_graph.Reader.{get, search_key}
use otel_k8s_graph.Reader.Int64.{parse_int64, parse_int64-itoa}
use otel_k8s_graph.Reader.Search.{IsSearchResult}
use otel_k8s_graph.Reader.Subgraph.Correct.{IsNeighbourhood}
use otel_k8s_graph.Api.{
  Query, Body, matches_of, reach_of, failed, post_prune, get_entity, get_subgraph, write_json,
  search_handler, subgraph_handler, Deps, clock_or, serve,
}
use otel_k8s_graph.Api.Safe.{search_handler_lem, subgraph_handler_lem, serve-reads}
use otel_k8s_graph.Mcp.{
  search_tool, get_subgraph_tool, SearchInput, GetSubgraphInput, Route, IsRouted, is_plain,
  value_of,
}
use otel_k8s_graph.Strings.{has_prefix, drop}
use otel_k8s_graph.Base.{true}
use otel_k8s_graph.Mcp.Asked.{
  Reads, search_answer, subgraph_answer, search_tool-serve, get_subgraph_tool-serve,
}
use otel_k8s_graph.Mcp.Stored.{deps, search_tool-IsSearchResult, get_subgraph_tool-IsNeighbourhood}
use otel_k8s_graph.Tests.Flush.{server, Tables}
use otel_k8s_graph.Tests.Reader.{answers, unmarshal, stored, only, to_lower}

abbrev atoi : Text → Option ℤ
atoi s = map_option pos (parse_int64 s)

atoi-Reads : Reads atoi
atoi-Reads n l = ground (arith, parse_int64-itoa (pos n))

abbrev marshal : Body ℕ → Text ⊎ Text
marshal b = inr (codes "{}")

abbrev parse_duration : Text → Option ℤ
parse_duration [] = none
parse_duration (c ∷ s) = some (pos (length s))

-- Times do not go below zero.
abbrev add : ℕ → ℤ → ℕ
add t (pos n) = t + n
add t (negsuc n) = t

abbrev tables : Tables
tables = record { field_of = λ key f. none; member_of = λ key m. false }

abbrev small : Deps Tables ℕ
small =
    deps server (λ db. answers) (λ db. 3) unmarshal (λ now. now) [] to_lower none none marshal atoi
      atoi-Reads parse_duration add 9

abbrev prune_query : Query
prune_query key = if key == codes "older_than" then codes "5m" else []

-- The paths of the two handlers with a wildcard; what stands behind the prefix is the id.
abbrev route : Route
route path q =
    if has_prefix path (codes "/entity/")
    then some (get_entity (drop 8 path))
    else if has_prefix path (codes "/subgraph/")
    then some (get_subgraph (drop 10 path) (value_of q))
    else none

route-IsRouted : IsRouted route
unfolding has_prefix drop ℕ_discrete
route-IsRouted = record { entity = λ id q plain. refl; subgraph = λ id q plain. refl }

plain : is_plain (codes "pod:a") ≡ true
unfolding is_plain Text-discrete
plain = refl

-- An id whose path is read as another one.
not_plain : is_plain (codes "topic:orders?") ≡ false
unfolding is_plain Text-discrete
not_plain = refl

abbrev workers : SearchInput
workers = record { query = codes "worker"; kind = []; limit = pos 500 }

abbrev around : GetSubgraphInput
around = record { id = codes "pod:a"; max_depth = pos 0 }

abbrev three_ids : List Text
three_ids = codes "pod:a" ∷ codes "pod:gone" ∷ codes "node:n" ∷ []

all_ids : answers.smembers (search_key answers unmarshal [] []) ≡ some three_ids
unfolding lookup Text-discrete key_ids
all_ids = refl

some_text : codes "worker" ≢ []
some_text h = ground arith

-- A limit over 500 is refused, and so is one that is no number.
refused :
    search_handler small.graph marshal atoi
      (λ key. if key == codes "limit" then codes "501" else codes "x")
      tables
    ≡ failed 400 (codes "limit must be an integer in valid range")
unfolding search_handler Text-discrete parse_int64
refused = refl

no_number :
    search_handler small.graph marshal atoi
      (λ key. if key == codes "limit" then codes "many" else codes "x")
      tables
    ≡ failed 400 (codes "limit must be an integer in valid range")
unfolding search_handler Text-discrete parse_int64
no_number = refl

search_handler_lem_example :
    ((message : Text) × (search_handler small.graph marshal atoi prune_query tables
        ≡ failed 400 message))
    ⊎ ((limit : ℕ) × (limit ≤ 500)
        × (prune_query (codes "q") ≢ [])
        × (search_handler small.graph marshal atoi prune_query tables
            ≡ write_json small.graph marshal 200 (
                matches_of
                  (prune_query (codes "q"))
                  (prune_query (codes "kind"))
                  (length (
                    small.graph.search
                      (prune_query (codes "q"))
                      (prune_query (codes "kind"))
                      (pos limit)
                      tables))
                  (small.graph.search
                    (prune_query (codes "q"))
                    (prune_query (codes "kind"))
                    (pos limit)
                    tables))))
search_handler_lem_example = search_handler_lem small.graph marshal atoi prune_query tables

subgraph_handler_lem_example :
    ((message : Text) × (subgraph_handler small.graph marshal atoi
          (codes "pod:a")
          prune_query
          tables
        ≡ failed 400 message))
    ⊎ ((depth : ℕ) × (depth ≤ 100)
        × (((small.graph.subgraph (codes "pod:a") (pos depth) tables ≡ none)
              × (subgraph_handler small.graph marshal atoi (codes "pod:a") prune_query tables
                  ≡ failed 404 (codes "no such entity")))
            ⊎ ((es : List Entity) × (small.graph.subgraph (codes "pod:a") (pos depth) tables
                  ≡ some es)
                × (subgraph_handler small.graph marshal atoi (codes "pod:a") prune_query tables
                    ≡ write_json small.graph marshal 200 (reach_of (codes "pod:a") es)))))
subgraph_handler_lem_example =
    subgraph_handler_lem small.graph marshal atoi (codes "pod:a") prune_query tables

serve-reads_example :
    ((serve small marshal atoi parse_duration add 9 (post_prune prune_query) tables).0 ≡ tables)
    ⊎ ((query : Query) × (n : ℕ) × (post_prune prune_query ≡ post_prune query)
        × (parse_duration (query (codes "older_than")) ≡ some (pos (suc n)))
        × ((serve small marshal atoi parse_duration add 9 (post_prune prune_query) tables).0
            ≡ (small.graph.prune (add (clock_or 9 small.clock) (negsuc n)) tables).0))
serve-reads_example =
    serve-reads small marshal atoi parse_duration add 9 (post_prune prune_query) tables

search_tool-serve_example :
    serve small marshal atoi parse_duration add 9 (search_tool workers) tables
    ≡ (tables, search_answer atoi atoi-Reads small marshal parse_duration add 9 workers tables)
search_tool-serve_example =
    search_tool-serve atoi atoi-Reads small marshal parse_duration add 9 workers tables refl

get_subgraph_tool-serve_example :
    map_option
      (λ request. serve small marshal atoi parse_duration add 9 request tables)
      (get_subgraph_tool route around)
    ≡ some (
      tables,
      subgraph_answer atoi atoi-Reads small marshal parse_duration add 9
          (codes "pod:a")
          (pos 2)
          tables,
    )
get_subgraph_tool-serve_example =
    get_subgraph_tool-serve atoi atoi-Reads small marshal parse_duration add 9 route around tables
      route-IsRouted plain refl

search_tool-IsSearchResult_example :
    (hits : List SearchHit) × (serve small marshal atoi parse_duration add 9
        (search_tool workers)
        tables
      ≡ (
        tables,
        write_json small.graph marshal 200 (matches_of (codes "worker") [] (length hits) hits),
      ))
    × IsSearchResult to_lower
        (get answers unmarshal [])
        three_ids
        (to_lower (codes "worker"))
        500
        hits
search_tool-IsSearchResult_example =
    search_tool-IsSearchResult server (λ db. answers) (λ db. 3) unmarshal (λ now. now) [] to_lower
      none none marshal atoi atoi-Reads parse_duration add 9 workers tables three_ids some_text refl
      all_ids

get_subgraph_tool-IsNeighbourhood_example :
    ((get answers unmarshal [] (codes "pod:a") ≡ none)
      × (map_option
            (λ request. serve small marshal atoi parse_duration add 9 request tables)
            (get_subgraph_tool route around)
          ≡ some (tables, failed 404 (codes "no such entity"))))
    ⊎ ((es : List Entity) × (map_option
            (λ request. serve small marshal atoi parse_duration add 9 request tables)
            (get_subgraph_tool route around)
          ≡ some (tables, write_json small.graph marshal 200 (reach_of (codes "pod:a") es)))
        × IsNeighbourhood (get answers unmarshal []) (codes "pod:a") 2 es)
get_subgraph_tool-IsNeighbourhood_example =
    get_subgraph_tool-IsNeighbourhood server (λ db. answers) (λ db. 3) unmarshal (λ now. now) []
      to_lower none none marshal atoi atoi-Reads parse_duration add 9 route around tables stored 1
      route-IsRouted plain refl (omega arith) only (omega arith)

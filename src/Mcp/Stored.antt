-- ===== src/Mcp/Stored.antt =====
-- The API over the reader: RedisGraph as the graph of the handlers.
use otel_k8s_graph.Base.{
  ℕ, zero, suc, ◌≤◌, ◌<◌, Text, List, [], Option, none, some, true, false, codes, text_DecEq,
  nat_DecEq, length, map_option, ◌≡◌, refl, ◌∙◌, ap, subst, ◌≢◌, ◌⊎◌, inl, inr, arith, ≢→==,
}
use otel_k8s_graph.Base.{ℤ, pos, negsuc}
use otel_k8s_graph.Graph.{Edge, Entity, SearchHit, Graph}
use otel_k8s_graph.Redis.{Redis}
use otel_k8s_graph.Reader.{Answers, positive_or, get, size, list_by_kind, search_key, search_graph}
use otel_k8s_graph.Reader.Prune.{prune}
use otel_k8s_graph.Reader.Search.{IsSearchResult, search_graph_lem}
use otel_k8s_graph.Reader.Subgraph.{Outcome, found, no_such_entity, out_of_fuel, subgraph}
use otel_k8s_graph.Reader.Subgraph.Ends.{HasOnly}
use otel_k8s_graph.Reader.Subgraph.Correct.{IsNeighbourhood, subgraph_lem}
use otel_k8s_graph.Api.{
  Body, matches_of, reach_of, Response, failed, int_ltb, write_json, Deps, serve,
}
use otel_k8s_graph.Mcp.{
  search_tool, get_subgraph_tool, depth_or_two, SearchInput, GetSubgraphInput, Route, IsRouted,
  is_plain,
}
use otel_k8s_graph.Mcp.Asked.{
  Reads, subgraph_answer_lem, search_tool-serve, get_subgraph_tool-serve,
}

-- What the interface of the graph gives of an outcome of the search.
abbrev pub entities_found : Outcome → Option (List Entity)
entities_found (found es) = some es
entities_found no_such_entity = none
entities_found out_of_fuel = none

-- RedisGraph, over what the server answers at a state of the database; `fuel` is that of the search,
-- and `to_lower` is strings.ToLower.
module _ {T : Type 0} (r : Redis) (answers : r.Db → Answers) (fuel : r.Db → ℕ)
    (unmarshal : Text → Option Edge) (unix_milli : T → ℕ) (prefix : Text)
    (to_lower : Text → Text) where
  unfoldable pub redis_graph : Graph r.Db T
  unfolding get size subgraph list_by_kind search_graph prune
  redis_graph = record {
    get = λ id db. get (answers db) unmarshal prefix id;
    size = λ db. size (answers db) unmarshal prefix;
    subgraph =
        λ id depth db. entities_found (subgraph (answers db) unmarshal prefix (fuel db) id depth);
    list_by_kind = λ kind db. list_by_kind (answers db) unmarshal prefix kind;
    search = λ q kind limit db. search_graph (answers db) unmarshal prefix to_lower q kind limit;
    prune = λ cutoff db.
        prune r (λ db' key. (answers db').smembers key) unmarshal prefix (unix_milli cutoff) db;
  }

int_small :
    (hi : ℕ) (z : ℤ)
    → int_ltb (pos hi) z ≡ false
    → hi < 9_223_372_036_854_775_808
    → int_ltb z (pos 9_223_372_036_854_775_808) ≡ true
int_small hi (pos n) h l = ground arith
int_small hi (negsuc n) h l = refl

positive_or_twice : (n : ℕ) (z : ℤ) → positive_or n (pos (positive_or n z)) ≡ positive_or n z
positive_or_twice zero (pos zero) = refl
positive_or_twice (suc n) (pos zero) = refl
positive_or_twice n (pos (suc m)) = refl
positive_or_twice zero (negsuc m) = refl
positive_or_twice (suc n) (negsuc m) = refl

module _ {T : Type 0} (r : Redis) (answers : r.Db → Answers) (fuel : r.Db → ℕ)
    (unmarshal : Text → Option Edge) (unix_milli : T → ℕ) (prefix : Text) (to_lower : Text → Text)
    (ping : Option (Option Text)) (clock : Option T) (marshal : Body T → Text ⊎ Text)
    (atoi : Text → Option ℤ) (reads : Reads atoi) (parse_duration : Text → Option ℤ)
    (add : T → ℤ → T) (time_now : T) where
  abbrev pub deps : Deps r.Db T
  deps = record {
    graph = redis_graph r answers fuel unmarshal unix_milli prefix to_lower;
    ping = ping;
    clock = clock;
  }

  -- If Atoi reads what Itoa writes, the tool's search for a text, with a limit of at most 500, in a
  -- database that answers with the ids of the kind is answered by what a search for the text gives of
  -- these ids, with 50 as the limit if none is asked for.
  pub search_tool-IsSearchResult :
      (input : SearchInput) (db : r.Db) (ids : List Text)
      → input.query ≢ []
      → int_ltb (pos 500) input.limit ≡ false
      → (answers db).smembers (search_key (answers db) unmarshal prefix input.kind) ≡ some ids
      → (hits : List SearchHit) × (serve deps marshal atoi parse_duration add time_now
            (search_tool input)
            db
          ≡ (
            db,
            write_json deps.graph marshal 200
                (matches_of input.query input.kind (length hits) hits),
          ))
        × IsSearchResult to_lower
            (get (answers db) unmarshal prefix)
            ids
            (to_lower input.query)
            (positive_or 50 input.limit)
            hits
  unfolding redis_graph
  search_tool-IsSearchResult input db ids some_text fits listed =
      let limit = positive_or 50 input.limit in
      let hits =
        search_graph (answers db) unmarshal prefix to_lower input.query input.kind (pos limit) in
      let answered =
        search_tool-serve atoi reads deps marshal parse_duration add time_now input db
          (int_small 500 input.limit fits (omega arith)) in
      let chosen = ≢→== input.query [] some_text in
      (
        hits,
        answered ∙ ap (λ (x : Response). (db, x)) (rw (chosen, fits) refl),
        elim (search_graph_lem to_lower (answers db) unmarshal prefix input.query input.kind
            (pos limit)) [
              | inl (none_asked, e) ↦ absurd (ground arith)
              | inr (ids', e, result) ↦
                  let same : ids' ≡ ids = ground arith in
                  subst
                    (λ n.
                      IsSearchResult to_lower (get (answers db) unmarshal prefix) ids
                        (to_lower input.query) n hits)
                    (positive_or_twice 50 input.limit)
                    (subst
                      (λ is.
                        IsSearchResult to_lower (get (answers db) unmarshal prefix) is
                          (to_lower input.query) (positive_or 50 (pos limit)) hits)
                      same result)
            ],
      )

  -- If Atoi reads what Itoa writes, and the API reads a plain id behind a handler's prefix as it
  -- stands, the tool for subgraphs, with a plain id (at most 8000 characters of printable ASCII
  -- without `?`, `#` and `%`, no segment of which is empty, `.` or `..`) and a depth from 1 to 100,
  -- in a database where what can be loaded is among finitely many ids, no more than the fuel, is
  -- answered with status 404 if the root cannot be loaded, and otherwise by exactly the entities
  -- that a walk of at most that depth from the root leads to.
  pub get_subgraph_tool-IsNeighbourhood :
      (route : Route) (input : GetSubgraphInput) (db : r.Db) (ids : List Text) (depth : ℕ)
      → IsRouted route
      → is_plain input.id ≡ true
      → depth_or_two input.max_depth ≡ pos (suc depth)
      → suc depth ≤ 100
      → HasOnly (get (answers db) unmarshal prefix) ids
      → length ids ≤ fuel db
      → ((get (answers db) unmarshal prefix input.id ≡ none)
          × (map_option
                (λ request. serve deps marshal atoi parse_duration add time_now request db)
                (get_subgraph_tool route input)
              ≡ some (db, failed 404 (codes "no such entity"))))
        ⊎ ((es : List Entity) × (map_option
                (λ request. serve deps marshal atoi parse_duration add time_now request db)
                (get_subgraph_tool route input)
              ≡ some (db, write_json deps.graph marshal 200 (reach_of input.id es)))
            × IsNeighbourhood (get (answers db) unmarshal prefix) input.id (suc depth) es)
  unfolding redis_graph
  get_subgraph_tool-IsNeighbourhood route input db ids depth routed plain asked fits only enough =
      let max_depth = depth_or_two input.max_depth in
      let in_range : int_ltb max_depth (pos 9_223_372_036_854_775_808) ≡ true =
        rw asked (ground arith) in
      let answered =
        get_subgraph_tool-serve atoi reads deps marshal parse_duration add time_now route input db
          routed plain in_range in
      let given = λ (o : Option (List Entity)).
        subgraph_answer_lem atoi reads deps marshal parse_duration add time_now input.id depth db o
          max_depth asked fits in
      elim (subgraph_lem (answers db) unmarshal prefix input.id (pos (suc depth)) ids (fuel db) only
        enough) [
          | inl (lacks, e) ↦ inl (
            lacks,
            answered ∙ ap (λ (x : Response). some (db, x)) (given none (ap entities_found e)),
          )
          | inr (es, e, near) ↦ inr (
            es,
            answered ∙ ap (λ (x : Response). some (db, x)) (given (some es) (ap entities_found e)),
            near,
          )
        ]

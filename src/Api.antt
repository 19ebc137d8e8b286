-- ===== src/Api.antt =====
-- internal/api/api.go: the handlers of the HTTP API. Requests come one after another; the headers of a
-- response are left out.
pub mod Safe
use otel_k8s_graph.Base.{
  ℕ, zero, suc, ◌+◌, ◌-◌, Text, List, [], ◌++◌, Option, none, some, Bool, true, false, ◌&&◌, ◌||◌,
  codes, text_DecEq, nat_DecEq, if◌then◌else◌, ◌==◌, ltb, length, ◌⊎◌, inl, inr,
}
use otel_k8s_graph.Base.{ℤ, pos, negsuc}
use otel_k8s_graph.Graph.{Kind, Entity, SearchHit, Graph}

-- r.URL.Query().Get
abbrev pub Query : Type 0
Query = Text → Text

-- What the handlers marshal: the names of the maps' entries are fixed.
pub data Body (T : Type 0) : Type 0 where
  matches_of : Text → Kind → ℕ → List SearchHit → Body T
  entities_of : Kind → ℕ → List Entity → Body T
  entity_of : Entity → Body T
  reach_of : Text → List Entity → Body T
  pruned : ℕ → T → ℕ → Body T

-- What http.Error writes, or a status and a body.
pub data Response : Type 0 where
  failed sent : ℕ → Text → Response

-- The routes, after net/http has matched one.
pub data Request : Type 0 where
  get_search get_entities : Query → Request
  get_entity : Text → Request
  get_subgraph : Text → Query → Request
  post_prune : Query → Request
  get_healthz : Request

abbrev pub int_ltb : ℤ → ℤ → Bool
int_ltb (pos m) (pos n) = ltb m n
int_ltb (pos m) (negsuc n) = false
int_ltb (negsuc m) (pos n) = true
int_ltb (negsuc m) (negsuc n) = ltb n m

-- -n
abbrev pub opposite : ℤ → ℤ
opposite (pos zero) = pos zero
opposite (pos (suc n)) = negsuc n
opposite (negsuc n) = pos (suc n)

module _ (atoi : Text → Option ℤ) where
  abbrev pub out_of_range : Text → Response ⊎ ℤ
  out_of_range key = inl (failed 400 (key ++ codes " must be an integer in valid range"))

  -- `atoi` is strconv.Atoi, `none` for an error.
  unfoldable pub int_param : Query → Text → ℤ → ℤ → ℤ → Response ⊎ ℤ
  int_param query key default min max =
      let s = query key in
      if s == [] then inr default else elim (atoi s) [
        | none ↦ out_of_range key
        | some n ↦
            if int_ltb n min || int_ltb (pos 0) max && int_ltb max n
            then out_of_range key
            else inr n
      ]

module _ {G T : Type 0} (g : Graph G T) (marshal : Body T → Text ⊎ Text) where
  -- `marshal` is json.MarshalIndent, with the text of its error or the JSON.
  unfoldable pub write_json : ℕ → Body T → Response
  write_json status v = elim (marshal v) [
    | inl err ↦ failed 500 (codes "marshal failed: " ++ err)
    | inr body ↦ sent status body
  ]

  module _ (atoi : Text → Option ℤ) where
    unfoldable pub search_handler : Query → G → Response
    unfolding int_param write_json
    search_handler query graph =
        let q = query (codes "q") in
        let kind = query (codes "kind") in
        if q == []
        then failed 400 (codes "q query param required")
        else elim (int_param atoi query (codes "limit") (pos 50) (pos 0) (pos 500)) [
          | inl bad ↦ bad
          | inr limit ↦
              let hits = g.search q kind limit graph in
              write_json 200 (matches_of q kind (length hits) hits)
        ]

    unfoldable pub subgraph_handler : Text → Query → G → Response
    unfolding int_param write_json
    subgraph_handler id query graph =
        elim (int_param atoi query (codes "max_depth") (pos 0) (pos 0) (pos 100)) [
          | inl bad ↦ bad
          | inr depth ↦ elim (g.subgraph id depth graph) [
            | none ↦ failed 404 (codes "no such entity")
            | some entities ↦ write_json 200 (reach_of id entities)
          ]
        ]

  unfoldable pub entities_handler : Query → G → Response
  unfolding write_json
  entities_handler query graph =
      let kind = query (codes "kind") in
      let entities = g.list_by_kind kind graph in
      if kind == []
      then failed 400 (codes "kind query param required (e.g. ?kind=endpoint)")
      else write_json 200 (entities_of kind (length entities) entities)

  unfoldable pub entity_handler : Text → G → Response
  unfolding write_json
  entity_handler id graph = elim (g.get id graph) [
    | none ↦ failed 404 (codes "no such entity")
    | some e ↦ write_json 200 (entity_of e)
  ]

  -- `parse_duration` is time.ParseDuration in nanoseconds, `add` is Add of a time.
  module _ (parse_duration : Text → Option ℤ) (add : T → ℤ → T) where
    unfoldable pub prune_handler : T → Query → G → G × Response
    unfolding write_json
    prune_handler now query graph =
        let older_than = query (codes "older_than") in
        let bad = failed 400 (codes "older_than must be a positive duration") in
        if older_than == []
        then (graph, failed 400 (codes "older_than query param required (e.g. 5m, 1h)"))
        else elim (parse_duration older_than) [
          | none ↦ (graph, bad)
          | some dur ↦
              let cutoff = add now (opposite dur) in
              let left = g.prune cutoff graph in
              if int_ltb (pos 0) dur
              then (left.0, write_json 200 (pruned left.1 cutoff (g.size left.0)))
              else (graph, bad)
        ]

-- Without a Pinger, or with the result of its Ping: `none`, or the text of an error.
abbrev pub healthz_handler : Option (Option Text) → Response
healthz_handler none = sent 200 (codes "ok")
healthz_handler (some none) = sent 200 (codes "ok")
healthz_handler (some (some err)) = failed 503 (codes "redis unreachable: " ++ err)

-- The dependencies, a clock's time among them if there is a clock.
pub record Deps (G T : Type 0) : Type 0 where
  pub graph : Graph G T
  pub ping : Option (Option Text)
  pub clock : Option T

abbrev pub clock_or : {T : Type 0} → T → Option T → T
clock_or now none = now
clock_or now (some t) = t

module _ {G T : Type 0} (d : Deps G T) (marshal : Body T → Text ⊎ Text) (atoi : Text → Option ℤ)
    (parse_duration : Text → Option ℤ) (add : T → ℤ → T) (time_now : T) where
  unfoldable pub serve : Request → G → G × Response
  unfolding search_handler subgraph_handler entities_handler entity_handler prune_handler
  serve (get_search query) graph = (graph, search_handler d.graph marshal atoi query graph)
  serve (get_entities query) graph = (graph, entities_handler d.graph marshal query graph)
  serve (get_entity id) graph = (graph, entity_handler d.graph marshal id graph)
  serve (get_subgraph id query) graph =
      (graph, subgraph_handler d.graph marshal atoi id query graph)
  serve (post_prune query) graph =
      prune_handler d.graph marshal parse_duration add (clock_or time_now d.clock) query graph
  serve get_healthz graph = (graph, healthz_handler d.ping)

-- ===== src/Tests/Reader.antt =====
-- What is read from a small database.
use native.Mathlib.Decide.{ℕ_discrete}
use otel_k8s_graph.Graph.Keys.{key_metadata}
use otel_k8s_graph.Strings.{contains}
use otel_k8s_graph.Reader.{matched_in}
use otel_k8s_graph.Graph.Keys.{key_ids}
use otel_k8s_graph.Strings.{take}
use otel_k8s_graph.Reader.Sort.{text_ltb}
use otel_k8s_graph.Graph.Keys.{key_edges}
use otel_k8s_graph.Base.{
  ◌+◌, ◌&&◌, leb, ◌≤◌, Text, List, [], ◌∷◌, map, Map, Option, none, some, true, codes,
  Text-discrete, text_DecEq, nat_DecEq, if◌then◌else◌, ◌==◌, is_some, lookup, insert, length, ◌≡◌,
  refl, ◌↔◌, ◌⊎◌, inl, inr, arith, Bool-cases,
}
use otel_k8s_graph.Base.{pos, negsuc, itoa}
use otel_k8s_graph.Graph.{Edge, Entity, SearchHit}
use otel_k8s_graph.Graph.Keys.{key_entity, key_by_kind}
use otel_k8s_graph.Strings.{drop}
use otel_k8s_graph.Reader.{Answers, get, size, search_graph, search_key, list_by_kind}
use otel_k8s_graph.Reader.Int64.{
  parse_int64, int64_of, parse_int64-itoa, all_digits, unsigned, parse_int64_some,
}
use otel_k8s_graph.Reader.Sort.{IsAscending}
use otel_k8s_graph.Reader.Entries.{In}
use otel_k8s_graph.Reader.Search.{IsSearchResult, IsLoaded, search_graph_lem, list_by_kind_lem}
use otel_k8s_graph.Reader.Subgraph.Correct.{IsNeighbourhood, subgraph_lem}
use otel_k8s_graph.Reader.Subgraph.Reachable.{IsReachable, HasWalksIn, subgraph-IsReachable}
use otel_k8s_graph.Reader.Subgraph.Walks.{here, step, edges_of}
use otel_k8s_graph.Reader.Subgraph.Offer.{is_target}
use otel_k8s_graph.Redis.{is_in}
use otel_k8s_graph.Base.{==→≡, sym, subst, false}
use otel_k8s_graph.Reader.Subgraph.{found, no_such_entity, subgraph}
use otel_k8s_graph.Reader.Subgraph.Ends.{HasOnly}

-- A pod with metadata that runs on a node; the node's id is not among the ids of a kind. The hash of
-- the metadata can be loaded as an entity.
abbrev core_of : Text → Map Text Text
core_of id =
    if codes "pod:a" == id
    then (codes "id", codes "pod:a")
      ∷ (codes "kind", codes "pod")
      ∷ (codes "last_seen_at_ms", codes "17")
      ∷ []
    else if codes "node:n" == id
    then (codes "id", codes "node:n") ∷ (codes "name", codes "Worker A") ∷ []
    else if codes "pod:a:metadata" == id
    then (codes "namespace", codes "prod") ∷ []
    else []

abbrev sets : Map Text (List Text)
sets =
    (codes ":entity:pod:a:edges", codes "node:n" ∷ codes "" ∷ codes "pod:gone" ∷ [])
    ∷ (codes ":entity:node:n:edges", codes "pod:a" ∷ [])
    ∷ (codes ":ids", codes "pod:a" ∷ codes "pod:gone" ∷ codes "node:n" ∷ [])
    ∷ []

abbrev pub answers : Answers
answers = record {
  hgetall = λ key. some (core_of (drop 8 key));
  smembers = λ key. some (elim (lookup key sets) [ none ↦ [] | some ids ↦ ids ]);
  scard = λ key. some 3;
}

-- An edge's JSON is its target, and an empty text is no JSON.
abbrev pub unmarshal : Text → Option Edge
unmarshal [] = none
unmarshal (c ∷ raw) =
    some (record { action = codes "RUNS"; to_resource = c ∷ raw; kind = codes "runs_on" })

abbrev pub stored : List Text
stored = codes "pod:a" ∷ codes "node:n" ∷ codes "pod:a:metadata" ∷ []

abbrev entities : List Text
entities = codes "pod:a" ∷ codes "node:n" ∷ []

two_ids : length entities ≤ size answers unmarshal []
unfolding size
two_ids = omega arith

known : is_some (get answers unmarshal [] (codes "pod:a")) ≡ true
unfolding get key_entity drop Text-discrete
known = refl

pub only : HasOnly (get answers unmarshal []) stored
unfolding get key_entity drop Text-discrete
only id h = elim (Bool-cases (codes "pod:a" == id)) [
  | inl e ↦ rw e refl
  | inr e ↦ elim (Bool-cases (codes "node:n" == id)) [
    | inl f ↦ rw (e, f) refl
    | inr f ↦ elim (Bool-cases (codes "pod:a:metadata" == id)) [
      | inl g ↦ rw (e, f, g) refl
      | inr g ↦
          let bare : core_of id ≡ [] = rw (e, f, g) refl in
          let lacks : get answers unmarshal [] id ≡ none = rw bare refl in absurd (ground arith)
    ]
  ]
]

abbrev edges : Text → List Edge
edges = edges_of (get answers unmarshal [])

no_edge :
    (u : Text) → is_in u entities ≡ true → is_target (codes "pod:a:metadata") (edges u) ≡ false
unfolding get key_entity drop Text-discrete key_edges key_metadata lookup
no_edge u h = elim (Bool-cases (codes "pod:a" == u)) [
  | inl e ↦
      subst (λ x. is_target (codes "pod:a:metadata") (edges x) ≡ false) (==→≡ (codes "pod:a") u e)
        refl
  | inr e ↦
      let f : (codes "node:n" == u) ≡ true = ground arith in
      subst (λ x. is_target (codes "pod:a:metadata") (edges x) ≡ false) (==→≡ (codes "node:n") u f)
        refl
]

-- The metadata can be loaded, but no walk leads to them.
within : HasWalksIn (get answers unmarshal []) (codes "pod:a") entities
unfolding Text-discrete
within n v here = refl
within n v (step {n = m} {u = u} v' w target loads) =
    let from = no_edge u (within m u w) in
    elim (Bool-cases (codes "pod:a:metadata" == v')) [
      | inl e ↦
          let same = ==→≡ (codes "pod:a:metadata") v' e in
          let aimed = subst (λ x. is_target x (edges u) ≡ true) (sym same) target in
          absurd (ground arith)
      | inr e ↦ ground (arith, only v' loads)
    ]

-- Both are found from the pod at depth one; the pod's edge to an id that is not stored leads nowhere.
neighbours :
    (n : Entity) × (p : Entity) × (subgraph answers unmarshal [] 3 (codes "pod:a") (pos 1)
      ≡ found (n ∷ p ∷ []))
    × (n.name ≡ codes "Worker A")
    × (p.last_seen_at ≡ some 17)
unfolding subgraph Text-discrete drop key_entity lookup key_edges insert text_ltb
neighbours = (_, _, refl, refl, refl)

-- What strings.ToLower does on ASCII.
abbrev pub to_lower : Text → Text
to_lower = map (λ c. if leb b'A' c && leb c b'Z' then c + 32 else c)

-- A search for a lower-case name, and one without a hit.
worker :
    map
      (λ (hit : SearchHit). hit.matched_in)
      (search_graph answers unmarshal [] to_lower (codes "WORKER") [] (pos 0))
    ≡ (codes "name" ∷ []) ∷ []
unfolding search_graph take lookup Text-discrete key_ids get drop key_entity matched_in contains
    key_metadata key_edges
worker = refl

actions :
    map
      (λ (hit : SearchHit). hit.matched_in)
      (search_graph answers unmarshal [] to_lower (codes "Run") [] (pos 1))
    ≡ (codes "edge.runs_on.action" ∷ []) ∷ []
unfolding search_graph Text-discrete take lookup key_ids get drop key_entity matched_in contains
    key_metadata key_edges insert text_ltb
actions = refl

-- A lone sign is zero, and a value beyond an int64 wraps round.
lone_sign : parse_int64 (codes "-") ≡ some 0
unfolding parse_int64 ℕ_discrete
lone_sign = refl

wrapped : parse_int64 (codes "18446744073709551617") ≡ some 1
unfolding parse_int64 ℕ_discrete
wrapped = refl

subgraph_lem_example :
    ((get answers unmarshal [] (codes "pod:a") ≡ none)
      × (subgraph answers unmarshal [] 3 (codes "pod:a") (pos 1) ≡ no_such_entity))
    ⊎ ((es : List Entity) × (subgraph answers unmarshal [] 3 (codes "pod:a") (pos 1) ≡ found es)
        × IsNeighbourhood (get answers unmarshal []) (codes "pod:a") 1 es)
subgraph_lem_example =
    subgraph_lem answers unmarshal [] (codes "pod:a") (pos 1) stored 3 only (omega arith)

subgraph-IsReachable_example :
    (es : List Entity) × (subgraph answers unmarshal [] 3 (codes "pod:a") (pos 0) ≡ found es)
    × IsReachable (get answers unmarshal []) (codes "pod:a") es
subgraph-IsReachable_example =
    subgraph-IsReachable answers unmarshal [] stored entities 3 (codes "pod:a") (pos 0) only
      (omega arith) within two_ids refl known

search_graph_lem_example :
    (((codes "worker" ≡ []) ⊎ (answers.smembers (search_key answers unmarshal [] []) ≡ none))
      × (search_graph answers unmarshal [] to_lower (codes "worker") [] (pos 1) ≡ []))
    ⊎ ((ids : List Text) × (answers.smembers (search_key answers unmarshal [] []) ≡ some ids)
        × IsSearchResult to_lower
            (get answers unmarshal [])
            ids
            (to_lower (codes "worker"))
            1
            (search_graph answers unmarshal [] to_lower (codes "worker") [] (pos 1)))
search_graph_lem_example =
    search_graph_lem to_lower answers unmarshal [] (codes "worker") [] (pos 1)

list_by_kind_lem_example :
    ((answers.smembers (key_by_kind [] (codes "pod")) ≡ none)
      × (list_by_kind answers unmarshal [] (codes "pod") ≡ []))
    ⊎ ((ids : List Text) × (answers.smembers (key_by_kind [] (codes "pod")) ≡ some ids)
        × IsAscending (λ (e : Entity). e.id) (list_by_kind answers unmarshal [] (codes "pod"))
        × ((e : Entity)
            → In e (list_by_kind answers unmarshal [] (codes "pod"))
              ↔ IsLoaded (get answers unmarshal []) ids e))
list_by_kind_lem_example = list_by_kind_lem answers unmarshal [] (codes "pod")

parse_int64-itoa_example :
    parse_int64 (itoa (negsuc 1_700_000_000_000)) ≡ some (int64_of (negsuc 1_700_000_000_000))
parse_int64-itoa_example = parse_int64-itoa (negsuc 1_700_000_000_000)

parse_int64_some_example : is_some (parse_int64 (codes "12a")) ≡ all_digits (unsigned (codes "12a"))
parse_int64_some_example = parse_int64_some (codes "12a")

-- ===== src/Reader.antt =====
-- internal/graph/redis.go: what graph-read makes of the database. Go's nil slices and maps are empty
-- ones, and its ints are integers.
pub mod Int64
pub mod Sort
pub mod Entries
pub mod Places
pub mod Prune
pub mod Written
pub mod Search
pub mod Subgraph
use otel_k8s_graph.Base.{
  ℕ, zero, suc, ◌+◌, ◌-◌, Text, List, [], ◌∷◌, ◌++◌, map, Map, Option, none, some, Bool, true,
  false, not, codes, text_DecEq, nat_DecEq, if◌then◌else◌, ◌==◌, lookup, insert,
}
use otel_k8s_graph.Base.{ℤ, pos, negsuc}
use otel_k8s_graph.Graph.{Kind, EdgeKind, Edge, Entity, SearchHit}
use otel_k8s_graph.Graph.Keys.{key_entity, key_metadata, key_edges, key_by_kind, key_ids}
use otel_k8s_graph.Strings.{contains, take}
use otel_k8s_graph.Reader.Int64.{parse_int64}
use otel_k8s_graph.Reader.Sort.{sort_by}

-- What the server answers during one call: HGETALL, SMEMBERS and SCARD of a key, `none` for an
-- error. A key that is not there is an empty hash or set.
pub record Answers : Type 0 where
  pub hgetall : Text → Option (Map Text Text)
  pub smembers : Text → Option (List Text)
  pub scard : Text → Option ℕ

-- m[key], which is "" for a key that is not there
abbrev pub at_key : Map Text Text → Text → Text
at_key m key = elim (lookup key m) [ none ↦ [] | some v ↦ v ]

-- The time in `last_seen_at_ms`, if it can be read.
abbrev pub last_seen : Text → Option ℕ
last_seen [] = none
last_seen (c ∷ ms) = parse_int64 (c ∷ ms)

-- The edges whose JSON can be read.
unfoldable pub decode_all : (Text → Option Edge) → List Text → List Edge
decode_all unmarshal [] = []
decode_all unmarshal (raw ∷ rest) =
    let edges = decode_all unmarshal rest in
    elim (unmarshal raw) [ none ↦ edges | some edge ↦ edge ∷ edges ]

-- What can be loaded of a list of ids, in its order.
abbrev pub load_all {ℓ} : {A : Type ℓ} → (Text → Option A) → List Text → List A
load_all load [] = []
load_all load (id ∷ ids) =
    let rest = load_all load ids in elim (load id) [ none ↦ rest | some e ↦ e ∷ rest ]

-- A positive int, or what stands for it otherwise.
abbrev pub positive_or : ℕ → ℤ → ℕ
positive_or default (pos (suc n)) = suc n
positive_or default (pos zero) = default
positive_or default (negsuc n) = default

module _ (a : Answers) (unmarshal : Text → Option Edge) (prefix : Text) where
  -- An entity without edges and metadata stands where either of the two reads fails.
  unfoldable pub assemble : Text → Map Text Text → Entity
  unfolding decode_all parse_int64
  assemble id core =
      let bare : Entity = record {
        id = at_key core (codes "id");
        kind = at_key core (codes "kind");
        name = at_key core (codes "name");
        last_seen_at = last_seen (at_key core (codes "last_seen_at_ms"));
        edges = [];
        metadata = [];
      } in
      elim (a.smembers (key_edges prefix id)) [
        | none ↦ bare
        | some raws ↦ elim (a.hgetall (key_metadata prefix id)) [
          | none ↦ bare
          | some md ↦ record bare { edges = decode_all unmarshal raws; metadata = md }
        ]
      ]

  -- Get; the others load an entity in the same way.
  unfoldable pub get : Text → Option Entity
  unfolding assemble
  get id = elim (a.hgetall (key_entity prefix id)) [
    | none ↦ none
    | some [] ↦ none
    | some (fv ∷ core) ↦ some (assemble id (fv ∷ core))
  ]

  unfoldable pub size : ℕ
  size = elim (a.scard (key_ids prefix)) [ none ↦ 0 | some n ↦ n ]

  unfoldable pub list_by_kind : Kind → List Entity
  unfolding sort_by
  list_by_kind kind = elim (a.smembers (key_by_kind prefix kind)) [
    | none ↦ []
    | some ids ↦ sort_by (λ (e : Entity). e.id) (load_all get ids)
  ]

-- Does the lower-case form of a text hold the needle? `to_lower` is strings.ToLower, which is
-- Unicode's.
abbrev pub holds_text : (Text → Text) → Text → Text → Bool
holds_text to_lower needle s = contains (to_lower s) needle

abbrev pub if_found : Bool → Text → List Text
if_found true place = place ∷ []
if_found false place = []

unfoldable pub metadata_places : (Text → Text) → Text → Map Text Text → List Text
metadata_places to_lower needle [] = []
metadata_places to_lower needle ((k, v) ∷ md) =
    if_found (holds_text to_lower needle v) (codes "metadata." ++ k)
    ++ metadata_places to_lower needle md

-- The kinds of the edges whose action holds the needle, each once.
unfoldable pub edge_kinds :
    (Text → Text) → Text → List Edge → Map EdgeKind (Unit {0}) → Map EdgeKind (Unit {0})
edge_kinds to_lower needle [] found = found
edge_kinds to_lower needle (edge ∷ edges) found = edge_kinds to_lower needle edges (
    if edge.action == []
    then found
    else if holds_text to_lower needle edge.action
    then insert edge.kind tt found
    else found)

abbrev pub action_place : EdgeKind × Unit {0} → Text
action_place (kind, _) = codes "edge." ++ (kind ++ codes ".action")

unfoldable pub matched_in : (Text → Text) → Text → Entity → List Text
unfolding metadata_places edge_kinds
matched_in to_lower needle e =
    if_found (holds_text to_lower needle e.id) (codes "id")
    ++ (if_found (holds_text to_lower needle e.name) (codes "name")
        ++ (metadata_places to_lower needle e.metadata
            ++ map action_place (edge_kinds to_lower needle e.edges [])))

-- An entity with some places is a hit.
abbrev pub append_hit : Entity → List Text → List SearchHit → List SearchHit
append_hit e [] hits = hits
append_hit e (place ∷ places) hits =
    record { entity = e; matched_in = sort_by (λ s. s) (place ∷ places) } ∷ hits

-- The hits among some entities.
unfoldable pub hits_in : (Text → Text) → Text → List Entity → List SearchHit
hits_in to_lower needle [] = []
hits_in to_lower needle (e ∷ es) =
    append_hit e (matched_in to_lower needle e) (hits_in to_lower needle es)

module _ (a : Answers) (unmarshal : Text → Option Edge) (prefix : Text) where
  abbrev pub search_key : Kind → Text
  search_key [] = key_ids prefix
  search_key (c ∷ kind) = key_by_kind prefix (c ∷ kind)

  unfoldable pub search_graph : (Text → Text) → Text → Kind → ℤ → List SearchHit
  unfolding hits_in sort_by
  search_graph to_lower [] kind limit = []
  search_graph to_lower (c ∷ q) kind limit = elim (a.smembers (search_key kind)) [
    | none ↦ []
    | some ids ↦ take (positive_or 50 limit) (
        sort_by (λ (hit : SearchHit). hit.entity.id)
          (hits_in to_lower (to_lower (c ∷ q)) (load_all (get a unmarshal prefix) ids)))
  ]

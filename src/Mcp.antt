-- ===== src/Mcp.antt =====
-- internal/mcp: the requests that the tools send to the API. Sending them, the coding of a URL and the
-- choice of a handler by the path are those of net/http and net/url.
pub mod Asked
pub mod Stored
pub mod Client
use otel_k8s_graph.Base.{
  zero, suc, ◌+◌, ◌-◌, Text, [], ◌∷◌, ◌++◌, Map, Option, List, Bool, true, false, ltb, ◌==◌, ◌&&◌,
  ◌||◌, ℕ, none, some, not, ◌≡◌, codes, text_DecEq, nat_DecEq, if◌then◌else◌, leb, lookup, insert,
  length,
}
use otel_k8s_graph.Base.{ℤ, pos, negsuc, itoa}
use otel_k8s_graph.Strings.{take, split}
use otel_k8s_graph.Api.{Query, Request, get_search, get_entities, get_entity, get_subgraph}

-- The query of a request, as the server reads it again; an entry that is not set is "".
abbrev pub value_of : Map Text Text → Query
value_of q key = elim (lookup key q) [ none ↦ [] | some v ↦ v ]

abbrev pub set_positive : Text → ℤ → Map Text Text → Map Text Text
set_positive key (pos (suc n)) q = insert key (itoa (pos (suc n))) q
set_positive key (pos zero) q = q
set_positive key (negsuc n) q = q

abbrev pub set_non_empty : Text → Text → Map Text Text → Map Text Text
set_non_empty key [] q = q
set_non_empty key (c ∷ v) q = insert key (c ∷ v) q

unfoldable pub search_query : Text → Text → ℤ → Map Text Text
search_query query kind limit =
    set_positive (codes "limit") limit (set_non_empty (codes "kind") kind ((codes "q", query) ∷ []))

unfoldable pub search : Text → Text → ℤ → Request
unfolding search_query
search query kind limit = get_search (value_of (search_query query kind limit))

unfoldable pub list_entities : Text → Request
list_entities kind = get_entities (value_of ((codes "kind", kind) ∷ []))

-- Which request the API reads of a GET with a path, which the client puts into the URL as it is, and a
-- query; `none` if it reads none. An id with a `?`, a `#`, a `%` or an empty segment is read otherwise
-- than it stands.
abbrev pub Route : Type 0
Route = Text → Map Text Text → Option Request

unfoldable pub get_entity_tool : Route → Text → Option Request
get_entity_tool route id = route (codes "/entity/" ++ id) []

unfoldable pub get_subgraph_request : Route → Text → ℤ → Option Request
get_subgraph_request route id max_depth =
    route (codes "/subgraph/" ++ id) (set_positive (codes "max_depth") max_depth [])

-- A printable ASCII character that is not `?`, `#` or `%`.
abbrev pub is_plain_char : ℕ → Bool
is_plain_char c = ltb 32 c && ltb c 127 && not (c == b'?' || (c == b'#' || c == b'%'))

-- A segment of a path that a server does not clean away.
abbrev pub is_plain_segment : Text → Bool
is_plain_segment [] = false
is_plain_segment (c ∷ s) = not (c ∷ s == codes "." || c ∷ s == codes "..")

abbrev pub all_of {ℓ} : {A : Type ℓ} → (A → Bool) → List A → Bool
all_of p [] = true
all_of p (x ∷ xs) = p x && all_of p xs

-- An id that is its own path: not longer than a server reads, of plain characters, in plain segments.
unfoldable pub is_plain : Text → Bool
unfolding split
is_plain id =
    leb (length id) 8000 && (all_of is_plain_char id && all_of is_plain_segment (split id b'/'))

-- net/url and net/http: behind the prefix of a handler with a wildcard, `GET /entity/{id...}` and
-- `GET /subgraph/{id...}`, a plain id is the wildcard's value, and a query is read as it was set.
pub record IsRouted (route : Route) : Type 0 where
  pub entity :
      (id : Text) (q : Map Text Text)
      → is_plain id ≡ true
      → route (codes "/entity/" ++ id) q ≡ some (get_entity id)
  pub subgraph :
      (id : Text) (q : Map Text Text)
      → is_plain id ≡ true
      → route (codes "/subgraph/" ++ id) q ≡ some (get_subgraph id (value_of q))

pub record SearchInput : Type 0 where
  pub query : Text
  pub kind : Text
  pub limit : ℤ

pub record GetSubgraphInput : Type 0 where
  pub id : Text
  pub max_depth : ℤ

-- The tools' requests.
unfoldable pub search_tool : SearchInput → Request
unfolding search
search_tool input = search input.query input.kind input.limit

abbrev pub depth_or_two : ℤ → ℤ
depth_or_two (pos zero) = pos 2
depth_or_two (pos (suc n)) = pos (suc n)
depth_or_two (negsuc n) = negsuc n

unfoldable pub get_subgraph_tool : Route → GetSubgraphInput → Option Request
unfolding get_subgraph_request
get_subgraph_tool route input = get_subgraph_request route input.id (depth_or_two input.max_depth)

-- The texts of an error are cut at 256 bytes.
unfoldable pub snippet : Text → Text
unfolding take
snippet b = if leb (length b) 256 then b else take 256 b ++ codes "..."

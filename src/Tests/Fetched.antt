-- ===== src/Tests/Fetched.antt =====
-- A response with a body, to a client whose base URL ends in slashes.
use native.Mathlib.Decide.{ℕ_discrete}
use otel_k8s_graph.Base.{
  ℕ, Text, [], ◌∷◌, Map, Option, some, false, codes, length, Text-discrete, text_DecEq, nat_DecEq,
  ◌≡◌, ◌↔◌, refl,
}
use otel_k8s_graph.Strings.{take}
use otel_k8s_graph.Mcp.Client.{new_graph_client, url, get, fetched, refused, ends_in_slash, get_lem}

abbrev base_url : Text
base_url = codes "http://graph//"

abbrev encode : Map Text Text → Text
encode query = codes "kind=pod"

abbrev send : Text → Option (ℕ × Option Text)
send at = some (200, some (codes "{}"))

abbrev decode : Text → Option ℕ
decode body = some (length body)

abbrev kinds : Map Text Text
kinds = (codes "kind", codes "pod") ∷ []

pods_url :
    url encode send decode (new_graph_client base_url) (codes "/entities") kinds
    ≡ codes "http://graph/entities?kind=pod"
unfolding url new_graph_client Text-discrete
pods_url = refl

missing :
    get encode
      (λ at. some (404, some (codes "no such entity")))
      decode
      (codes "http://graph")
      (codes "/entity/pod:x")
      []
    ≡ refused 404 (codes "no such entity")
unfolding get ℕ_discrete take
missing = refl

get_lem_example :
    (ends_in_slash (new_graph_client base_url) ≡ false)
    × ((get encode send decode (new_graph_client base_url) (codes "/entities") kinds ≡ fetched 2)
        ↔ ((body : Text) × (send
                (url encode send decode (new_graph_client base_url) (codes "/entities") kinds)
              ≡ some (200, some body))
            × (decode (take 4_194_304 body) ≡ some 2)))
get_lem_example = get_lem encode send decode base_url (codes "/entities") kinds 2

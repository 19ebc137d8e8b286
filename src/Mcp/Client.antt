-- ===== src/Mcp/Client.antt =====
-- `GraphClient` of internal/mcp/client.go: the URL of a request, and what becomes of the response.
use otel_k8s_graph.Base.{
  ℕ, Text, [], ◌∷◌, ◌++◌, Map, Option, none, some, Bool, false, codes, text_DecEq, nat_DecEq,
  if◌then◌else◌, ◌==◌, ◌≡◌, ◌↔◌, refl, ◌∙◌, sym, subst, arith, Bool-cases, Option-cases, inl, inr,
  ==→≡, ==→≢,
}
use otel_k8s_graph.Strings.{slash, take}
use otel_k8s_graph.Mcp.{snippet}

-- strings.TrimRight(s, "/")
unfoldable pub trim_slashes : Text → Text
trim_slashes [] = []
trim_slashes (c ∷ s) = elim (trim_slashes s) [
  | [] ↦ if c == slash then [] else c ∷ []
  | d ∷ rest ↦ c ∷ d ∷ rest
]

unfoldable pub new_graph_client : Text → Text
unfolding trim_slashes
new_graph_client base_url =
    trim_slashes (if base_url == [] then codes "http://localhost:8080" else base_url)

-- What `get` returns: the decoded body, or an error of its kind.
pub data Fetched (J : Type 0) : Type 0 where
  fetched : J → Fetched J
  not_sent unreadable : Fetched J
  refused : ℕ → Text → Fetched J
  undecodable : Text → Fetched J

-- `encode` is Encode of url.Values. `send` is a GET: a status and the body, `none` for an error.
-- `decode` is json.Unmarshal into a map.
module _ {J : Type 0} (encode : Map Text Text → Text) (send : Text → Option (ℕ × Option Text))
    (decode : Text → Option J) where
  unfoldable pub url : Text → Text → Map Text Text → Text
  url base path [] = base ++ path
  url base path (kv ∷ query) = base ++ path ++ codes "?" ++ encode (kv ∷ query)

  abbrev pub decoded : Text → Fetched J
  decoded body = elim (decode body) [ none ↦ undecodable (snippet body) | some out ↦ fetched out ]

  abbrev pub read_response : ℕ → Option Text → Fetched J
  read_response status none = unreadable
  read_response status (some body) =
      let cut = take 4_194_304 body in if status == 200 then decoded cut else refused status cut

  unfoldable pub get : Text → Text → Map Text Text → Fetched J
  unfolding url
  get base path query = elim (send (url base path query)) [
    | none ↦ not_sent
    | some (status, body) ↦ read_response status body
  ]

-- Does a text end in a slash?
unfoldable pub ends_in_slash : Text → Bool
ends_in_slash [] = false
ends_in_slash (c ∷ []) = c == slash
ends_in_slash (c ∷ d ∷ s) = ends_in_slash (d ∷ s)

trim_slashes-ends_in_slash : (s : Text) → ends_in_slash (trim_slashes s) ≡ false
unfolding trim_slashes ends_in_slash
trim_slashes-ends_in_slash [] = refl
trim_slashes-ends_in_slash (c ∷ s) = step (trim_slashes s) (trim_slashes-ends_in_slash s)
  where
    step :
        (rest : Text)
        → ends_in_slash rest ≡ false
        → ends_in_slash
            (elim rest [ [] ↦ if c == slash then [] else c ∷ [] | d ∷ more ↦ c ∷ d ∷ more ])
          ≡ false
    step [] h = elim (Bool-cases (c == slash)) [ inl e ↦ rw e refl | inr e ↦ rw e e ]
    step (d ∷ more) h = h

module _ {J : Type 0} (encode : Map Text Text → Text) (send : Text → Option (ℕ × Option Text))
    (decode : Text → Option J) where
  decoded-fetched :
      (body : Text) (out : J)
      → (decoded encode send decode body ≡ fetched out) ↔ (decode body ≡ some out)
  decoded-fetched body out = elim (Option-cases (decode body)) [
    | inl e ↦ ground arith
    | inr (x, e) ↦ ground arith
  ]

  read_response-fetched :
      (status : ℕ) (body : Option Text) (out : J)
      → (read_response encode send decode status body ≡ fetched out)
        ↔ ((b : Text) × (body ≡ some b) × (status ≡ 200) × (decode (take 4_194_304 b) ≡ some out))
  read_response-fetched status none out = (λ h. ground arith, λ (b, e, f, g). ground arith)
  read_response-fetched status (some b) out =
      let (to, from) = decoded-fetched (take 4_194_304 b) out in
      elim (Bool-cases (status == 200)) [
        | inl e ↦ rw e (
          λ h. (b, refl, ==→≡ status 200 e, to h),
          λ (b', f, g, h).
              let same : b' ≡ b = ground arith in
              from (subst (λ x. decode (take 4_194_304 x) ≡ some out) same h),
        )
        | inr e ↦ rw e (λ h. ground arith, λ (b', f, g, h). absurd (==→≢ status 200 e g))
      ]

  -- A request gives a value exactly if it is answered with status 200 and a body whose first 4 MiB can
  -- be decoded to the value; the URL of the server has no slash at its end, before the path.
  pub get_lem :
      (base_url path : Text) (query : Map Text Text) (out : J)
      → (ends_in_slash (new_graph_client base_url) ≡ false)
        × ((get encode send decode (new_graph_client base_url) path query ≡ fetched out) ↔ (
            (body : Text) × (send (url encode send decode (new_graph_client base_url) path query)
              ≡ some (200, some body))
            × (decode (take 4_194_304 body) ≡ some out)))
  unfolding get new_graph_client
  get_lem base_url path query out = (
    trim_slashes-ends_in_slash (if base_url == [] then codes "http://localhost:8080" else base_url),
    elim (Option-cases (send (url encode send decode (new_graph_client base_url) path query))) [
      | inl e ↦ (λ h. ground arith, λ (b, f, g). ground arith)
      | inr ((status, body), e) ↦
          let (to, from) = read_response-fetched status body out in
          let answer = read_response encode send decode status body in
          let step : get encode send decode (new_graph_client base_url) path query ≡ answer =
            ground arith in
          (
            λ h. let (b, at, ok, d) = to (sym step ∙ h) in (b, ground arith, d),
            λ (b, f, g). step ∙ from (b, ground arith, ground arith, g),
          )
    ],
  )

-- ===== src/Reader/Search.antt =====
-- What `Search` of internal/graph/redis.go finds.
use otel_k8s_graph.Base.{
  ℕ, ◌≤◌, Text, List, [], ◌∷◌, Option, none, some, false, text_DecEq, nat_DecEq, length, ◌≡◌, refl,
  ◌∙◌, sym, ap, subst, ◌↔◌, ◌⊎◌, inl, inr, arith, Option-cases,
}
use otel_k8s_graph.Graph.{Kind, Edge, Entity, SearchHit}
use otel_k8s_graph.Strings.{take}
use otel_k8s_graph.Reader.{
  Answers, load_all, matched_in, append_hit, hits_in, get, positive_or, search_key, search_graph,
  list_by_kind,
}
use otel_k8s_graph.Graph.Keys.{key_by_kind}
use otel_k8s_graph.Base.{ℤ}
use otel_k8s_graph.Reader.Sort.{sort_by, text_ltb, IsAscending, sort_by-IsAscending}
use otel_k8s_graph.Reader.Entries.{
  In, load_all-In, sort_by-In, take-In, take-IsAscending, length-take, take_rest,
}
use otel_k8s_graph.Reader.Places.{Place, matched_in-Place}

append_hit-In :
    (hit : SearchHit) (e : Entity) (places : List Text) (hits : List SearchHit)
    → In hit (append_hit e places hits)
    → ((hit.entity ≡ e)
        × (hit.matched_in ≡ sort_by (λ (s : Text). s) places)
        × ((p : Text) × In p places))
      ⊎ In hit hits
append_hit-In hit e [] hits i = inr i
append_hit-In hit e (place ∷ places) hits (inl h) = inl (
  ap (λ (x : SearchHit). x.entity) (sym h),
  ap (λ (x : SearchHit). x.matched_in) (sym h),
  (place, inl refl),
)
append_hit-In hit e (place ∷ places) hits (inr i) = inr i

append_hit-here :
    (e : Entity) (p : Text) (places : List Text) (hits : List SearchHit)
    → In p places
    → (hit : SearchHit) × In hit (append_hit e places hits) × (hit.entity ≡ e)
append_hit-here e p [] hits i = absurd i
append_hit-here e p (q ∷ qs) hits i =
    (record { entity = e; matched_in = sort_by (λ s. s) (q ∷ qs) }, inl refl, refl)

append_hit-later :
    (hit : SearchHit) (e : Entity) (places : List Text) (hits : List SearchHit)
    → In hit hits
    → In hit (append_hit e places hits)
append_hit-later hit e [] hits i = i
append_hit-later hit e (q ∷ qs) hits i = inr i

-- An entity that can be loaded for one of some ids.
abbrev pub IsLoaded : (Text → Option Entity) → List Text → Entity → Type 0
IsLoaded load ids e = (id : Text) × In id ids × (load id ≡ some e)

-- `ListByKind` gives, in ascending order, what can be loaded of the ids of a kind, and nothing if
-- the set of ids cannot be read.
pub list_by_kind_lem :
    (a : Answers) (unmarshal : Text → Option Edge) (prefix : Text) (kind : Kind)
    → ((a.smembers (key_by_kind prefix kind) ≡ none) × (list_by_kind a unmarshal prefix kind ≡ []))
      ⊎ ((ids : List Text) × (a.smembers (key_by_kind prefix kind) ≡ some ids)
          × IsAscending (λ (e : Entity). e.id) (list_by_kind a unmarshal prefix kind)
          × ((e : Entity)
              → In e (list_by_kind a unmarshal prefix kind)
                ↔ IsLoaded (get a unmarshal prefix) ids e))
unfolding list_by_kind
list_by_kind_lem a unmarshal prefix kind =
    elim (Option-cases (a.smembers (key_by_kind prefix kind))) [
      | inl e ↦ inl (e, ground arith)
      | inr (ids, h) ↦
          let by_id : Entity → Text = λ e. e.id in
          let load = get a unmarshal prefix in
          let same : list_by_kind a unmarshal prefix kind ≡ sort_by by_id (load_all load ids) =
            ground arith in
          inr (
            ids,
            h,
            subst (IsAscending by_id) (sym same) (sort_by-IsAscending by_id (load_all load ids)),
            λ e.
                subst (λ es. In e es ↔ IsLoaded load ids e) (sym same)
                  (ground (arith, sort_by-In by_id e (load_all load ids), load_all-In load ids e)),
          )
    ]

-- `to_lower` is strings.ToLower.
module _ (to_lower : Text → Text) where
  -- A hit lists the places of its entity, of which there is one, in ascending order.
  abbrev pub IsHit : Text → SearchHit → Type 0
  IsHit needle hit =
      ((p : Text) × Place to_lower needle hit.entity p)
      × IsAscending (λ (s : Text). s) hit.matched_in
      × ((p : Text) → In p hit.matched_in ↔ Place to_lower needle hit.entity p)

  hits_in_sound :
      (needle : Text) (es : List Entity) (hit : SearchHit)
      → In hit (hits_in to_lower needle es)
      → In hit.entity es × IsHit needle hit
  unfolding hits_in
  hits_in_sound needle [] hit i = absurd i
  hits_in_sound needle (e ∷ es) hit i =
      elim (append_hit-In hit e (matched_in to_lower needle e) (hits_in to_lower needle es) i) [
        | inl (at, places, (p, i')) ↦ (
          inl (sym at),
          rw (at, places)
              (
                (p, (matched_in-Place to_lower needle e p).0 i'),
                sort_by-IsAscending (λ (s : Text). s) (matched_in to_lower needle e),
                λ p. ground (
                  arith,
                  sort_by-In (λ (s : Text). s) p (matched_in to_lower needle e),
                  matched_in-Place to_lower needle e p,
                ),
              ),
        )
        | inr j ↦ let (known, is_hit) = hits_in_sound needle es hit j in (inr known, is_hit)
      ]

  hits_in_complete :
      (needle : Text) (es : List Entity) (e : Entity) (p : Text)
      → In e es
      → Place to_lower needle e p
      → (hit : SearchHit) × In hit (hits_in to_lower needle es) × (hit.entity ≡ e)
  unfolding hits_in
  hits_in_complete needle [] e p i h = absurd i
  hits_in_complete needle (x ∷ es) e p (inl at) h =
      let (hit, i, same) =
        append_hit-here x p (matched_in to_lower needle x) (hits_in to_lower needle es) (
          (matched_in-Place to_lower needle x p).1
            (subst (λ y. Place to_lower needle y p) (sym at) h)) in
      (hit, i, same ∙ at)
  hits_in_complete needle (x ∷ es) e p (inr i) h =
      let (hit, j, same) = hits_in_complete needle es e p i h in
      (
        hit,
        append_hit-later hit x (matched_in to_lower needle x) (hits_in to_lower needle es) j,
        same,
      )

  -- What a search for a text gives, from the entities of some ids: at most `limit` hits, sorted by
  -- their entities' ids. A hit's entity holds the text, and the hit lists the places where it does. Of
  -- the entities that hold it none is missing, unless the limit is met by hits that are not behind it.
  pub record IsSearchResult (load : Text → Option Entity) (ids : List Text) (needle : Text)
      (limit : ℕ) (hits : List SearchHit) : Type 0 where
    pub bounded : length hits ≤ limit
    pub sorted : IsAscending (λ (hit : SearchHit). hit.entity.id) hits
    pub sound : (hit : SearchHit) → In hit hits → IsLoaded load ids hit.entity × IsHit needle hit
    pub complete :
        (e : Entity) (p : Text)
        → IsLoaded load ids e
        → Place to_lower needle e p
        → ((hit : SearchHit) × In hit hits × (hit.entity ≡ e))
          ⊎ ((length hits ≡ limit)
              × ((hit : SearchHit) → In hit hits → text_ltb e.id hit.entity.id ≡ false))

  cut_hits :
      (load : Text → Option Entity) (ids : List Text) (needle : Text) (limit : ℕ)
      → IsSearchResult load ids needle limit (
          take limit (
            sort_by
              (λ (hit : SearchHit). hit.entity.id)
              (hits_in to_lower needle (load_all load ids))))
  cut_hits load ids needle limit =
      let by_id : SearchHit → Text = λ hit. hit.entity.id in
      let es = load_all load ids in
      let hits = sort_by by_id (hits_in to_lower needle es) in
      let ascends = sort_by-IsAscending by_id (hits_in to_lower needle es) in
      record {
        bounded = length-take by_id limit hits;
        sorted = take-IsAscending by_id limit hits ascends;
        sound = λ hit i.
            let j =
              (sort_by-In by_id hit (hits_in to_lower needle es)).0
                (take-In by_id limit hit hits i) in
            let (known, is_hit) = hits_in_sound needle es hit j in
            ((load_all-In load ids hit.entity).0 known, is_hit);
        complete = λ e p known h.
            let (hit, i, same) =
              hits_in_complete needle es e p ((load_all-In load ids e).1 known) h in
            elim (take_rest by_id limit hit hits ascends
              ((sort_by-In by_id hit (hits_in to_lower needle es)).1 i)) [
                | inl j ↦ inl (hit, j, same)
                | inr (full, all) ↦ inr (
                  full,
                  λ y j. subst (λ (x : Entity). text_ltb x.id y.entity.id ≡ false) same (all y j),
                )
              ];
      }

  -- `Search` for a text compares lower-case forms, as ToLower gives them: it looks for the text's among
  -- those of the entities of a kind, or of all of them, and gives at most `limit` hits, or 50 if no
  -- positive limit is asked for. Without a text, or if the set of ids cannot be read, it gives none.
  pub search_graph_lem :
      (a : Answers) (unmarshal : Text → Option Edge) (prefix q : Text) (kind : Kind) (limit : ℤ)
      → (((q ≡ []) ⊎ (a.smembers (search_key a unmarshal prefix kind) ≡ none))
          × (search_graph a unmarshal prefix to_lower q kind limit ≡ []))
        ⊎ ((ids : List Text) × (a.smembers (search_key a unmarshal prefix kind) ≡ some ids)
            × IsSearchResult
                (get a unmarshal prefix)
                ids
                (to_lower q)
                (positive_or 50 limit)
                (search_graph a unmarshal prefix to_lower q kind limit))
  unfolding search_graph
  search_graph_lem a unmarshal prefix [] kind limit = inl (inl refl, refl)
  search_graph_lem a unmarshal prefix (c ∷ q) kind limit =
      elim (Option-cases (a.smembers (search_key a unmarshal prefix kind))) [
        | inl e ↦ inl (inr e, ground arith)
        | inr (ids, e) ↦ inr (
          ids,
          e,
          subst
              (IsSearchResult (get a unmarshal prefix) ids (to_lower (c ∷ q))
                (positive_or 50 limit))
              (ground arith)
              (cut_hits (get a unmarshal prefix) ids (to_lower (c ∷ q)) (positive_or 50 limit)),
        )
      ]

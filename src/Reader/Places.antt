-- ===== src/Reader/Places.antt =====
-- Where an entity holds a text that `Search` of internal/graph/redis.go looks for.
use otel_k8s_graph.Base.{
  Text, List, [], ◌∷◌, ◌++◌, map, Map, Bool, true, false, codes, text_DecEq, nat_DecEq, ◌==◌,
  insert, ◌≡◌, refl, subst, ◌↔◌, ◌⊎◌, inl, inr, arith, Bool-cases,
}
use otel_k8s_graph.Graph.{EdgeKind, Edge, Entity}
use otel_k8s_graph.Reader.{
  holds_text, if_found, metadata_places, edge_kinds, action_place, matched_in,
}
use otel_k8s_graph.Reader.Entries.{In, Among, Among-In, append-In}

module _ (to_lower : Text → Text) where
  -- Where an entity holds a text: the names that a hit lists.
  pub data Place (needle : Text) (e : Entity) : Text → Type 0 where
    at_id : holds_text to_lower needle e.id ≡ true → Place needle e (codes "id")
    at_name : holds_text to_lower needle e.name ≡ true → Place needle e (codes "name")
    at_metadata :
        (key value : Text)
        → In (key, value) e.metadata
        → holds_text to_lower needle value ≡ true
        → Place needle e (codes "metadata." ++ key)
    at_action :
        (edge : Edge)
        → In edge e.edges
        → (edge.action == []) ≡ false
        → holds_text to_lower needle edge.action ≡ true
        → Place needle e (action_place (edge.kind, tt))

  insert-In :
      (p : Text) (kind : EdgeKind) (found : Map EdgeKind (Unit {0}))
      → In p (map action_place (insert kind tt found))
        ↔ (In p (map action_place found) ⊎ (action_place (kind, tt) ≡ p))
  unfolding insert
  insert-In p kind [] = ground arith
  insert-In p kind ((k, u) ∷ found) = ground (arith, insert-In p kind found)

  -- An action that holds the text.
  abbrev AtAction : Text → Text → Edge → Type 0
  AtAction needle p edge =
      ((edge.action == []) ≡ false)
      × (holds_text to_lower needle edge.action ≡ true)
      × (action_place (edge.kind, tt) ≡ p)

  edge_kinds-In :
      (needle p : Text) (es : List Edge) (found : Map EdgeKind (Unit {0}))
      → In p (map action_place (edge_kinds to_lower needle es found))
        ↔ (In p (map action_place found) ⊎ Among (AtAction needle p) es)
  unfolding edge_kinds
  edge_kinds-In needle p [] found = ground arith
  edge_kinds-In needle p (e ∷ es) found =
      let skip = edge_kinds-In needle p es found in
      let take = edge_kinds-In needle p es (insert e.kind tt found) in
      let new = insert-In p e.kind found in
      elim (Bool-cases (e.action == [])) [
        | inl none_here ↦ rw none_here (ground arith)
        | inr action ↦ rw action (elim (Bool-cases (holds_text to_lower needle e.action)) [
          | inl holds ↦ rw holds (ground arith)
          | inr lacks ↦ rw lacks (ground arith)
        ])
      ]

  -- A value that holds the text.
  abbrev AtValue : Text → Text → Text × Text → Type 0
  AtValue needle p (key, value) =
      (holds_text to_lower needle value ≡ true) × (codes "metadata." ++ key ≡ p)

  metadata_places-In :
      (needle p : Text) (md : Map Text Text)
      → In p (metadata_places to_lower needle md) ↔ Among (AtValue needle p) md
  unfolding metadata_places
  metadata_places-In needle p [] = ground arith
  metadata_places-In needle p ((k, v) ∷ md) =
      let rest = metadata_places-In needle p md in
      elim (Bool-cases (holds_text to_lower needle v)) [
        | inl holds ↦ rw holds (ground arith)
        | inr lacks ↦ rw lacks (ground arith)
      ]

  if_found-In : (b : Bool) (p place : Text) → In p (if_found b place) ↔ ((b ≡ true) × (place ≡ p))
  if_found-In true p place = ground arith
  if_found-In false p place = ground arith

  -- A place, as one of four alternatives.
  abbrev AnyPlace : Text → Entity → Text → Type 0
  AnyPlace needle e p =
      ((holds_text to_lower needle e.id ≡ true) × (codes "id" ≡ p))
      ⊎ (((holds_text to_lower needle e.name ≡ true) × (codes "name" ≡ p))
          ⊎ (Among (AtValue needle p) e.metadata ⊎ Among (AtAction needle p) e.edges))

  AnyPlace-Place : (needle : Text) (e : Entity) (p : Text) → AnyPlace needle e p → Place needle e p
  AnyPlace-Place needle e p (inl (h, at)) = subst (Place needle e) at (at_id h)
  AnyPlace-Place needle e p (inr (inl (h, at))) = subst (Place needle e) at (at_name h)
  AnyPlace-Place needle e p (inr (inr (inl m))) =
      let ((key, value), i, (h, at)) = (Among-In (AtValue needle p) e.metadata).0 m in
      subst (Place needle e) at (at_metadata key value i h)
  AnyPlace-Place needle e p (inr (inr (inr m))) =
      let (edge, i, (some_action, h, at)) = (Among-In (AtAction needle p) e.edges).0 m in
      subst (Place needle e) at (at_action edge i some_action h)

  Place-AnyPlace : (needle : Text) (e : Entity) (p : Text) → Place needle e p → AnyPlace needle e p
  Place-AnyPlace needle e p (at_id h) = inl (h, refl)
  Place-AnyPlace needle e p (at_name h) = inr (inl (h, refl))
  Place-AnyPlace needle e p (at_metadata key value i h) =
      inr (inr (inl ((Among-In (AtValue needle p) e.metadata).1 ((key, value), i, (h, refl)))))
  Place-AnyPlace needle e p (at_action edge i some_action h) =
      inr (inr (inr ((Among-In (AtAction needle p) e.edges).1 (edge, i, (some_action, h, refl)))))

  matched_in-AnyPlace :
      (needle : Text) (e : Entity) (p : Text)
      → In p (matched_in to_lower needle e) ↔ AnyPlace needle e p
  unfolding matched_in
  matched_in-AnyPlace needle e p =
      let actions = map action_place (edge_kinds to_lower needle e.edges []) in
      let values = metadata_places to_lower needle e.metadata in
      let name = if_found (holds_text to_lower needle e.name) (codes "name") in
      ground (
        arith,
        append-In p (if_found (holds_text to_lower needle e.id) (codes "id"))
            (name ++ (values ++ actions)),
        append-In p name (values ++ actions),
        append-In p values actions,
        if_found-In (holds_text to_lower needle e.id) p (codes "id"),
        if_found-In (holds_text to_lower needle e.name) p (codes "name"),
        metadata_places-In needle p e.metadata,
        edge_kinds-In needle p e.edges [],
      )

  -- The places of a hit are where the entity holds the text.
  pub matched_in-Place :
      (needle : Text) (e : Entity) (p : Text)
      → In p (matched_in to_lower needle e) ↔ Place needle e p
  matched_in-Place needle e p =
      let (to, from) = matched_in-AnyPlace needle e p in
      (λ i. AnyPlace-Place needle e p (to i), λ h. from (Place-AnyPlace needle e p h))

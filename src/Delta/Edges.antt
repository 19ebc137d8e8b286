-- ===== src/Delta/Edges.antt =====
-- What the commands of a difference do to the set of edges of one entity.
use otel_k8s_graph.Base.{
  ℕ, Text, [], ◌∷◌, ◌++◌, Map, Option, none, some, Bool, true, false, not, ◌&&◌, codes, text_DecEq,
  nat_DecEq, if◌then◌else◌, ◌==◌, is_some, lookup, ◌≡◌, refl, ◌≢◌, arith, inl, inr, Bool-cases,
  ==_refl,
}
use otel_k8s_graph.Graph.{Edge, Time}
use otel_k8s_graph.Graph.Keys.{
  key_edges, key_ids-distinct, key_by_kind-distinct, key_metadata-ne-key_edges,
  key_entity-eq-key_edges, key_edges-injective,
}
use otel_k8s_graph.BatchSet.{EntitySetVal, EdgeSetKey, BatchWriteSet, edge_key_DecEq}
use otel_k8s_graph.Redis.{members, members-append}
use otel_k8s_graph.Delta.{edge_of, metadata_cmds}
use otel_k8s_graph.Delta.Commands.{
  gather, entity_added, entity_removed, edge_added, edge_removed, delta_commands,
}

-- The texts of an edge are valid UTF-8; `is_utf8` is utf8.ValidString.
abbrev pub is_valid : (Text → Bool) → Edge → Bool
is_valid is_utf8 e = is_utf8 e.kind && (is_utf8 e.to_resource && is_utf8 e.action)

-- Different edges have different JSON, if their texts are valid UTF-8. (Of other texts json.Marshal
-- writes U+FFFD for what is not valid, so that two may have the same.)
abbrev pub IsInjective : (Text → Bool) → (Edge → Text) → Type 0
IsInjective is_utf8 marshal =
    (e g : Edge)
    → is_valid is_utf8 e ≡ true
    → is_valid is_utf8 g ≡ true
    → marshal e ≡ marshal g
    → e ≡ g

abbrev pub HasValidEdges : (Text → Bool) → Map EdgeSetKey Time → Type 0
HasValidEdges is_utf8 edges =
    (g : EdgeSetKey) → is_some (lookup g edges) ≡ true → is_valid is_utf8 (edge_of g) ≡ true

module _ (is_utf8 : Text → Bool) (marshal : Edge → Text) (inj : IsInjective is_utf8 marshal)
    (prefix : Text) (ms : ℕ) (s prev : BatchWriteSet) (k : EdgeSetKey)
    (valid : is_valid is_utf8 (edge_of k) ≡ true) where
  abbrev key : Text
  key = key_edges prefix k.from

  abbrev json : Text
  json = marshal (edge_of k)

  metadata-edges :
      (j : Text) (o : Option (Map Text Text)) (b : Bool)
      → members key json (metadata_cmds prefix j o) b ≡ b
  unfolding members
  metadata-edges j none b = refl
  metadata-edges j (some []) b = refl
  metadata-edges j (some (kv ∷ md)) b = refl

  added-edges :
      (j : Text) (e : EntitySetVal) (b : Bool)
      → members key json (entity_added marshal prefix ms s prev (j, e)) b ≡ b
  unfolding members
  added-edges j e b = ground (
    arith,
    key_ids-distinct prefix k.from e.kind,
    key_by_kind-distinct prefix k.from e.kind,
    metadata-edges j (lookup j s.metas) b,
  )

  gather_added-edges :
      (es : Map Text EntitySetVal) (b : Bool)
      → members key json (gather (entity_added marshal prefix ms s prev) es) b ≡ b
  unfolding members
  gather_added-edges [] b = refl
  gather_added-edges ((j, e) ∷ es) b =
      rw
        (
          members-append key json (entity_added marshal prefix ms s prev (j, e))
              (gather (entity_added marshal prefix ms s prev) es) b,
          added-edges j e b,
        )
        (gather_added-edges es b)

  removed-edges :
      (j : Text) (e : EntitySetVal) (b : Bool)
      → j ≢ k.from ++ codes ":edges"
      → members key json (entity_removed marshal prefix ms s prev (j, e)) b
        ≡ (if not (is_some (lookup j s.entities)) && j == k.from then false else b)
  unfolding members
  removed-edges j e b h = ground (
    arith,
    key_ids-distinct prefix k.from e.kind,
    key_by_kind-distinct prefix k.from e.kind,
    key_metadata-ne-key_edges prefix j k.from,
    key_entity-eq-key_edges prefix j k.from,
    key_edges-injective prefix j k.from,
  )

  gather_removed-edges :
      (es : Map Text EntitySetVal) (b : Bool)
      → lookup (k.from ++ codes ":edges") es ≡ none
      → members key json (gather (entity_removed marshal prefix ms s prev) es) b ≡ (
          if is_some (lookup k.from es) && not (is_some (lookup k.from s.entities))
          then false
          else b)
  unfolding members lookup
  gather_removed-edges [] b h = refl
  gather_removed-edges ((j, e) ∷ es) b h =
      let cs = entity_removed marshal prefix ms s prev (j, e) in
      ground (
        arith,
        members-append key json cs (gather (entity_removed marshal prefix ms s prev) es) b,
        gather_removed-edges es (members key json cs b),
        removed-edges j e b,
      )

  same_json :
      (g : EdgeSetKey)
      → is_valid is_utf8 (edge_of g) ≡ true
      → (key_edges prefix g.from == key && marshal (edge_of g) == json) ≡ (g == k)
  same_json g ok =
      ground (arith, key_edges-injective prefix g.from k.from, inj (edge_of g) (edge_of k) ok valid)

  -- If a list's edges have valid texts, the first one has, and so have the others.
  tail-HasValidEdges :
      (g : EdgeSetKey) (t : Time) (es : Map EdgeSetKey Time)
      → HasValidEdges is_utf8 ((g, t) ∷ es)
      → (is_valid is_utf8 (edge_of g) ≡ true) × HasValidEdges is_utf8 es
  unfolding lookup
  tail-HasValidEdges g t es h = (
    h g (rw (==_refl g) refl),
    λ j i. h j (elim (Bool-cases (g == j)) [ inl e ↦ rw e refl | inr e ↦ rw e i ]),
  )

  edge_added-edges :
      (g : EdgeSetKey) (t : Time) (b : Bool)
      → is_valid is_utf8 (edge_of g) ≡ true
      → members key json (edge_added marshal prefix ms s prev (g, t)) b
        ≡ (if not (is_some (lookup g prev.edges)) && g == k then true else b)
  unfolding members
  edge_added-edges g t b ok = ground (arith, same_json g ok)

  edge_removed-edges :
      (g : EdgeSetKey) (t : Time) (b : Bool)
      → is_valid is_utf8 (edge_of g) ≡ true
      → members key json (edge_removed marshal prefix ms s prev (g, t)) b
        ≡ (if not (is_some (lookup g s.edges)) && g == k then false else b)
  unfolding members
  edge_removed-edges g t b ok = ground (arith, same_json g ok)

  gather-edge_added-edges :
      (es : Map EdgeSetKey Time) (b : Bool)
      → HasValidEdges is_utf8 es
      → members key json (gather (edge_added marshal prefix ms s prev) es) b
        ≡ (if is_some (lookup k es) && not (is_some (lookup k prev.edges)) then true else b)
  unfolding members lookup
  gather-edge_added-edges [] b h = refl
  gather-edge_added-edges ((g, t) ∷ es) b h =
      let (ok, h') = tail-HasValidEdges g t es h in
      let cs = edge_added marshal prefix ms s prev (g, t) in
      ground (
        arith,
        members-append key json cs (gather (edge_added marshal prefix ms s prev) es) b,
        gather-edge_added-edges es (members key json cs b) h',
        edge_added-edges g t b ok,
      )

  gather-edge_removed-edges :
      (es : Map EdgeSetKey Time) (b : Bool)
      → HasValidEdges is_utf8 es
      → members key json (gather (edge_removed marshal prefix ms s prev) es) b
        ≡ (if is_some (lookup k es) && not (is_some (lookup k s.edges)) then false else b)
  unfolding members lookup
  gather-edge_removed-edges [] b h = refl
  gather-edge_removed-edges ((g, t) ∷ es) b h =
      let (ok, h') = tail-HasValidEdges g t es h in
      let cs = edge_removed marshal prefix ms s prev (g, t) in
      ground (
        arith,
        members-append key json cs (gather (edge_removed marshal prefix ms s prev) es) b,
        gather-edge_removed-edges es (members key json cs b) h',
        edge_removed-edges g t b ok,
      )

  -- The commands of a difference add the edges that are new and remove those that are gone, if no
  -- edge that stays leaves from an entity that goes.
  pub delta_commands-edges :
      (b : Bool)
      → HasValidEdges is_utf8 s.edges
      → HasValidEdges is_utf8 prev.edges
      → lookup (k.from ++ codes ":edges") prev.entities ≡ none
      → (is_some (lookup k s.edges) ≡ true
          → is_some (lookup k.from prev.entities) ≡ true
          → is_some (lookup k.from s.entities) ≡ true)
      → is_some (lookup k prev.edges) ≡ b
      → members key json (delta_commands marshal prefix ms s prev) b ≡ is_some (lookup k s.edges)
  unfolding delta_commands
  delta_commands-edges b new old free stays mirror =
      let c1 = gather (entity_added marshal prefix ms s prev) s.entities in
      let c2 = gather (entity_removed marshal prefix ms s prev) prev.entities in
      let c3 = gather (edge_added marshal prefix ms s prev) s.edges in
      let c4 = gather (edge_removed marshal prefix ms s prev) prev.edges in
      let b2 = members key json c2 b in
      let b3 = members key json c3 b2 in
      rw
        (
          members-append key json (c1 ++ c2 ++ c3) c4 b,
          members-append key json (c1 ++ c2) c3 b,
          members-append key json c1 c2 b,
          gather_added-edges s.entities b,
        )
        (ground (
          arith,
          gather_removed-edges prev.entities b free,
          gather-edge_added-edges s.edges b2 new,
          gather-edge_removed-edges prev.edges b3 old,
        ))

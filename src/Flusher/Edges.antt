-- ===== src/Flusher/Edges.antt =====
-- What a flush makes of the sets of edges.
use otel_k8s_graph.Base.{
  ℕ, Text, ◌++◌, none, some, Bool, true, codes, text_DecEq, nat_DecEq, is_some, lookup, ◌≡◌, sym,
  inl, inr, ◌∙◌, arith, Option-cases,
}
use otel_k8s_graph.Graph.{Edge, Time}
use otel_k8s_graph.Graph.Keys.{key_edges}
use otel_k8s_graph.BatchSet.{EdgeSetKey, edge_key_DecEq, BatchWriteSet}
use otel_k8s_graph.Receiver.Invariant.{IsRelationshipSet}
use otel_k8s_graph.Redis.{Redis, IsLawful, run_all-members}
use otel_k8s_graph.Delta.{edge_of, write_delta_to_redis}
use otel_k8s_graph.Delta.Edges.{IsInjective, is_valid, HasValidEdges, delta_commands-edges}
use otel_k8s_graph.Delta.Commands.{delta_commands}
use otel_k8s_graph.Delta.Effect.{write_delta-commands}

-- No entity has the key of another one's edges.
abbrev pub LacksEdgesIds : BatchWriteSet → Type 0
LacksEdgesIds s = (id : Text) → lookup (id ++ codes ":edges") s.entities ≡ none

-- An edge that is still there leaves from an entity that is still there, if it was an owned one.
edge_stays :
    (now before : Time) (s prev : BatchWriteSet) (k : EdgeSetKey)
    → IsRelationshipSet now s
    → IsRelationshipSet before prev
    → is_some (lookup k s.edges) ≡ true
    → is_some (lookup k.from prev.entities) ≡ true
    → is_some (lookup k.from s.entities) ≡ true
edge_stays now before s prev k hs hp h f = elim (Option-cases (lookup k s.edges)) [
  | inl e ↦ ground arith
  | inr (t, e) ↦ elim (Option-cases (lookup k.from prev.entities)) [
    | inl g ↦ ground arith
    | inr (v, g) ↦
        let (w, seen, later) = hs.anchored k t e in
        let owned = (hp.owned k.from v g).0 in ground (arith, seen, owned)
  ]
]

module _ (r : Redis) (law : IsLawful r) (is_utf8 : Text → Bool) (marshal : Edge → Text)
    (inj : IsInjective is_utf8 marshal) (prefix : Text) where
  -- If the sets of edges held the previous edges, then after a flush without an error they hold the
  -- current ones, all with valid texts.
  pub write_delta-edges :
      (chunk_size ms : ℕ) (now before : Time) (s prev : BatchWriteSet) (db : r.Db) (k : EdgeSetKey)
      → IsRelationshipSet now s
      → IsRelationshipSet before prev
      → LacksEdgesIds prev
      → HasValidEdges is_utf8 s.edges
      → HasValidEdges is_utf8 prev.edges
      → is_valid is_utf8 (edge_of k) ≡ true
      → r.sismember db (key_edges prefix k.from) (marshal (edge_of k))
        ≡ is_some (lookup k prev.edges)
      → (write_delta_to_redis r marshal prefix chunk_size ms s (some prev) db).2 ≡ true
      → r.sismember
          (write_delta_to_redis r marshal prefix chunk_size ms s (some prev) db).0
          (key_edges prefix k.from)
          (marshal (edge_of k))
        ≡ is_some (lookup k s.edges)
  write_delta-edges chunk_size ms now before s prev db k hs hp free new old valid mirror h =
      let after = (write_delta_to_redis r marshal prefix chunk_size ms s (some prev) db).0 in
      let key = key_edges prefix k.from in
      let json = marshal (edge_of k) in
      let ran =
        run_all-members r law (delta_commands marshal prefix ms s prev) db after key json
          (write_delta-commands r law marshal prefix chunk_size ms s (some prev) db h).0 in
      ran
      ∙ delta_commands-edges is_utf8 marshal inj prefix ms s prev k valid (r.sismember db key json)
          new old (free k.from) (edge_stays now before s prev k hs hp) (sym mirror)

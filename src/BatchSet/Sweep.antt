-- ===== src/BatchSet/Sweep.antt =====
-- The two loops of `Expire`: what they leave is the set without its stale entries.
use otel_k8s_graph.Base.{
  ℕ, suc, ◌+◌, Text, [], ◌∷◌, ◌++◌, append_assoc, Map, Option, none, some, Bool, false, text_DecEq,
  if◌then◌else◌, ltb, lookup, delete, reject, count, ◌≡◌, refl, arith, lookup-delete, HasUniqueKeys,
  HasUniqueKeys-drop, delete-middle,
}
use otel_k8s_graph.Graph.{Time}
use otel_k8s_graph.BatchSet.{
  EntitySetVal, EdgeSetKey, BatchWriteSet, edge_key_DecEq, expire_entities, expire_edges,
}

abbrev pub is_stale : Time → EntitySetVal → Bool
is_stale cutoff v = ltb v.last_seen cutoff

abbrev pub is_stale_edge : Time → Time → Bool
is_stale_edge cutoff last_seen = ltb last_seen cutoff

abbrev pub holds {ℓ} : {A : Type ℓ} → (A → Bool) → Option A → Bool
holds p none = false
holds p (some a) = p a

module _ (cutoff : Time) where
  pub expire_entities_lem :
      (rest kept : Map Text EntitySetVal) (s : BatchWriteSet) (n : ℕ)
      → s.entities ≡ kept ++ rest
      → HasUniqueKeys (kept ++ rest)
      → ((expire_entities cutoff rest (s, n)).0.entities ≡ kept ++ reject (is_stale cutoff) rest)
        × ((expire_entities cutoff rest (s, n)).0.edges ≡ s.edges)
        × ((expire_entities cutoff rest (s, n)).1 ≡ n + count (is_stale cutoff) rest)
  unfolding expire_entities reject count
  expire_entities_lem [] kept s n p u = (p, refl, omega arith)
  expire_entities_lem ((k, v) ∷ rest) kept s n p u = ground (
    arith,
    expire_entities_lem rest kept
        (record s { entities = delete k s.entities; metas = delete k s.metas }) (suc n),
    expire_entities_lem rest (kept ++ (k, v) ∷ []) s n,
    delete-middle kept k v rest u,
    HasUniqueKeys-drop kept k v rest u,
    append_assoc kept ((k, v) ∷ []) rest,
    append_assoc kept ((k, v) ∷ []) (reject (is_stale cutoff) rest),
  )

  pub expire_edges_lem :
      (rest kept : Map EdgeSetKey Time) (s : BatchWriteSet) (n : ℕ)
      → s.edges ≡ kept ++ rest
      → HasUniqueKeys (kept ++ rest)
      → ((expire_edges cutoff rest (s, n)).0.edges ≡ kept ++ reject (is_stale_edge cutoff) rest)
        × ((expire_edges cutoff rest (s, n)).0.entities ≡ s.entities)
        × ((expire_edges cutoff rest (s, n)).0.metas ≡ s.metas)
        × ((expire_edges cutoff rest (s, n)).1 ≡ n + count (is_stale_edge cutoff) rest)
  unfolding expire_edges reject count
  expire_edges_lem [] kept s n p u = (p, refl, refl, omega arith)
  expire_edges_lem ((k, t) ∷ rest) kept s n p u = ground (
    arith,
    expire_edges_lem rest kept (record s { edges = delete k s.edges }) (suc n),
    expire_edges_lem rest (kept ++ (k, t) ∷ []) s n,
    delete-middle kept k t rest u,
    HasUniqueKeys-drop kept k t rest u,
    append_assoc kept ((k, t) ∷ []) rest,
    append_assoc kept ((k, t) ∷ []) (reject (is_stale_edge cutoff) rest),
  )

  -- The first loop drops the metadata of the entities that it drops.
  pub expire_entities-metas :
      (rest : Map Text EntitySetVal) (s : BatchWriteSet) (n : ℕ) (id : Text)
      → HasUniqueKeys rest
      → lookup id (expire_entities cutoff rest (s, n)).0.metas
        ≡ (if holds (is_stale cutoff) (lookup id rest) then none else lookup id s.metas)
  unfolding expire_entities lookup
  expire_entities-metas [] s n id u = refl
  expire_entities-metas ((k, v) ∷ rest) s n id (new, u) = ground (
    arith,
    expire_entities-metas rest
        (record s { entities = delete k s.entities; metas = delete k s.metas }) (suc n) id u,
    expire_entities-metas rest s n id u,
    lookup-delete k id s.metas,
  )

-- ===== src/BatchSet/Reads.antt =====
-- What the accumulator holds after each operation, entry by entry.
use otel_k8s_graph.Base.{
  ℕ, ◌+◌, Text, [], ◌∷◌, Map, Option, none, some, text_DecEq, if◌then◌else◌, ◌==◌, ◌or_else◌,
  map_option, unless, lookup, insert_all, length, reject, count, ◌≡◌, refl, ap, ◌≢◌, arith,
  lookup-insert, HasUniqueKeys, lookup-insert_all, lookup-reject, count-reject,
}
use otel_k8s_graph.Graph.{Time}
use otel_k8s_graph.BatchSet.{
  EdgeSetKey, BatchWriteSet, edge_key_DecEq, copy_non_empty, store_metadata, set_metadata,
  merge_metas, stamp, merge, expire_entities, expire,
}
use otel_k8s_graph.BatchSet.Sweep.{
  is_stale, is_stale_edge, holds, expire_entities_lem, expire_edges_lem, expire_entities-metas,
}

-- What `SetMetadata` keeps of a map: nothing, or a copy without the empty values.
abbrev pub non_empty : Map Text Text → Option (Map Text Text)
non_empty [] = none
non_empty (kv ∷ m) = some (kv ∷ m)

unfoldable pub recorded : Option (Map Text Text) → Option (Map Text Text)
recorded none = none
recorded (some md) = non_empty (copy_non_empty md [])

lookup-store_metadata :
    (id j : Text) (md : Map Text Text) (s : BatchWriteSet)
    → lookup j s.metas ≡ none
    → lookup j (store_metadata id md s).metas ≡ (if id == j then non_empty md else none)
unfolding store_metadata
lookup-store_metadata id j [] s h = ground arith
lookup-store_metadata id j (kv ∷ m) s h = ground (arith, lookup-insert id j (kv ∷ m) s.metas)

store_metadata-frame :
    (id j : Text) (md : Map Text Text) (s : BatchWriteSet)
    → id ≢ j
    → lookup j (store_metadata id md s).metas ≡ lookup j s.metas
unfolding store_metadata
store_metadata-frame id j [] s h = refl
store_metadata-frame id j (kv ∷ m) s h = ground (arith, lookup-insert id j (kv ∷ m) s.metas)

-- The first metadata that is recorded for an entity stays; other entities keep theirs.
pub lookup-set_metadata :
    (id j : Text) (md : Map Text Text) (s : BatchWriteSet)
    → lookup j (set_metadata id md s).metas
      ≡ (lookup j s.metas or_else (if id == j then recorded (some md) else none))
unfolding set_metadata recorded copy_non_empty
lookup-set_metadata id j [] s = ground arith
lookup-set_metadata id j (kv ∷ md) s = ground (
  arith,
  lookup-store_metadata id j (copy_non_empty (kv ∷ md) []) s,
  store_metadata-frame id j (copy_non_empty (kv ∷ md) []) s,
)

pub set_metadata-rest :
    (id : Text) (md : Map Text Text) (s : BatchWriteSet)
    → ((set_metadata id md s).entities ≡ s.entities) × ((set_metadata id md s).edges ≡ s.edges)
unfolding set_metadata store_metadata
set_metadata-rest id [] s = (refl, refl)
set_metadata-rest id (kv ∷ md) s = ground arith

pub merge_metas-rest :
    (m : Map Text (Map Text Text)) (s : BatchWriteSet)
    → ((merge_metas m s).entities ≡ s.entities) × ((merge_metas m s).edges ≡ s.edges)
unfolding merge_metas
merge_metas-rest [] s = (refl, refl)
merge_metas-rest ((id, md) ∷ m) s =
    ground (arith, merge_metas-rest m (set_metadata id md s), set_metadata-rest id md s)

lookup-merge_metas :
    (m : Map Text (Map Text Text)) (s : BatchWriteSet) (j : Text)
    → HasUniqueKeys m
    → lookup j (merge_metas m s).metas ≡ (lookup j s.metas or_else recorded (lookup j m))
unfolding merge_metas lookup recorded
lookup-merge_metas [] s j u = ground arith
lookup-merge_metas ((id, md) ∷ m) s j (new, u) =
    ground (arith, lookup-merge_metas m (set_metadata id md s) j u, lookup-set_metadata id j md s)

module _ (other s : BatchWriteSet) (now : Time) where
  -- If no id stands twice in the other set, then after a merge an entity of the other set is there,
  -- with its kind and name and the time of the merge, and any other is as before.
  pub merge-entities :
      (id : Text)
      → HasUniqueKeys other.entities
      → lookup id (merge (some other) now s).entities
        ≡ (map_option (stamp now) (lookup id other.entities) or_else lookup id s.entities)
  unfolding merge
  merge-entities id u = ground (
    arith,
    merge_metas-rest other.metas (record s {
      entities = insert_all (stamp now) other.entities s.entities;
      edges = insert_all (λ _. now) other.edges s.edges;
    }),
    lookup-insert_all (stamp now) other.entities s.entities id u,
  )

  -- If no edge stands twice in the other set, then after a merge an edge of the other set is there,
  -- seen at the time of the merge, and any other is as before.
  pub merge-edges :
      (k : EdgeSetKey)
      → HasUniqueKeys other.edges
      → lookup k (merge (some other) now s).edges
        ≡ (map_option (λ _. now) (lookup k other.edges) or_else lookup k s.edges)
  unfolding merge
  merge-edges k u = ground (
    arith,
    merge_metas-rest other.metas (record s {
      entities = insert_all (stamp now) other.entities s.entities;
      edges = insert_all (λ _. now) other.edges s.edges;
    }),
    lookup-insert_all (λ (_ : Time). now) other.edges s.edges k u,
  )

  -- If no id stands twice in the other set, then after a merge an entity keeps the metadata that it
  -- had; one that had none has the non-empty values of the other set, if there are any.
  merge-metas :
      (id : Text)
      → HasUniqueKeys other.metas
      → lookup id (merge (some other) now s).metas
        ≡ (lookup id s.metas or_else recorded (lookup id other.metas))
  unfolding merge
  merge-metas id u =
      lookup-merge_metas other.metas
        (record s {
          entities = insert_all (stamp now) other.entities s.entities;
          edges = insert_all (λ _. now) other.edges s.edges;
        })
        id u

  -- If no key stands twice in the other set, then after a merge an entity of the other set is there
  -- with its kind and name and the time of the merge, an edge of the other set with that time, and
  -- metadata of the other set where there was none, less its empty values; all else is as before.
  pub merge_lem :
      HasUniqueKeys other.entities
      → HasUniqueKeys other.edges
      → HasUniqueKeys other.metas
      → ((id : Text)
          → lookup id (merge (some other) now s).entities
            ≡ (map_option (stamp now) (lookup id other.entities) or_else lookup id s.entities))
        × ((k : EdgeSetKey)
            → lookup k (merge (some other) now s).edges
              ≡ (map_option (λ _. now) (lookup k other.edges) or_else lookup k s.edges))
        × ((id : Text)
            → lookup id (merge (some other) now s).metas
              ≡ (lookup id s.metas or_else recorded (lookup id other.metas)))
  merge_lem u v w = (λ id. merge-entities id u, λ k. merge-edges k v, λ id. merge-metas id w)

-- What `Expire` leaves, and how many entries it dropped.
pub record Expired (cutoff : Time) (s t : BatchWriteSet) (entities edges : ℕ) : Type 0 where
  pub entity_kept :
      (id : Text) → lookup id t.entities ≡ unless (is_stale cutoff) (lookup id s.entities)
  pub edge_kept :
      (k : EdgeSetKey) → lookup k t.edges ≡ unless (is_stale_edge cutoff) (lookup k s.edges)
  pub meta_kept :
      (id : Text)
      → lookup id t.metas
        ≡ (if holds (is_stale cutoff) (lookup id s.entities) then none else lookup id s.metas)
  pub entity_count : entities + length t.entities ≡ length s.entities
  pub edge_count : edges + length t.edges ≡ length s.edges

module _ (cutoff : Time) (s : BatchWriteSet) where
  abbrev first : BatchWriteSet × ℕ
  first = expire_entities cutoff s.entities (s, 0)

  pub expire-shape :
      HasUniqueKeys s.entities
      → HasUniqueKeys s.edges
      → ((expire cutoff s).0.entities ≡ reject (is_stale cutoff) s.entities)
        × ((expire cutoff s).0.edges ≡ reject (is_stale_edge cutoff) s.edges)
        × ((expire cutoff s).0.metas ≡ first.0.metas)
        × ((expire cutoff s).1 ≡ count (is_stale cutoff) s.entities)
        × ((expire cutoff s).2 ≡ count (is_stale_edge cutoff) s.edges)
  unfolding expire
  expire-shape u w =
      let one = expire_entities_lem cutoff s.entities [] s 0 refl u in
      let two = expire_edges_lem cutoff first.0.edges [] first.0 0 refl (rw one.1 w) in
      ground (arith, one, two)

  -- If no id and no edge stands twice in the set, `Expire` drops exactly the entities and edges last
  -- seen before the cutoff, and the metadata of the entities that it drops; what is left is as
  -- before, and the counts are exact.
  pub expire-exact :
      HasUniqueKeys s.entities
      → HasUniqueKeys s.edges
      → Expired cutoff s (expire cutoff s).0 (expire cutoff s).1 (expire cutoff s).2
  expire-exact u w =
      let shape = expire-shape u w in
      record {
        entity_kept = λ id. rw shape.0 (lookup-reject (is_stale cutoff) s.entities id u);
        edge_kept = λ k. rw shape.1 (lookup-reject (is_stale_edge cutoff) s.edges k w);
        meta_kept = λ id. rw shape.2 (expire_entities-metas cutoff s.entities s 0 id u);
        entity_count =
            omega (arith, shape.3, ap length shape.0, count-reject (is_stale cutoff) s.entities);
        edge_count =
            omega (arith, shape.4, ap length shape.1, count-reject (is_stale_edge cutoff) s.edges);
      }

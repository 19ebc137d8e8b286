-- ===== src/BatchSet/WellFormed.antt =====
-- Every operation keeps the accumulator a tuple of maps with distinct keys, whose metadata are
-- non-empty maps of non-empty values.
use otel_k8s_graph.Base.{
  ℕ, suc, Text, List, [], ◌∷◌, Map, Option, none, some, text_DecEq, lookup, insert, delete, ◌≡◌,
  subst, ◌≢◌, arith, lookup-insert, HasUniqueKeys, insert-HasUniqueKeys, delete-HasUniqueKeys,
  insert_all-HasUniqueKeys, reject-HasUniqueKeys,
}
use otel_k8s_graph.Graph.{Kind, Time, EdgeTo}
use otel_k8s_graph.BatchSet.{
  EntitySetVal, BatchWriteSet, new_batch_write_set, edge_key_DecEq, edge_set_key, zero_time, upsert,
  add_edges, upsert_targets, upsert_with_edges, copy_non_empty, store_metadata, set_metadata,
  merge_metas, stamp, merge, expire_entities, expire,
}
use otel_k8s_graph.BatchSet.Sweep.{is_stale, is_stale_edge}
use otel_k8s_graph.BatchSet.Reads.{
  expire-shape, expire-exact, set_metadata-rest, lookup-set_metadata, recorded, non_empty,
}

pub record IsMetadata (md : Map Text Text) : Type 0 where
  pub unique : HasUniqueKeys md
  pub some_entry : md ≢ []
  pub some_values : (k : Text) → lookup k md ≢ some []

pub record IsWellFormed (s : BatchWriteSet) : Type 0 where
  pub entities : HasUniqueKeys s.entities
  pub edges : HasUniqueKeys s.edges
  pub metas : HasUniqueKeys s.metas
  pub values : (id : Text) (md : Map Text Text) → lookup id s.metas ≡ some md → IsMetadata md

-- A new set is well formed.
pub new-IsWellFormed : IsWellFormed new_batch_write_set
unfolding lookup
new-IsWellFormed = record { entities = tt; edges = tt; metas = tt; values = λ id md h. cc }

pub upsert-IsWellFormed :
    (id : Text) (kind : Kind) (name : Text) {s : BatchWriteSet}
    → IsWellFormed s
    → IsWellFormed (upsert id kind name s)
unfolding upsert
upsert-IsWellFormed id kind name {s} h = record {
  entities = insert-HasUniqueKeys id _ s.entities h.entities;
  edges = h.edges;
  metas = h.metas;
  values = h.values;
}

pub add_edges-IsWellFormed :
    (from_id : Text) (es : List EdgeTo) {s : BatchWriteSet}
    → IsWellFormed s
    → IsWellFormed (add_edges from_id es s)
unfolding add_edges
add_edges-IsWellFormed from_id [] h = h
add_edges-IsWellFormed from_id (e ∷ es) {s} h = add_edges-IsWellFormed from_id es (record {
  entities = h.entities;
  edges = insert-HasUniqueKeys (edge_set_key from_id e) zero_time s.edges h.edges;
  metas = h.metas;
  values = h.values;
})

upsert_targets-IsWellFormed :
    (from_id : Text) (es : List EdgeTo) {s : BatchWriteSet}
    → IsWellFormed s
    → IsWellFormed (upsert_targets from_id es s)
unfolding upsert_targets
upsert_targets-IsWellFormed from_id [] h = h
upsert_targets-IsWellFormed from_id (e ∷ es) {s} h =
    upsert_targets-IsWellFormed from_id es (record {
      entities = insert-HasUniqueKeys e.to_id _ s.entities h.entities;
      edges = insert-HasUniqueKeys (edge_set_key from_id e) zero_time s.edges h.edges;
      metas = h.metas;
      values = h.values;
    })

pub upsert_with_edges-IsWellFormed :
    (id : Text) (kind : Kind) (name : Text) (es : List EdgeTo) {s : BatchWriteSet}
    → IsWellFormed s
    → IsWellFormed (upsert_with_edges id kind name es s)
unfolding upsert_with_edges
upsert_with_edges-IsWellFormed id kind name es h =
    upsert_targets-IsWellFormed id es (upsert-IsWellFormed id kind name h)

copy_non_empty_unique :
    (md m : Map Text Text) → HasUniqueKeys m → HasUniqueKeys (copy_non_empty md m)
unfolding copy_non_empty
copy_non_empty_unique [] m u = u
copy_non_empty_unique ((k, []) ∷ md) m u = copy_non_empty_unique md m u
copy_non_empty_unique ((k, c ∷ v) ∷ md) m u =
    copy_non_empty_unique md (insert k (c ∷ v) m) (insert-HasUniqueKeys k (c ∷ v) m u)

copy_non_empty-values :
    (md m : Map Text Text)
    → ((k : Text) → lookup k m ≢ some [])
    → (k : Text) → lookup k (copy_non_empty md m) ≢ some []
unfolding copy_non_empty
copy_non_empty-values [] m h = h
copy_non_empty-values ((j, []) ∷ md) m h = copy_non_empty-values md m h
copy_non_empty-values ((j, c ∷ v) ∷ md) m h =
    copy_non_empty-values md (insert j (c ∷ v) m)
      (λ k p. ground (arith, h k, lookup-insert j k (c ∷ v) m))

recorded-IsMetadata :
    (o : Option (Map Text Text)) (md : Map Text Text) → recorded o ≡ some md → IsMetadata md
unfolding recorded lookup
recorded-IsMetadata none md p = cc
recorded-IsMetadata (some raw) md p =
    let e = non_empty-eq (copy_non_empty raw []) md p in
    record {
      unique = subst HasUniqueKeys (e.0) (copy_non_empty_unique raw [] tt);
      some_entry = e.1;
      some_values =
          λ k. subst (λ m. lookup k m ≢ some []) (e.0) (copy_non_empty-values raw [] (λ j q. cc) k);
    }
  where
    non_empty-eq : (m md : Map Text Text) → non_empty m ≡ some md → (m ≡ md) × (md ≢ [])
    non_empty-eq [] md q = cc
    non_empty-eq (kv ∷ m) md q = (cc, λ r. cc)

store_metadata_unique :
    (id : Text) (md : Map Text Text) (s : BatchWriteSet)
    → HasUniqueKeys s.metas
    → HasUniqueKeys (store_metadata id md s).metas
unfolding store_metadata
store_metadata_unique id [] s u = u
store_metadata_unique id (kv ∷ md) s u = insert-HasUniqueKeys id (kv ∷ md) s.metas u

set_metadata_unique :
    (id : Text) (md : Map Text Text) (s : BatchWriteSet)
    → HasUniqueKeys s.metas
    → HasUniqueKeys (set_metadata id md s).metas
unfolding set_metadata
set_metadata_unique id [] s u = u
set_metadata_unique id (kv ∷ md) s u =
    ground (arith, store_metadata_unique id (copy_non_empty (kv ∷ md) []) s u)

pub set_metadata-IsWellFormed :
    (id : Text) (md : Map Text Text) {s : BatchWriteSet}
    → IsWellFormed s
    → IsWellFormed (set_metadata id md s)
set_metadata-IsWellFormed id md {s} h = record {
  entities = rw (set_metadata-rest id md s).0 h.entities;
  edges = rw (set_metadata-rest id md s).1 h.edges;
  metas = set_metadata_unique id md s h.metas;
  values = λ j m p.
      ground (arith, lookup-set_metadata id j md s, h.values j m, recorded-IsMetadata (some md) m);
}

merge_metas-IsWellFormed :
    (m : Map Text (Map Text Text)) {s : BatchWriteSet}
    → IsWellFormed s
    → IsWellFormed (merge_metas m s)
unfolding merge_metas
merge_metas-IsWellFormed [] h = h
merge_metas-IsWellFormed ((id, md) ∷ m) h =
    merge_metas-IsWellFormed m (set_metadata-IsWellFormed id md h)

-- A merge keeps the set well formed, whatever is merged into it.
pub merge-IsWellFormed :
    (other : Option BatchWriteSet) (now : Time) {s : BatchWriteSet}
    → IsWellFormed s
    → IsWellFormed (merge other now s)
unfolding merge
merge-IsWellFormed none now h = h
merge-IsWellFormed (some o) now {s} h = merge_metas-IsWellFormed o.metas (record {
  entities = insert_all-HasUniqueKeys (stamp now) o.entities s.entities h.entities;
  edges = insert_all-HasUniqueKeys (λ _. now) o.edges s.edges h.edges;
  metas = h.metas;
  values = h.values;
})

expire_entities_unique :
    (cutoff : Time) (rest : Map Text EntitySetVal) (s : BatchWriteSet) (n : ℕ)
    → HasUniqueKeys s.metas
    → HasUniqueKeys (expire_entities cutoff rest (s, n)).0.metas
unfolding expire_entities
expire_entities_unique cutoff [] s n u = u
expire_entities_unique cutoff ((id, v) ∷ rest) s n u = ground (
  arith,
  expire_entities_unique cutoff rest
      (record s { entities = delete id s.entities; metas = delete id s.metas }) (suc n),
  expire_entities_unique cutoff rest s n,
  delete-HasUniqueKeys id s.metas,
)

pub expire-IsWellFormed :
    (cutoff : Time) {s : BatchWriteSet} → IsWellFormed s → IsWellFormed (expire cutoff s).0
expire-IsWellFormed cutoff {s} h =
    let shape = expire-shape cutoff s h.entities h.edges in
    let exact = expire-exact cutoff s h.entities h.edges in
    record {
      entities = rw shape.0 (reject-HasUniqueKeys (is_stale cutoff) s.entities h.entities);
      edges = rw shape.1 (reject-HasUniqueKeys (is_stale_edge cutoff) s.edges h.edges);
      metas = rw shape.2 (expire_entities_unique cutoff s.entities s 0 h.metas);
      values = λ id md p. h.values id md (ground (arith, exact.meta_kept id));
    }

-- ===== src/Receiver/Invariant.antt =====
-- What holds of every set of relationships: edges come in pairs, and none outlives its entity.
use otel_k8s_graph.Base.{
  ◌≤◌, Text, [], ◌∷◌, ◌++◌, some, true, false, not, text_DecEq, nat_DecEq, if◌then◌else◌, ◌==◌, ltb,
  ◌or_else◌, map_option, lookup, insert, ◌≡◌, refl, inl, inr, arith, Bool-cases, Option-cases,
  lookup-insert, ==_refl, ==→≡,
}
use otel_k8s_graph.Graph.{Time}
use otel_k8s_graph.BatchSet.{
  EntitySetVal, EdgeSetKey, BatchWriteSet, new_batch_write_set, edge_key_DecEq, zero_time, upsert,
  add_edges, stamp, merge, expire, batch_writer,
}
use otel_k8s_graph.Builder.Record.{Relationship, add_relationship}
use otel_k8s_graph.Strings.{has_prefix}
use otel_k8s_graph.Graph.Inverse.{inverse, inverse-inverse}
use otel_k8s_graph.BatchSet.Reads.{merge-entities, merge-edges, Expired, expire-exact}
use otel_k8s_graph.BatchSet.WellFormed.{
  IsWellFormed, new-IsWellFormed, upsert-IsWellFormed, add_edges-IsWellFormed, merge-IsWellFormed,
  expire-IsWellFormed,
}
use otel_k8s_graph.Builder.Derive.Sound.{is_relationship_id, IsSound}

-- The edge that points the other way.
abbrev pub flip : EdgeSetKey → EdgeSetKey
flip k = record { from = k.to; kind = inverse k.kind; to = k.from; action = k.action }

-- The end of an edge that graph-otel owns.
abbrev pub owner : EdgeSetKey → Text
owner k = if is_relationship_id k.from then k.from else k.to

-- The entity is in the set, seen at `t` or later.
abbrev pub IsSeen : BatchWriteSet → Text → Time → Type 0
IsSeen s id t = (v : EntitySetVal) × (lookup id s.entities ≡ some v) × (t ≤ v.last_seen)

-- At a time `now`: no entity is from the future; each has the id of its kind; of the ends of an
-- edge exactly one is a relationship, and that entity was seen when the edge was; each edge has
-- its inverse, seen at the same time.
pub record IsRelationshipSet (now : Time) (s : BatchWriteSet) : Type 0 where
  pub well_formed : IsWellFormed s
  pub past : (id : Text) (v : EntitySetVal) → lookup id s.entities ≡ some v → v.last_seen ≤ now
  pub owned :
      (id : Text) (v : EntitySetVal)
      → lookup id s.entities ≡ some v
      → (is_relationship_id id ≡ true) × (has_prefix id (v.kind ++ b':' ∷ []) ≡ true)
  pub one_end :
      (k : EdgeSetKey) (t : Time)
      → lookup k s.edges ≡ some t
      → is_relationship_id k.to ≡ not (is_relationship_id k.from)
  pub anchored : (k : EdgeSetKey) (t : Time) → lookup k s.edges ≡ some t → IsSeen s (owner k) t
  pub symmetric : (k : EdgeSetKey) → lookup (flip k) s.edges ≡ lookup k s.edges

-- A new set has no edges to speak of.
pub new-IsRelationshipSet : (now : Time) → IsRelationshipSet now new_batch_write_set
unfolding lookup
new-IsRelationshipSet now = record {
  well_formed = new-IsWellFormed;
  past = λ id v h. cc;
  owned = λ id v h. cc;
  one_end = λ k t h. cc;
  anchored = λ k t h. cc;
  symmetric = λ k. refl;
}

module _ (emitter : Text) (rel : Relationship) (s : BatchWriteSet)
    (foreign : is_relationship_id emitter ≡ false) (sound : IsSound rel) where
  abbrev back : EdgeSetKey
  back = record { from = rel.rel_id; kind = rel.reverse; to = emitter; action = rel.action }

  abbrev forth : EdgeSetKey
  forth = record { from = emitter; kind = rel.forward; to = rel.rel_id; action = rel.action }

  abbrev added : BatchWriteSet
  added = add_relationship batch_writer emitter rel s

  added-entities :
      (id : Text)
      → lookup id added.entities ≡ (
          if rel.rel_id == id
          then some (record { kind = rel.rel_kind; name = rel.rel_name; last_seen = zero_time })
          else lookup id s.entities)
  unfolding add_relationship upsert add_edges
  added-entities id = lookup-insert rel.rel_id id _ s.entities

  added-edges :
      (k : EdgeSetKey)
      → lookup k added.edges ≡ (
          if forth == k
          then some zero_time
          else if back == k
          then some zero_time
          else lookup k s.edges)
  unfolding add_relationship upsert add_edges
  added-edges k = ground (
    arith,
    lookup-insert forth k zero_time (insert back zero_time s.edges),
    lookup-insert back k zero_time s.edges,
  )

  flip-forth : (k : EdgeSetKey) → (forth == flip k) ≡ (back == k)
  flip-forth k = ground (arith, inverse-inverse k.kind, sound)

  flip-back : (k : EdgeSetKey) → (back == flip k) ≡ (forth == k)
  flip-back k = ground (arith, inverse-inverse k.kind, sound)

  IsSeen-new : IsSeen added rel.rel_id zero_time
  IsSeen-new = (
    record { kind = rel.rel_kind; name = rel.rel_name; last_seen = zero_time },
    rw (added-entities rel.rel_id, ==_refl rel.rel_id) refl,
    omega arith,
  )

  IsSeen-again : (id : Text) (t : Time) → t ≤ 0 → IsSeen s id t → IsSeen added id t
  IsSeen-again id t z (v, e, le) = elim (Bool-cases (rel.rel_id == id)) [
    | inl same ↦ (
      record { kind = rel.rel_kind; name = rel.rel_name; last_seen = zero_time },
      rw (added-entities id, same) refl,
      z,
    )
    | inr other ↦ (v, rw (added-entities id, other) e, le)
  ]

  added-anchored :
      IsRelationshipSet 0 s
      → (k : EdgeSetKey) (t : Time) → lookup k added.edges ≡ some t
      → IsSeen added (owner k) t
  added-anchored h k t p = elim (Bool-cases (forth == k)) [
    | inl e ↦
        let at : owner k ≡ rel.rel_id = ground (arith, ==→≡ forth k e, foreign) in
        let zero : t ≡ 0 = ground (arith, added-edges k) in rw (at, zero) IsSeen-new
    | inr n ↦ elim (Bool-cases (back == k)) [
      | inl e ↦
          let at : owner k ≡ rel.rel_id = ground (arith, ==→≡ back k e, sound) in
          let zero : t ≡ 0 = ground (arith, added-edges k) in rw (at, zero) IsSeen-new
      | inr m ↦
          let old : lookup k s.edges ≡ some t = ground (arith, added-edges k) in
          let (v, q, le) = h.anchored k t old in
          IsSeen-again (owner k) t (omega (arith, h.past (owner k) v q)) (v, q, le)
    ]
  ]

  -- A sound relationship of a foreign emitter keeps a request-local set well.
  pub add_relationship-IsRelationshipSet : IsRelationshipSet 0 s → IsRelationshipSet 0 added
  add_relationship-IsRelationshipSet h = record {
    well_formed =
        unfold add_relationship in
        add_edges-IsWellFormed emitter _ (
          add_edges-IsWellFormed rel.rel_id _
            (upsert-IsWellFormed rel.rel_id rel.rel_kind rel.rel_name h.well_formed));
    past = λ id v p. ground (arith, added-entities id, h.past id v);
    owned = λ id v p. ground (arith, added-entities id, h.owned id v, sound);
    one_end = λ k t p. ground (arith, added-edges k, h.one_end k t, sound, foreign);
    anchored = added-anchored h;
    symmetric = λ k.
        ground
          (arith, added-edges k, added-edges (flip k), h.symmetric k, flip-forth k, flip-back k);
  }

module _ (now before : Time) (other s : BatchWriteSet) (later : before ≤ now)
    (new : IsRelationshipSet 0 other) (h : IsRelationshipSet before s) where
  abbrev merged : BatchWriteSet
  merged = merge (some other) now s

  merged-entities :
      (id : Text)
      → lookup id merged.entities
        ≡ (map_option (stamp now) (lookup id other.entities) or_else lookup id s.entities)
  merged-entities id = merge-entities other s now id new.well_formed.entities

  merged-edges :
      (k : EdgeSetKey)
      → lookup k merged.edges
        ≡ (map_option (λ _. now) (lookup k other.edges) or_else lookup k s.edges)
  merged-edges k = merge-edges other s now k new.well_formed.edges

  IsSeen-by_other : (id : Text) (t : Time) → IsSeen other id t → IsSeen merged id now
  IsSeen-by_other id t (v, e, le) = (stamp now v, rw (merged-entities id, e) refl, omega arith)

  IsSeen-before : (id : Text) (t : Time) → IsSeen s id t → IsSeen merged id t
  IsSeen-before id t (v, e, le) = elim (Option-cases (lookup id other.entities)) [
    | inl absent ↦ (v, rw (merged-entities id, absent) e, le)
    | inr (w, there) ↦
        (stamp now w, rw (merged-entities id, there) refl, omega (arith, h.past id v e))
  ]

  merged-anchored :
      (k : EdgeSetKey) (t : Time) → lookup k merged.edges ≡ some t → IsSeen merged (owner k) t
  merged-anchored k t p = elim (Option-cases (lookup k other.edges)) [
    | inl absent ↦ IsSeen-before (owner k) t (h.anchored k t (ground (arith, merged-edges k)))
    | inr (u, there) ↦
        let at : t ≡ now = ground (arith, merged-edges k) in
        rw at (IsSeen-by_other (owner k) u (new.anchored k u there))
  ]

  -- Merging a request-local set into the shared set keeps it well.
  pub merge-IsRelationshipSet : IsRelationshipSet now merged
  merge-IsRelationshipSet = record {
    well_formed = merge-IsWellFormed (some other) now h.well_formed;
    past = λ id v p. elim (Option-cases (lookup id other.entities)) [
      | inl absent ↦ ground (arith, merged-entities id, h.past id v)
      | inr (w, there) ↦ ground (arith, merged-entities id)
    ];
    owned = λ id v p. elim (Option-cases (lookup id other.entities)) [
      | inl absent ↦ ground (arith, merged-entities id, h.owned id v)
      | inr (w, there) ↦ ground (arith, merged-entities id, new.owned id w)
    ];
    one_end = λ k t p. elim (Option-cases (lookup k other.edges)) [
      | inl absent ↦ ground (arith, merged-edges k, h.one_end k t)
      | inr (u, there) ↦ new.one_end k u there
    ];
    anchored = merged-anchored;
    symmetric =
        λ k. ground (arith, merged-edges k, merged-edges (flip k), new.symmetric k, h.symmetric k);
  }

module _ (cutoff now : Time) (s : BatchWriteSet) (h : IsRelationshipSet now s) where
  abbrev left : BatchWriteSet
  left = (expire cutoff s).0

  exact : Expired cutoff s left (expire cutoff s).1 (expire cutoff s).2
  exact = expire-exact cutoff s h.well_formed.entities h.well_formed.edges

  -- Expiry keeps the shared set well, whatever the cutoff.
  pub expire-IsRelationshipSet : IsRelationshipSet now left
  expire-IsRelationshipSet = record {
    well_formed = expire-IsWellFormed cutoff h.well_formed;
    past = λ id v p. ground (arith, exact.entity_kept id, h.past id v);
    owned = λ id v p. ground (arith, exact.entity_kept id, h.owned id v);
    one_end = λ k t p. ground (arith, exact.edge_kept k, h.one_end k t);
    anchored = λ k t p.
        let old : (lookup k s.edges ≡ some t) × (ltb t cutoff ≡ false) =
          ground (arith, exact.edge_kept k) in
        let (v, e, le) = h.anchored k t old.0 in
        (v, ground (arith, exact.entity_kept (owner k)), le);
    symmetric = λ k. ground (arith, exact.edge_kept k, exact.edge_kept (flip k), h.symmetric k);
  }

-- Time passes.
pub IsRelationshipSet-later :
    (before now : Time) (s : BatchWriteSet)
    → before ≤ now
    → IsRelationshipSet before s
    → IsRelationshipSet now s
IsRelationshipSet-later before now s later h = record {
  well_formed = h.well_formed;
  past = λ id v p. omega (arith, h.past id v p);
  owned = h.owned;
  one_end = h.one_end;
  anchored = h.anchored;
  symmetric = h.symmetric;
}

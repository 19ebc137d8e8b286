-- ===== src/Flusher/Mirror.antt =====
-- As long as no flush fails, Redis holds of the relationships what the last snapshot holds, whatever
-- graph-k8s and prunes do to the other ids and edges between the flushes.
use otel_k8s_graph.Base.{
  ℕ, ◌-◌, ◌≤◌, Text, List, Option, none, some, Bool, ◌&&◌, true, false, refl, text_DecEq, nat_DecEq,
  is_some, lookup, ◌≡◌, sym, subst, inl, inr, ◌∙◌, arith, Bool-cases, Option-cases,
}
use otel_k8s_graph.Graph.{Edge, Time}
use otel_k8s_graph.Graph.Keys.{key_edges, key_ids}
use otel_k8s_graph.BatchSet.{
  EdgeSetKey, edge_key_DecEq, BatchWriteSet, new_batch_write_set, snapshot,
}
use otel_k8s_graph.BatchSet.Copy.{snapshot-eq}
use otel_k8s_graph.Builder.Templatize.{Url}
use otel_k8s_graph.Receiver.{ResourceMetrics, export, expire_and_snapshot}
use otel_k8s_graph.Receiver.Invariant.{
  owner, IsRelationshipSet, new-IsRelationshipSet, IsRelationshipSet-later,
  expire-IsRelationshipSet,
}
use otel_k8s_graph.Receiver.Reachable.{export-IsRelationshipSet}
use otel_k8s_graph.Redis.{Redis, IsLawful}
use otel_k8s_graph.Delta.{edge_of, write_delta_to_redis}
use otel_k8s_graph.Delta.Edges.{IsInjective, is_valid, HasValidEdges}
use otel_k8s_graph.Builder.Derive.Sound.{is_relationship_id}
use otel_k8s_graph.Delta.Effect.{write_delta-ids, write_delta-foreign}
use otel_k8s_graph.Flusher.{Process, flush_once}
use otel_k8s_graph.Flusher.Edges.{LacksEdgesIds, write_delta-edges}

module _ (r : Redis) (law : IsLawful r) (is_utf8 : Text → Bool) (marshal : Edge → Text)
    (inj : IsInjective is_utf8 marshal) (unix_milli : Time → ℕ) (prefix : Text) (ttl : ℕ) where
  abbrev pub Running : Type 0
  Running = Process r marshal unix_milli prefix ttl

  -- Is it an edge of a relationship, with valid texts?
  abbrev pub is_owned : EdgeSetKey → Bool
  is_owned k = is_relationship_id (owner k) && is_valid is_utf8 (edge_of k)

  -- Both sets are sets of relationships, and of the ids and the edges of relationships Redis holds
  -- those of the previous one, whose edges have valid texts.
  pub record IsMirror (clock : Time) (p : Running) : Type 0 where
    pub set_ok : IsRelationshipSet clock p.set
    pub previous_ok : IsRelationshipSet clock p.previous
    pub previous_valid : HasValidEdges is_utf8 p.previous.edges
    pub ids :
        (id : Text)
        → is_relationship_id id ≡ true
        → r.sismember p.db (key_ids prefix) id ≡ is_some (lookup id p.previous.entities)
    pub edges :
        (k : EdgeSetKey)
        → is_owned k ≡ true
        → r.sismember p.db (key_edges prefix k.from) (marshal (edge_of k))
          ≡ is_some (lookup k p.previous.edges)

  new-HasValidEdges : HasValidEdges is_utf8 new_batch_write_set.edges
  unfolding lookup
  new-HasValidEdges g h = absurd (ground arith)

  snapshot-IsRelationshipSet :
      (clock : Time) (s : BatchWriteSet)
      → IsRelationshipSet clock s
      → IsRelationshipSet clock (snapshot s)
  snapshot-IsRelationshipSet clock s h =
      subst (IsRelationshipSet clock) (sym (snapshot-eq s h.well_formed)) h

  -- If Redis held the relationships of the previous snapshot, no id of which ends in ":edges", then
  -- after a flush without an error, of edges with valid texts, it holds those of the new one, and
  -- both sets keep the invariant of the shared set.
  flush_once-IsMirror :
      (clock now : Time) (p : Running)
      → IsMirror clock p
      → LacksEdgesIds p.previous
      → HasValidEdges is_utf8 (expire_and_snapshot (now - ttl) p.set).1.edges
      → (flush_once r marshal unix_milli prefix ttl now p).1 ≡ true
      → IsMirror clock (flush_once r marshal unix_milli prefix ttl now p).0
  unfolding flush_once expire_and_snapshot
  flush_once-IsMirror clock now p h free valid ok =
      let taken = expire_and_snapshot (now - ttl) p.set in
      let left = expire-IsRelationshipSet (now - ttl) clock p.set h.set_ok in
      let snap = snapshot-IsRelationshipSet clock taken.0 left in
      let written =
        write_delta_to_redis r marshal prefix 0 (unix_milli now) taken.1 (some p.previous) p.db in
      elim (Bool-cases written.2) [
        | inl e ↦ rw e (record {
          set_ok = left;
          previous_ok = snap;
          previous_valid = valid;
          ids = λ id rel.
              write_delta-ids r law marshal prefix 0 (unix_milli now) taken.1 (some p.previous) p.db
                id (h.ids id rel) e;
          edges = λ k own.
              write_delta-edges r law is_utf8 marshal inj prefix 0 (unix_milli now) clock clock
                taken.1 p.previous p.db k snap h.previous_ok free valid h.previous_valid
                (ground arith) (h.edges k own) e;
        })
        | inr e ↦ ground arith
      ]

  lacks_foreign :
      (clock : Time) (s : BatchWriteSet) (id : Text)
      → IsRelationshipSet clock s
      → is_relationship_id id ≡ false
      → lookup id s.entities ≡ none
  lacks_foreign clock s id h foreign = elim (Option-cases (lookup id s.entities)) [
    | inl e ↦ e
    | inr (v, e) ↦ let owned = (h.owned id v e).0 in absurd (ground arith)
  ]

  -- A flush leaves the ids of other entities in the set of all ids as they are.
  flush_once-foreign :
      (clock now : Time) (p : Running) (id : Text)
      → IsMirror clock p
      → is_relationship_id id ≡ false
      → (flush_once r marshal unix_milli prefix ttl now p).1 ≡ true
      → r.sismember (flush_once r marshal unix_milli prefix ttl now p).0.db (key_ids prefix) id
        ≡ r.sismember p.db (key_ids prefix) id
  unfolding flush_once expire_and_snapshot
  flush_once-foreign clock now p id h foreign ok =
      let taken = expire_and_snapshot (now - ttl) p.set in
      let left = expire-IsRelationshipSet (now - ttl) clock p.set h.set_ok in
      let snap = snapshot-IsRelationshipSet clock taken.0 left in
      let written =
        write_delta_to_redis r marshal prefix 0 (unix_milli now) taken.1 (some p.previous) p.db in
      elim (Bool-cases written.2) [
        | inl e ↦ rw e (
            write_delta-foreign r law marshal prefix 0 (unix_milli now) taken.1 (some p.previous)
              p.db id (lacks_foreign clock p.previous id h.previous_ok foreign)
              (lacks_foreign clock taken.1 id snap foreign) e)
        | inr e ↦ ground arith
      ]

  module _ {V : Type 0} (as_string : V → Text) (parse : Text → Option Url) where
    -- A change of the database by another process that keeps the ids and the edges of relationships.
    -- Writes of graph-k8s do, which name its own entities, but for the deletion of an entity, which
    -- deletes all of its edges; and so does a prune that drops neither a relationship nor an end of
    -- one.
    pub record KeepsRelationships (before after : r.Db) : Type 0 where
      pub ids :
          (id : Text)
          → is_relationship_id id ≡ true
          → r.sismember after (key_ids prefix) id ≡ r.sismember before (key_ids prefix) id
      pub edges :
          (k : EdgeSetKey)
          → is_owned k ≡ true
          → r.sismember after (key_edges prefix k.from) (marshal (edge_of k))
            ≡ r.sismember before (key_edges prefix k.from) (marshal (edge_of k))

    -- Redis holds no relationship.
    pub record LacksRelationships (db : r.Db) : Type 0 where
      pub ids :
          (id : Text) → is_relationship_id id ≡ true → r.sismember db (key_ids prefix) id ≡ false
      pub edges :
          (k : EdgeSetKey)
          → is_owned k ≡ true
          → r.sismember db (key_edges prefix k.from) (marshal (edge_of k)) ≡ false

    -- Pushes, flushes without an error and changes by other processes, in any order, with the time
    -- of the last push.
    pub data Reach (db : r.Db) : Time → Running → Type 0 where
      start :
          Reach db 0 (record { set = new_batch_write_set; previous = new_batch_write_set; db = db })
      push :
          {clock : Time} {p : Running} (md : List (ResourceMetrics V)) (now : Time)
          → Reach db clock p
          → clock ≤ now
          → Reach db now (record p { set = export as_string parse md now p.set })
      flush :
          {clock : Time} {p : Running} (now : Time)
          → Reach db clock p
          → LacksEdgesIds p.previous
          → HasValidEdges is_utf8 (expire_and_snapshot (now - ttl) p.set).1.edges
          → (flush_once r marshal unix_milli prefix ttl now p).1 ≡ true
          → Reach db clock (flush_once r marshal unix_milli prefix ttl now p).0
      others :
          {clock : Time} {p : Running} (after : r.Db)
          → Reach db clock p
          → KeepsRelationships p.db after
          → Reach db clock (record p { db = after })

    -- The database as another process last left it, or as it was when graph-otel began.
    abbrev pub last_left : {db : r.Db} {clock : Time} {p : Running} → Reach db clock p → r.Db
    last_left {db = db} start = db
    last_left (push md now before later) = last_left before
    last_left (flush now before free valid ok) = last_left before
    last_left (others after before kept) = after

    -- If edges with valid UTF-8 texts have different JSON if they differ, and Redis held no id or edge
    -- of a relationship (an endpoint, a topic or a database) when graph-otel began, then after any
    -- sequence of pushes, at times that do not go back, of flushes without an error, of snapshots
    -- with valid texts only and no id that ends in ":edges", and of changes by other processes, between
    -- the flushes, that keep the ids and the edges of relationships, Redis holds of the ids of
    -- relationships and of their edges with valid texts exactly those of the last snapshot, and both
    -- sets satisfy the invariant of the shared set. Of the ids of other entities Redis holds those that
    -- it held when another process last changed it, or when graph-otel began.
    pub Reach-IsMirror :
        {db : r.Db} {clock : Time} {p : Running}
        → LacksRelationships db
        → (reached : Reach db clock p)
        → IsMirror clock p
          × ((id : Text)
              → is_relationship_id id ≡ false
              → r.sismember p.db (key_ids prefix) id
                ≡ r.sismember (last_left reached) (key_ids prefix) id)
    Reach-IsMirror blank start = (
      record {
        set_ok = new-IsRelationshipSet 0;
        previous_ok = new-IsRelationshipSet 0;
        previous_valid = new-HasValidEdges;
        ids = λ id rel. unfold lookup in blank.ids id rel;
        edges = λ k own. unfold lookup in blank.edges k own;
      },
      λ id foreign. refl,
    )
    Reach-IsMirror blank (push {clock} {p} md now before later) =
        let (h, f) = Reach-IsMirror blank before in
        (
          record {
            set_ok = export-IsRelationshipSet as_string parse md clock now p.set later h.set_ok;
            previous_ok = IsRelationshipSet-later clock now p.previous later h.previous_ok;
            previous_valid = h.previous_valid;
            ids = h.ids;
            edges = h.edges;
          },
          f,
        )
    Reach-IsMirror blank (flush {clock} {p} now before free valid ok) =
        let (h, f) = Reach-IsMirror blank before in
        (
          flush_once-IsMirror clock now p h free valid ok,
          λ id foreign. flush_once-foreign clock now p id h foreign ok ∙ f id foreign,
        )
    Reach-IsMirror blank (others {clock} {p} after before kept) =
        let h = (Reach-IsMirror blank before).0 in
        (
          record {
            set_ok = h.set_ok;
            previous_ok = h.previous_ok;
            previous_valid = h.previous_valid;
            ids = λ id rel. kept.ids id rel ∙ h.ids id rel;
            edges = λ k own. kept.edges k own ∙ h.edges k own;
          },
          λ id foreign. refl,
        )

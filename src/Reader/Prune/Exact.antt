-- ===== src/Reader/Prune/Exact.antt =====
-- What a prune makes of the set of all ids, and of the sets of edges.
use otel_k8s_graph.Base.{
  ℕ, Text, List, [], ◌∷◌, ◌++◌, Map, Option, none, some, Bool, false, not, ◌&&◌, codes, text_DecEq,
  nat_DecEq, is_some, lookup, length, ◌≡◌, refl, ◌∙◌, sym, ap, ◌≢◌, inl, inr, arith, Option-cases,
  HasUniqueKeys,
}
use otel_k8s_graph.Graph.{Edge}
use otel_k8s_graph.Graph.Keys.{
  key_entity, key_edges, key_by_kind, key_ids, key_ids-distinct, key_edges-injective,
  key_by_kind-distinct, key_metadata-ne-key_edges, key_entity-eq-key_edges,
}
use otel_k8s_graph.Redis.{Redis, IsLawful, members}
use otel_k8s_graph.Reader.Prune.{
  is_stale, stale_ids, drop_cmds, drop_all, is_dangling, prune_stale, prune, or_nothing,
}
use otel_k8s_graph.Reader.Prune.Stale.{
  IsListed, DropsAnswered, StripsAnswered, stale_ids-lookup, stale_ids-HasUniqueKeys, exec-members,
  drop_all-ids, strip_all-other, strip_all-edges,
}

-- `smembers` is SMEMBERS of a database, as in Reader/Prune.
module _ (r : Redis) (smembers : r.Db → Text → Option (List Text)) (unmarshal : Text → Option Edge)
    (prefix : Text) where
  -- The entity stands in the set of all ids and was last seen before the cutoff.
  abbrev pub is_gone : r.Db → ℕ → Text → Bool
  is_gone db cutoff_ms id =
      r.sismember db (key_ids prefix) id && is_stale r smembers unmarshal prefix db cutoff_ms id

  abbrev pub gone_ids : r.Db → ℕ → Map Text (Unit {0})
  gone_ids db cutoff_ms =
      stale_ids (is_stale r smembers unmarshal prefix db cutoff_ms)
        (or_nothing (smembers db (key_ids prefix))) []

  -- Does the edge lead to an entity that is gone?
  abbrev pub leads_to_gone : r.Db → ℕ → Text → Bool
  leads_to_gone db cutoff_ms raw = elim (unmarshal raw) [
    | none ↦ false
    | some edge ↦ is_gone db cutoff_ms edge.to_resource
  ]

  abbrev pub RestAnswered : Map Text (Unit {0}) → r.Db → Type 0
  RestAnswered [] db = Unit
  RestAnswered ((id, u) ∷ dropped) db =
      let gone = (id, u) ∷ dropped in
      let kept = drop_all r smembers unmarshal prefix gone db in
      DropsAnswered r smembers unmarshal prefix gone db
      × IsListed r smembers kept (key_ids prefix)
      × StripsAnswered r smembers unmarshal prefix gone
          (or_nothing (smembers kept (key_ids prefix))) kept

  -- The reads and the pipelines of one prune of a database: SMEMBERS of the set of all ids is
  -- answered with its members; and if some ids are stale, the pipelines that drop them are executed
  -- without an error, the set of ids that is left and the sets of their edges are listed when they
  -- are read, and the removals of edges are executed without an error.
  pub record IsAnswered (cutoff_ms : ℕ) (db : r.Db) : Type 0 where
    pub ids : IsListed r smembers db (key_ids prefix)
    pub rest : RestAnswered (gone_ids db cutoff_ms) db

module _ (r : Redis) (law : IsLawful r) (smembers : r.Db → Text → Option (List Text))
    (unmarshal : Text → Option Edge) (prefix : Text) where
  drop_cmds-edges :
      (id sid m : Text) (kind : Option Text) (b : Bool)
      → id ≢ sid
      → id ≢ sid ++ codes ":edges"
      → members (key_edges prefix sid) m (drop_cmds r smembers unmarshal prefix id kind) b ≡ b
  unfolding members
  drop_cmds-edges id sid m kind b h k =
      let entity : key_entity prefix id ≢ key_edges prefix sid =
        λ e. k (key_entity-eq-key_edges prefix id sid e) in
      let edges : key_edges prefix id ≢ key_edges prefix sid =
        λ e. h (key_edges-injective prefix id sid e) in
      let metadata = key_metadata-ne-key_edges prefix id sid in
      let ids : key_ids prefix ≢ key_edges prefix sid =
        λ e. (key_ids-distinct prefix sid []).2 (sym e) in
      elim kind
        as (λ k.
          members (key_edges prefix sid) m (drop_cmds r smembers unmarshal prefix id k) b ≡ b) [
            | none ↦ ground arith
            | some [] ↦ ground arith
            | some (c ∷ kd) ↦
                let by_kind : key_by_kind prefix (c ∷ kd) ≢ key_edges prefix sid =
                  λ e. (key_by_kind-distinct prefix sid (c ∷ kd)).2 (sym e) in
                ground arith
          ]

  drop_all-edges :
      (dropped : List (Text × Unit {0})) (db : r.Db) (sid m : Text)
      → DropsAnswered r smembers unmarshal prefix dropped db
      → lookup sid dropped ≡ none
      → lookup (sid ++ codes ":edges") dropped ≡ none
      → r.sismember (drop_all r smembers unmarshal prefix dropped db) (key_edges prefix sid) m
        ≡ r.sismember db (key_edges prefix sid) m
  unfolding drop_all lookup
  drop_all-edges [] db sid m answered h k = refl
  drop_all-edges ((id, u) ∷ dropped) db sid m (ok, answered) h k =
      let kind = r.hget db (key_entity prefix id) (codes "kind") in
      let cmds = drop_cmds r smembers unmarshal prefix id kind in
      let apart : id ≢ sid = λ e. ground arith in
      let alias : id ≢ sid ++ codes ":edges" = λ e. ground arith in
      drop_all-edges dropped (r.exec cmds db).0 sid m answered (ground arith) (ground arith)
      ∙ (exec-members r law cmds db (key_edges prefix sid) m ok
          ∙ drop_cmds-edges id sid m kind (r.sismember db (key_edges prefix sid) m) apart alias)

  gone_ids-lookup :
      (db : r.Db) (cutoff_ms : ℕ) (m : Text)
      → IsListed r smembers db (key_ids prefix)
      → is_some (lookup m (gone_ids r smembers unmarshal prefix db cutoff_ms))
        ≡ is_gone r smembers unmarshal prefix db cutoff_ms m
  unfolding lookup stale_ids
  gone_ids-lookup db cutoff_ms m listed =
      let ids = or_nothing (smembers db (key_ids prefix)) in
      let stale = is_stale r smembers unmarshal prefix db cutoff_ms in
      stale_ids-lookup stale ids [] m ∙ ap (λ b. b && stale m) (listed m)

  gone_ids-HasUniqueKeys :
      (db : r.Db) (cutoff_ms : ℕ)
      → HasUniqueKeys (gone_ids r smembers unmarshal prefix db cutoff_ms)
  gone_ids-HasUniqueKeys db cutoff_ms =
      stale_ids-HasUniqueKeys (is_stale r smembers unmarshal prefix db cutoff_ms)
        (or_nothing (smembers db (key_ids prefix))) [] tt

  prune-eq :
      (cutoff_ms : ℕ) (db : r.Db)
      → prune r smembers unmarshal prefix cutoff_ms db
        ≡ prune_stale r smembers unmarshal prefix
            (gone_ids r smembers unmarshal prefix db cutoff_ms)
            db
  unfolding prune stale_ids
  prune-eq cutoff_ms db = elim (Option-cases (smembers db (key_ids prefix))) [
    | inl e ↦ ground arith
    | inr (ids, e) ↦ ground arith
  ]

  prune_stale-ids :
      (dropped : Map Text (Unit {0})) (db : r.Db) (m : Text)
      → RestAnswered r smembers unmarshal prefix dropped db
      → r.sismember (prune_stale r smembers unmarshal prefix dropped db).0 (key_ids prefix) m
        ≡ (not (is_some (lookup m dropped)) && r.sismember db (key_ids prefix) m)
  unfolding lookup
  prune_stale-ids [] db m h = refl
  prune_stale-ids ((id, u) ∷ dropped) db m (drops, listed, strips) =
      let gone = (id, u) ∷ dropped in
      let kept = drop_all r smembers unmarshal prefix gone db in
      strip_all-other r law smembers unmarshal prefix gone
        (or_nothing (smembers kept (key_ids prefix))) kept (key_ids prefix) m
        (λ sid. (key_ids-distinct prefix sid []).2) strips
      ∙ drop_all-ids r law smembers unmarshal prefix gone db m drops

  count_lem :
      (dropped : Map Text (Unit {0})) (db : r.Db)
      → (prune_stale r smembers unmarshal prefix dropped db).1 ≡ length dropped
  count_lem [] db = refl
  count_lem ((id, u) ∷ dropped) db = refl

  prune_stale-edges :
      (dropped : Map Text (Unit {0})) (db : r.Db) (sid raw : Text)
      → RestAnswered r smembers unmarshal prefix dropped db
      → lookup sid dropped ≡ none
      → lookup (sid ++ codes ":edges") dropped ≡ none
      → r.sismember
          (prune_stale r smembers unmarshal prefix dropped db).0
          (key_edges prefix sid)
          raw
        ≡ (r.sismember db (key_edges prefix sid) raw
            && not (
                r.sismember db (key_ids prefix) sid
                && is_dangling r smembers unmarshal prefix dropped raw))
  unfolding lookup
  prune_stale-edges [] db sid raw answered h k = elim (Option-cases (unmarshal raw)) [
    | inl e ↦ ground arith
    | inr (edge, e) ↦ ground arith
  ]
  prune_stale-edges ((id, u) ∷ dropped) db sid raw (drops, listed, strips) h k =
      let gone = (id, u) ∷ dropped in
      let kept = drop_all r smembers unmarshal prefix gone db in
      let survivors = or_nothing (smembers kept (key_ids prefix)) in
      let stripped =
        strip_all-edges r law smembers unmarshal prefix gone survivors kept sid raw strips in
      let alive = drop_all-ids r law smembers unmarshal prefix gone db sid drops in
      let same = drop_all-edges gone db sid raw drops h k in
      let survives = listed sid in ground arith

  -- If the reads of a prune are answered with the members of the sets that it reads, and the
  -- pipelines that it sends are executed without an error, the prune takes out of the set of all ids
  -- exactly those whose readable time is before the cutoff, and gives the number of those that it
  -- took out.
  pub prune-ids :
      (cutoff_ms : ℕ) (db : r.Db)
      → IsAnswered r smembers unmarshal prefix cutoff_ms db
      → ((id : Text)
          → r.sismember (prune r smembers unmarshal prefix cutoff_ms db).0 (key_ids prefix) id ≡ (
              r.sismember db (key_ids prefix) id
              && not (is_stale r smembers unmarshal prefix db cutoff_ms id)))
        × ((gone : Map Text (Unit {0})) × HasUniqueKeys gone
            × ((prune r smembers unmarshal prefix cutoff_ms db).1 ≡ length gone)
            × ((id : Text)
                → is_some (lookup id gone) ≡ is_gone r smembers unmarshal prefix db cutoff_ms id))
  prune-ids cutoff_ms db answered =
      let gone = gone_ids r smembers unmarshal prefix db cutoff_ms in
      let same = prune-eq cutoff_ms db in
      (
        λ id. ground (
          arith,
          prune_stale-ids gone db id answered.rest,
          gone_ids-lookup db cutoff_ms id answered.ids,
        ),
        (
          gone,
          gone_ids-HasUniqueKeys db cutoff_ms,
          ap (λ x. x.1) same ∙ count_lem gone db,
          λ id. gone_ids-lookup db cutoff_ms id answered.ids,
        ),
      )

  -- If the reads of a prune are answered with the members of the sets that it reads, and the
  -- pipelines that it sends are executed without an error, the prune removes of the edges of an
  -- entity that it keeps exactly those that lead to an entity that it drops, and none of an id that
  -- is not in the set of all ids. The condition is that it does not drop the entity whose id is the
  -- kept one with ":edges" behind it.
  pub prune-edges :
      (cutoff_ms : ℕ) (db : r.Db) (sid raw : Text)
      → IsAnswered r smembers unmarshal prefix cutoff_ms db
      → is_gone r smembers unmarshal prefix db cutoff_ms sid ≡ false
      → is_gone r smembers unmarshal prefix db cutoff_ms (sid ++ codes ":edges") ≡ false
      → r.sismember (prune r smembers unmarshal prefix cutoff_ms db).0 (key_edges prefix sid) raw
        ≡ (r.sismember db (key_edges prefix sid) raw
            && not (
                r.sismember db (key_ids prefix) sid
                && leads_to_gone r smembers unmarshal prefix db cutoff_ms raw))
  prune-edges cutoff_ms db sid raw answered h k =
      let gone = gone_ids r smembers unmarshal prefix db cutoff_ms in
      let same = prune-eq cutoff_ms db in
      let kept : lookup sid gone ≡ none =
        ground (arith, gone_ids-lookup db cutoff_ms sid answered.ids) in
      let alias : lookup (sid ++ codes ":edges") gone ≡ none =
        ground (arith, gone_ids-lookup db cutoff_ms (sid ++ codes ":edges") answered.ids) in
      let left = prune_stale-edges gone db sid raw answered.rest kept alias in
      elim (Option-cases (unmarshal raw)) [
        | inl e ↦ ground arith
        | inr (edge, e) ↦ ground (arith, gone_ids-lookup db cutoff_ms edge.to_resource answered.ids)
      ]

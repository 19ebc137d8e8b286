-- ===== src/Reader/Prune.antt =====
-- `Prune` of internal/graph/redis.go: the entities that were last seen too long ago are dropped, and
-- the edges that led to them.
pub mod Stale
pub mod Exact
use otel_k8s_graph.Base.{
  ℕ, ◌+◌, ◌-◌, ◌<◌, Text, List, [], ◌∷◌, Map, Option, none, some, Bool, false, codes, text_DecEq,
  nat_DecEq, if◌then◌else◌, ltb, is_some, lookup, insert, length,
}
use otel_k8s_graph.Base.{◌%◌}
use otel_k8s_graph.Graph.{Edge}
use otel_k8s_graph.Graph.Keys.{key_entity, key_metadata, key_edges, key_by_kind, key_ids}
use otel_k8s_graph.Redis.{Redis, Cmd, srem, del}
use otel_k8s_graph.Reader.Int64.{parse_int64, int64_mod}

-- v < w as int64, on patterns
abbrev pub int64_ltb : ℕ → ℕ → Bool
int64_ltb v w =
    ltb ((v + 9_223_372_036_854_775_808) % int64_mod) ((w + 9_223_372_036_854_775_808) % int64_mod)

abbrev pub or_nothing : Option (List Text) → List Text
or_nothing none = []
or_nothing (some ids) = ids

-- The ids that pass a test, each once.
unfoldable pub stale_ids : (Text → Bool) → List Text → Map Text (Unit {0}) → Map Text (Unit {0})
stale_ids stale [] dropped = dropped
stale_ids stale (id ∷ ids) dropped =
    stale_ids stale ids (if stale id then insert id tt dropped else dropped)

-- `smembers` is SMEMBERS of a database, `none` for an error.
module _ (r : Redis) (smembers : r.Db → Text → Option (List Text)) (unmarshal : Text → Option Edge)
    (prefix : Text) where
  -- Is the time in `last_seen_at_ms` readable and before the cutoff?
  abbrev pub is_stale : r.Db → ℕ → Text → Bool
  is_stale db cutoff_ms id = elim (r.hget db (key_entity prefix id) (codes "last_seen_at_ms")) [
    | none ↦ false
    | some ms ↦ elim (parse_int64 ms) [ none ↦ false | some v ↦ int64_ltb v cutoff_ms ]
  ]

  abbrev pub drop_cmds : Text → Option Text → List Cmd
  drop_cmds id kind =
      del (key_entity prefix id ∷ key_metadata prefix id ∷ key_edges prefix id ∷ [])
      ∷ srem (key_ids prefix) id
      ∷ elim kind [
        | none ↦ []
        | some [] ↦ []
        | some (c ∷ k) ↦ srem (key_by_kind prefix (c ∷ k)) id ∷ []
      ]

  -- The results of the commands are ignored.
  unfoldable pub drop_all : List (Text × Unit {0}) → r.Db → r.Db
  drop_all [] db = db
  drop_all ((id, _) ∷ dropped) db =
      let kind = r.hget db (key_entity prefix id) (codes "kind") in
      drop_all dropped (r.exec (drop_cmds id kind) db).0

  -- Does the edge lead to one that was dropped?
  abbrev pub is_dangling : Map Text (Unit {0}) → Text → Bool
  is_dangling dropped raw = elim (unmarshal raw) [
    | none ↦ false
    | some edge ↦ is_some (lookup edge.to_resource dropped)
  ]

  -- A command by itself is a pipeline of one.
  unfoldable pub strip : Map Text (Unit {0}) → Text → List Text → r.Db → r.Db
  strip dropped sid [] db = db
  strip dropped sid (raw ∷ edges) db =
      strip dropped sid edges (
        if is_dangling dropped raw
        then (r.exec (srem (key_edges prefix sid) raw ∷ []) db).0
        else db)

  unfoldable pub strip_all : Map Text (Unit {0}) → List Text → r.Db → r.Db
  unfolding strip
  strip_all dropped [] db = db
  strip_all dropped (sid ∷ survivors) db =
      strip_all dropped survivors
        (strip dropped sid (or_nothing (smembers db (key_edges prefix sid))) db)

  abbrev pub prune_stale : Map Text (Unit {0}) → r.Db → r.Db × ℕ
  prune_stale [] db = (db, 0)
  prune_stale ((id, u) ∷ dropped) db =
      let gone = (id, u) ∷ dropped in
      let kept = drop_all gone db in
      (strip_all gone (or_nothing (smembers kept (key_ids prefix))) kept, length gone)

  unfoldable pub prune : ℕ → r.Db → r.Db × ℕ
  unfolding stale_ids drop_all strip_all
  prune cutoff_ms db = elim (smembers db (key_ids prefix)) [
    | none ↦ (db, 0)
    | some ids ↦ prune_stale (stale_ids (is_stale db cutoff_ms) ids []) db
  ]

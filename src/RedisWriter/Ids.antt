-- ===== src/RedisWriter/Ids.antt =====
-- What the calls of the writer do to the set of all ids.
use otel_k8s_graph.Base.{
  ℕ, Text, List, [], ◌∷◌, Map, Bool, true, false, text_DecEq, nat_DecEq, if◌then◌else◌, ◌==◌, ◌≡◌,
  refl, ◌∙◌, arith, ==_refl,
}
use otel_k8s_graph.Graph.{Kind, Edge}
use otel_k8s_graph.Graph.Keys.{key_ids, key_edges, key_ids-distinct}
use otel_k8s_graph.Redis.{sadd, srem, Redis, IsLawful, run_all-members, members, members-append}
use otel_k8s_graph.RedisWriter.{
  Call, upsert, remove, link, unlink, tick, meta_args, upsert_cmds, delete_cmds, flush_locked,
  call_all,
}
use otel_k8s_graph.RedisWriter.Buffer.{all_commands, fresh, flushed_lem}

-- Whether an entity is there after some calls: the last one that names it says so.
unfoldable pub is_upserted : Text → List Call → Bool → Bool
is_upserted id [] b = b
is_upserted id (upsert now_ms j kind name md ∷ cs) b =
    is_upserted id cs (if j == id then true else b)
is_upserted id (remove j kind ∷ cs) b = is_upserted id cs (if j == id then false else b)
is_upserted id (link from e ∷ cs) b = is_upserted id cs b
is_upserted id (unlink from e ∷ cs) b = is_upserted id cs b
is_upserted id (tick ∷ cs) b = is_upserted id cs b

module _ (marshal : Edge → Text) (prefix : Text) (id : Text) where
  abbrev ids : Text
  ids = key_ids prefix

  upsert-members :
      (now_ms : ℕ) (j : Text) (kind : Kind) (name : Text) (args : Map Text Text) (b : Bool)
      → members ids id (upsert_cmds prefix now_ms j kind name args) b
        ≡ (if j == id then true else b)
  unfolding members
  upsert-members now_ms j kind name [] b =
      ground (arith, key_ids-distinct prefix j kind, ==_refl ids)
  upsert-members now_ms j kind name (kv ∷ args) b =
      ground (arith, key_ids-distinct prefix j kind, ==_refl ids)

  delete-members :
      (j : Text) (kind : Kind) (b : Bool)
      → members ids id (delete_cmds prefix j kind) b ≡ (if j == id then false else b)
  unfolding members
  delete-members j kind b = ground (arith, key_ids-distinct prefix j kind, ==_refl ids)

  link-members :
      (from json : Text) (b : Bool)
      → (members ids id (sadd (key_edges prefix from) json ∷ []) b ≡ b)
        × (members ids id (srem (key_edges prefix from) json ∷ []) b ≡ b)
  unfolding members
  link-members from json b = ground (arith, key_ids-distinct prefix from [])

  all_commands-members :
      (cs : List Call) (b : Bool)
      → members ids id (all_commands marshal prefix cs) b ≡ is_upserted id cs b
  unfolding is_upserted members
  all_commands-members [] b = refl
  all_commands-members (upsert now_ms j kind name md ∷ cs) b =
      rw
        (
          members-append ids id (upsert_cmds prefix now_ms j kind name (meta_args md))
              (all_commands marshal prefix cs) b,
          upsert-members now_ms j kind name (meta_args md) b,
        )
        (all_commands-members cs (if j == id then true else b))
  all_commands-members (remove j kind ∷ cs) b =
      rw
        (
          members-append ids id (delete_cmds prefix j kind) (all_commands marshal prefix cs) b,
          delete-members j kind b,
        )
        (all_commands-members cs (if j == id then false else b))
  all_commands-members (link from e ∷ cs) b =
      rw
        (
          members-append ids id (sadd (key_edges prefix from) (marshal e) ∷ [])
              (all_commands marshal prefix cs) b,
          (link-members from (marshal e) b).0,
        )
        (all_commands-members cs b)
  all_commands-members (unlink from e ∷ cs) b =
      rw
        (
          members-append ids id (srem (key_edges prefix from) (marshal e) ∷ [])
              (all_commands marshal prefix cs) b,
          (link-members from (marshal e) b).1,
        )
        (all_commands-members cs b)
  all_commands-members (tick ∷ cs) b = all_commands-members cs b

module _ (r : Redis) (law : IsLawful r) (marshal : Edge → Text) (prefix : Text) (batch_size : ℕ)
    (db0 : r.Db) where
  -- If a new writer has logged no warning after some calls and a final Flush, then the set of all ids
  -- holds an id exactly if the last call that upserts or deletes that entity upserts it, or if no call
  -- does and it held the id before.
  pub flushed-ids :
      (calls : List Call) (id : Text)
      → (flush_locked r marshal prefix batch_size (
          call_all r marshal prefix batch_size calls
            (fresh r law marshal prefix batch_size db0))).warnings
        ≡ 0
      → r.sismember
          (flush_locked r marshal prefix batch_size (
            call_all r marshal prefix batch_size calls
              (fresh r law marshal prefix batch_size db0))).db
          (key_ids prefix)
          id
        ≡ is_upserted id calls (r.sismember db0 (key_ids prefix) id)
  flushed-ids calls id quiet =
      run_all-members r law (all_commands marshal prefix calls) db0 _ (key_ids prefix) id
        (flushed_lem r law marshal prefix batch_size db0 calls quiet)
      ∙ all_commands-members marshal prefix id calls (r.sismember db0 (key_ids prefix) id)

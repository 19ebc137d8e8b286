-- ===== src/Watch/Apply/Written.antt =====
-- The reference store is what the calls of RedisWriter (internal/graph/rediswriter.go) make of Redis.
use otel_k8s_graph.Base.{
  ℕ, Text, List, [], ◌∷◌, ◌++◌, Map, Bool, true, false, ◌&&◌, codes, text_DecEq, nat_DecEq,
  if◌then◌else◌, ◌==◌, is_some, ◌≡◌, refl, ◌∙◌, ap, ◌≢◌, arith,
}
use otel_k8s_graph.Graph.{Kind, Edge, edge_DecEq}
use otel_k8s_graph.Graph.Keys.{
  key_ids, key_edges, key_ids-distinct, key_by_kind-distinct, key_metadata-ne-key_edges,
  key_entity-eq-key_edges, key_edges-injective,
}
use otel_k8s_graph.Redis.{sadd, srem, Redis, IsLawful, run_all-members, members, members-append}
use otel_k8s_graph.Delta.Edges.{is_valid, IsInjective}
use otel_k8s_graph.RedisWriter.{
  Call, upsert, remove, link, unlink, tick, meta_args, upsert_cmds, delete_cmds, flush_locked,
  call_all,
}
use otel_k8s_graph.RedisWriter.Buffer.{all_commands, commands_of, fresh, flushed_lem}
use otel_k8s_graph.RedisWriter.Ids.{is_upserted, flushed-ids}
use otel_k8s_graph.Watch.Apply.Store.{Store, store_writer}

-- A call, on the reference store.
abbrev pub store_call : Call → Store → Store
store_call (upsert now_ms id kind name md) s = store_writer.upsert_entity id kind name md s
store_call (remove id kind) s = store_writer.delete_entity id kind s
store_call (link from e) s = store_writer.add_edge from e s
store_call (unlink from e) s = store_writer.remove_edge from e s
store_call tick s = s

unfoldable pub store_all : List Call → Store → Store
store_all [] s = s
store_all (c ∷ cs) s = store_all cs (store_call c s)

store_all-is_upserted :
    (id : Text) (cs : List Call) (s : Store)
    → is_upserted id cs (is_some (s.entity id)) ≡ is_some ((store_all cs s).entity id)
unfolding store_all is_upserted
store_all-is_upserted id [] s = refl
store_all-is_upserted id (upsert now_ms j kind name md ∷ cs) s =
    ground (arith, store_all-is_upserted id cs (store_writer.upsert_entity j kind name md s))
store_all-is_upserted id (remove j kind ∷ cs) s =
    ground (arith, store_all-is_upserted id cs (store_writer.delete_entity j kind s))
store_all-is_upserted id (link from e ∷ cs) s =
    store_all-is_upserted id cs (store_writer.add_edge from e s)
store_all-is_upserted id (unlink from e ∷ cs) s =
    store_all-is_upserted id cs (store_writer.remove_edge from e s)
store_all-is_upserted id (tick ∷ cs) s = store_all-is_upserted id cs s

module _ (is_utf8 : Text → Bool) (marshal : Edge → Text) (inj : IsInjective is_utf8 marshal)
    (prefix : Text) (from : Text) (e : Edge) (valid : is_valid is_utf8 e ≡ true) where
  -- The call links edges with valid texts only, and deletes no entity whose id is that of the edges.
  abbrev pub IsApart : Call → Type 0
  IsApart (remove id kind) = id ≢ from ++ codes ":edges"
  IsApart (link g f) = is_valid is_utf8 f ≡ true
  IsApart (unlink g f) = is_valid is_utf8 f ≡ true
  IsApart _ = Unit

  abbrev pub AreApart : List Call → Type 0
  AreApart [] = Unit
  AreApart (c ∷ cs) = IsApart c × AreApart cs

  abbrev key : Text
  key = key_edges prefix from

  upsert-edges :
      (now_ms : ℕ) (j : Text) (kind : Kind) (name : Text) (args : Map Text Text) (b : Bool)
      → members key (marshal e) (upsert_cmds prefix now_ms j kind name args) b ≡ b
  unfolding members
  upsert-edges now_ms j kind name [] b =
      ground (arith, key_ids-distinct prefix from kind, key_by_kind-distinct prefix from kind)
  upsert-edges now_ms j kind name (kv ∷ args) b =
      ground (arith, key_ids-distinct prefix from kind, key_by_kind-distinct prefix from kind)

  delete-edges :
      (j : Text) (kind : Kind) (b : Bool)
      → j ≢ from ++ codes ":edges"
      → members key (marshal e) (delete_cmds prefix j kind) b ≡ (if j == from then false else b)
  unfolding members
  delete-edges j kind b h = ground (
    arith,
    key_ids-distinct prefix from kind,
    key_by_kind-distinct prefix from kind,
    key_metadata-ne-key_edges prefix j from,
    key_entity-eq-key_edges prefix j from,
    key_edges-injective prefix j from,
  )

  link-edges :
      (g : Text) (f : Edge) (b : Bool)
      → is_valid is_utf8 f ≡ true
      → (members key (marshal e) (sadd (key_edges prefix g) (marshal f) ∷ []) b
          ≡ (if g == from && f == e then true else b))
        × (members key (marshal e) (srem (key_edges prefix g) (marshal f) ∷ []) b
            ≡ (if g == from && f == e then false else b))
  unfolding members
  link-edges g f b ok = ground (arith, key_edges-injective prefix g from, inj f e ok valid)

  call-edges :
      (c : Call) (s : Store)
      → IsApart c
      → members key (marshal e) (commands_of marshal prefix c) (s.edge from e)
        ≡ (store_call c s).edge from e
  unfolding members
  call-edges (upsert now_ms j kind name md) s h =
      upsert-edges now_ms j kind name (meta_args md) (s.edge from e)
  call-edges (remove j kind) s h = delete-edges j kind (s.edge from e) h
  call-edges (link g f) s h = (link-edges g f (s.edge from e) h).0
  call-edges (unlink g f) s h = (link-edges g f (s.edge from e) h).1
  call-edges tick s h = refl

  all_commands-edges :
      (cs : List Call) (s : Store)
      → AreApart cs
      → members key (marshal e) (all_commands marshal prefix cs) (s.edge from e)
        ≡ (store_all cs s).edge from e
  unfolding members store_all
  all_commands-edges [] s h = refl
  all_commands-edges (c ∷ cs) s (h, hs) =
      rw
        (
          members-append key (marshal e) (commands_of marshal prefix c)
              (all_commands marshal prefix cs) (s.edge from e),
          call-edges c s h,
        )
        (all_commands-edges cs (store_call c s) hs)

  -- If Redis held an edge and an id as the reference store does, and a new writer has logged no
  -- warning after some calls and a final Flush, then Redis holds them as the store does after the
  -- calls. The condition for the edge is that its texts and those of the calls' edges are valid UTF-8,
  -- and that no call deletes the entity whose id is the edge's source with ":edges" behind it.
  pub flushed-store :
      (r : Redis) (law : IsLawful r) (batch_size : ℕ) (db0 : r.Db) (calls : List Call) (s : Store)
      → AreApart calls
      → r.sismember db0 (key_edges prefix from) (marshal e) ≡ s.edge from e
      → r.sismember db0 (key_ids prefix) from ≡ is_some (s.entity from)
      → (flush_locked r marshal prefix batch_size (
          call_all r marshal prefix batch_size calls
            (fresh r law marshal prefix batch_size db0))).warnings
        ≡ 0
      → let after =
          (flush_locked r marshal prefix batch_size (
            call_all r marshal prefix batch_size calls
              (fresh r law marshal prefix batch_size db0))).db in
        (r.sismember after (key_edges prefix from) (marshal e) ≡ (store_all calls s).edge from e)
        × (r.sismember after (key_ids prefix) from ≡ is_some ((store_all calls s).entity from))
  flushed-store r law batch_size db0 calls s apart edge_before id_before quiet =
      let ran =
        run_all-members r law (all_commands marshal prefix calls) db0 _ (key_edges prefix from)
          (marshal e) (flushed_lem r law marshal prefix batch_size db0 calls quiet) in
      let ids = flushed-ids r law marshal prefix batch_size db0 calls from quiet in
      (
        ran
            ∙ (ap (λ b. members key (marshal e) (all_commands marshal prefix calls) b) edge_before
                ∙ all_commands-edges calls s apart),
        ids ∙ (ap (λ b. is_upserted from calls b) id_before ∙ store_all-is_upserted from calls s),
      )

-- ===== src/Delta/Effect.antt =====
-- What a flush does to the database, read back through the server's documented behaviour.
use otel_k8s_graph.Base.{
  ℕ, Text, [], Option, none, some, true, text_DecEq, nat_DecEq, is_some, lookup, length, ◌≡◌, refl,
  ◌∙◌, sym,
}
use otel_k8s_graph.Graph.{Edge}
use otel_k8s_graph.Graph.Keys.{key_ids}
use otel_k8s_graph.BatchSet.{BatchWriteSet, edge_key_DecEq}
use otel_k8s_graph.Redis.{Redis, run_all, IsLawful, run_all-members}
use otel_k8s_graph.Delta.{no_stats, Writing, chunk_or_default, or_empty, write_delta_to_redis}
use otel_k8s_graph.Delta.Commands.{delta_commands}
use otel_k8s_graph.Delta.Pipeline.{write_loops_lem}
use otel_k8s_graph.Delta.Ids.{delta_commands-members, delta_commands-foreign}

module _ (r : Redis) (law : IsLawful r) (marshal : Edge → Text) (prefix : Text)
    (chunk_size ms : ℕ) where
  abbrev start : r.Db → Writing r (chunk_or_default chunk_size)
  start db = record { db = db; pipe = []; n = 0; stats = no_stats }

  -- A flush that reports no error ran the commands of the difference between the two sets, all of
  -- them and in their order, whatever the chunk size, and the statistics count them.
  pub write_delta-commands :
      (s : BatchWriteSet) (prev : Option BatchWriteSet) (db : r.Db)
      → (write_delta_to_redis r marshal prefix chunk_size ms s prev db).2 ≡ true
      → (run_all r (delta_commands marshal prefix ms s (or_empty prev)) db
          ≡ some (write_delta_to_redis r marshal prefix chunk_size ms s prev db).0)
        × ((write_delta_to_redis r marshal prefix chunk_size ms s prev db).1.commands
            ≡ length (delta_commands marshal prefix ms s (or_empty prev)))
  unfolding write_delta_to_redis
  write_delta-commands s prev db h =
      write_loops_lem r (chunk_or_default chunk_size) law db marshal prefix ms s (or_empty prev)
        (start db) refl refl refl refl h

  -- If the set of all ids held an id exactly if a previous entity had it, then after a flush that
  -- reports no error it holds that id exactly if a current entity has it, whatever the chunk size.
  pub write_delta-ids :
      (s : BatchWriteSet) (prev : Option BatchWriteSet) (db : r.Db) (id : Text)
      → r.sismember db (key_ids prefix) id ≡ is_some (lookup id (or_empty prev).entities)
      → (write_delta_to_redis r marshal prefix chunk_size ms s prev db).2 ≡ true
      → r.sismember
          (write_delta_to_redis r marshal prefix chunk_size ms s prev db).0
          (key_ids prefix)
          id
        ≡ is_some (lookup id s.entities)
  write_delta-ids s prev db id mirror h =
      let after = (write_delta_to_redis r marshal prefix chunk_size ms s prev db).0 in
      let ran =
        run_all-members r law (delta_commands marshal prefix ms s (or_empty prev)) db after
          (key_ids prefix) id (write_delta-commands s prev db h).0 in
      ran
      ∙ delta_commands-members marshal prefix ms s (or_empty prev) id
          (r.sismember db (key_ids prefix) id) (sym mirror)

  -- A flush that reports no error leaves an id of neither set as it was.
  pub write_delta-foreign :
      (s : BatchWriteSet) (prev : Option BatchWriteSet) (db : r.Db) (id : Text)
      → lookup id (or_empty prev).entities ≡ none
      → lookup id s.entities ≡ none
      → (write_delta_to_redis r marshal prefix chunk_size ms s prev db).2 ≡ true
      → r.sismember
          (write_delta_to_redis r marshal prefix chunk_size ms s prev db).0
          (key_ids prefix)
          id
        ≡ r.sismember db (key_ids prefix) id
  write_delta-foreign s prev db id gone absent h =
      let after = (write_delta_to_redis r marshal prefix chunk_size ms s prev db).0 in
      let ran =
        run_all-members r law (delta_commands marshal prefix ms s (or_empty prev)) db after
          (key_ids prefix) id (write_delta-commands s prev db h).0 in
      ran
      ∙ delta_commands-foreign marshal prefix ms s (or_empty prev) id
          (r.sismember db (key_ids prefix) id) gone absent

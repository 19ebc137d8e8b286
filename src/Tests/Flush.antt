-- ===== src/Tests/Flush.antt =====
-- A server whose commands all succeed, and a flush of two sets against it.
use otel_k8s_graph.Base.{
  ltb, suc, Text, List, [], ◌∷◌, Option, none, some, Bool, true, ◌&&◌, codes, Text-discrete,
  text_DecEq, nat_DecEq, ◌==◌, is_some, lookup, length, ◌≡◌, refl, arith,
}
use otel_k8s_graph.Graph.{Edge}
use otel_k8s_graph.Graph.Keys.{key_ids}
use otel_k8s_graph.BatchSet.{EdgeSetKey-discrete, edge_key_DecEq}
use otel_k8s_graph.Redis.{Cmd, Redis, run_all, on_member, on_field, IsLawful}
use otel_k8s_graph.Delta.{FlushStats, write_delta_to_redis}
use otel_k8s_graph.Delta.Edges.{IsInjective}
use otel_k8s_graph.Delta.Commands.{delta_commands}
use otel_k8s_graph.Delta.Effect.{write_delta-commands, write_delta-ids}
use otel_k8s_graph.Tests.Sets.{orders, users, sample, pushed}

-- The hashes and the sets.
pub record Tables : Type 0 where
  pub field_of : Text → Text → Option Text
  pub member_of : Text → Text → Bool

unfoldable pub step : Cmd → Tables → Tables
step c db = record {
  field_of = λ key f. on_field key f c (db.field_of key f);
  member_of = λ key m. on_member key m c (db.member_of key m);
}

unfoldable pub run_pipe : List Cmd → Tables → Tables
unfolding step
run_pipe [] db = db
run_pipe (c ∷ cs) db = run_pipe cs (step c db)

abbrev pub server : Redis
server = record {
  Db = Tables;
  hget = λ db. db.field_of;
  sismember = λ db. db.member_of;
  run = λ c db. some (step c db);
  exec = λ cs db. (run_pipe cs db, true);
}

run_pipe_lem : (cs : List Cmd) (db : Tables) → run_all server cs db ≡ some (run_pipe cs db)
unfolding run_all run_pipe
run_pipe_lem [] db = refl
run_pipe_lem (c ∷ cs) db = run_pipe_lem cs (step c db)

pub server-IsLawful : IsLawful server
unfolding step
server-IsLawful = record {
  member_law = λ c db db' key m h. ground arith;
  field_law = λ c db db' key f h. ground arith;
  exec_law = λ cs db db' h. ground (arith, run_pipe_lem cs db);
}

-- An encoding that ends each field but the last with a zero.
unfoldable pub pack : Text → Text → Text
pack [] rest = 0 ∷ rest
pack (c ∷ field) rest = suc c ∷ pack field rest

pack_injective : (a b r s : Text) → pack a r ≡ pack b s → (a ≡ b) × (r ≡ s)
unfolding pack
pack_injective [] [] r s h = ground arith
pack_injective [] (c ∷ b) r s h = ground arith
pack_injective (c ∷ a) [] r s h = ground arith
pack_injective (c ∷ a) (d ∷ b) r s h =
    let head : c ≡ d = ground arith in
    let tail : pack a r ≡ pack b s = ground arith in
    let ih = pack_injective a b r s tail in ground (arith, head, ih)

abbrev pub marshal : Edge → Text
marshal e = pack e.kind (pack e.to_resource e.action)

-- ASCII texts, which are valid UTF-8.
abbrev pub is_ascii : Text → Bool
is_ascii [] = true
is_ascii (c ∷ s) = ltb c 128 && is_ascii s

pub marshal-IsInjective : IsInjective is_ascii marshal
marshal-IsInjective e g v w h =
    let one = pack_injective e.kind g.kind _ _ h in
    let two = pack_injective e.to_resource g.to_resource _ _ one.1 in ground (arith, one, two)

abbrev pub prefix : Text
prefix = codes "otel"

-- A database that holds the ids of `pushed`.
abbrev database : Tables
database = record {
  field_of = λ key f. none;
  member_of = λ key m. key == key_ids prefix && m == users;
}

-- Two commands to a pipeline, so that the flush sends several.
abbrev flushed : Tables × FlushStats × Bool
flushed = write_delta_to_redis server marshal prefix 2 1000 sample (some pushed) database

flushed_stats : flushed.1 ≡ record {
  added_entities = 1;
  removed_entities = 0;
  added_edges = 2;
  removed_edges = 0;
  commands = 5;
}
unfolding write_delta_to_redis lookup Text-discrete EdgeSetKey-discrete
flushed_stats = refl

flushed_ok : flushed.2 ≡ true
unfolding write_delta_to_redis lookup Text-discrete EdgeSetKey-discrete
flushed_ok = refl

write_delta-commands_example :
    (run_all server (delta_commands marshal prefix 1000 sample pushed) database ≡ some flushed.0)
    × (flushed.1.commands ≡ length (delta_commands marshal prefix 1000 sample pushed))
write_delta-commands_example =
    write_delta-commands server server-IsLawful marshal prefix 2 1000 sample (some pushed) database
      flushed_ok

users_before : database.member_of (key_ids prefix) users ≡ is_some (lookup users pushed.entities)
unfolding lookup key_ids Text-discrete
users_before = refl

orders_before : database.member_of (key_ids prefix) orders ≡ is_some (lookup orders pushed.entities)
unfolding lookup key_ids Text-discrete
orders_before = refl

write_delta-ids_example :
    flushed.0.member_of (key_ids prefix) orders ≡ is_some (lookup orders sample.entities)
write_delta-ids_example =
    write_delta-ids server server-IsLawful marshal prefix 2 1000 sample (some pushed) database
      orders orders_before flushed_ok

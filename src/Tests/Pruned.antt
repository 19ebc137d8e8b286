-- ===== src/Tests/Pruned.antt =====
-- A prune of a small database.
use otel_k8s_graph.Base.{insert}
use otel_k8s_graph.Reader.Int64.{parse_int64}
use otel_k8s_graph.Base.{
  Text, List, [], ◌∷◌, ◌++◌, Map, Option, none, some, Bool, true, false, not, ◌&&◌, ◌||◌, codes,
  Text-discrete, text_DecEq, nat_DecEq, if◌then◌else◌, ◌==◌, ◌≡◌, refl, arith, HasUniqueKeys,
  length, is_some, lookup,
}
use otel_k8s_graph.Graph.Keys.{key_entity, key_edges, key_ids}
use otel_k8s_graph.Redis.{
  Redis, Cmd, hset, sadd, srem, del, is_in, on_member, on_field, run_all, IsLawful,
}
use otel_k8s_graph.Reader.Prune.{prune, is_stale}
use otel_k8s_graph.Reader.Prune.Stale.{IsListed, DropsAnswered, StripAnswered, StripsAnswered}
use otel_k8s_graph.Reader.Prune.Exact.{
  prune-ids, prune-edges, is_gone, leads_to_gone, RestAnswered, IsAnswered,
}
use otel_k8s_graph.Tests.Reader.{unmarshal}

-- A server that can list its sets: it remembers what was ever added.
record Store : Type 0 where
  field_of : Text → Text → Option Text
  holds : Text → Text → Bool
  known : List Text

abbrev member_of : Store → Text → Text → Bool
member_of db key m = is_in m db.known && db.holds key m

abbrev added : Cmd → List Text → List Text
added (hset key fvs) known = known
added (sadd key m) known = m ∷ known
added (srem key m) known = known
added (del keys) known = known

run_one : Cmd → Store → Store
run_one c db = record {
  field_of = λ key f. on_field key f c (db.field_of key f);
  holds = λ key m. on_member key m c (member_of db key m);
  known = added c db.known;
}

run_pipe : List Cmd → Store → Store
unfolding run_one
run_pipe [] db = db
run_pipe (c ∷ cs) db = run_pipe cs (run_one c db)

abbrev store : Redis
store = record {
  Db = Store;
  hget = λ db. db.field_of;
  sismember = member_of;
  run = λ c db. some (run_one c db);
  exec = λ cs db. (run_pipe cs db, true);
}

run_pipe_lem : (cs : List Cmd) (db : Store) → run_all store cs db ≡ some (run_pipe cs db)
unfolding run_all run_pipe
run_pipe_lem [] db = refl
run_pipe_lem (c ∷ cs) db = run_pipe_lem cs (run_one c db)

member_lem :
    (c : Cmd) (db : Store) (key m : Text)
    → member_of (run_one c db) key m ≡ on_member key m c (member_of db key m)
unfolding run_one
member_lem (hset k fvs) db key m = ground arith
member_lem (sadd k x) db key m = ground arith
member_lem (srem k x) db key m = ground arith
member_lem (del ks) db key m = ground arith

store-IsLawful : IsLawful store
unfolding run_one
store-IsLawful = record {
  member_law = λ c db db' key m h. ground (arith, member_lem c db key m);
  field_law = λ c db db' key f h. ground arith;
  exec_law = λ cs db db' h. ground (arith, run_pipe_lem cs db);
}

-- The known members of a set.
filter : (Text → Bool) → List Text → List Text
filter p [] = []
filter p (m ∷ ms) = let rest = filter p ms in if p m then m ∷ rest else rest

smembers : Store → Text → Option (List Text)
smembers db key = some (filter (db.holds key) db.known)

filter_lem :
    (p : Text → Bool) (ms : List Text) (m : Text) → is_in m (filter p ms) ≡ (is_in m ms && p m)
unfolding filter
filter_lem p [] m = refl
filter_lem p (x ∷ ms) m = ground (arith, filter_lem p ms m)

smembers-IsListed : (db : Store) (key : Text) → IsListed store smembers db key
unfolding smembers
smembers-IsListed db key m = filter_lem (db.holds key) db.known m

-- This server executes every pipeline without an error.
drops :
    (gone : List (Text × Unit {0})) (db : Store) → DropsAnswered store smembers unmarshal [] gone db
drops [] db = tt
drops ((id, u) ∷ gone) db = (refl, drops gone _)

strip_answered :
    (gone : Map Text (Unit {0})) (sid : Text) (raws : List Text) (db : Store)
    → StripAnswered store smembers unmarshal [] gone sid raws db
strip_answered gone sid [] db = tt
strip_answered gone sid (raw ∷ raws) db = (λ h. refl, strip_answered gone sid raws _)

strips :
    (gone : Map Text (Unit {0})) (sids : List Text) (db : Store)
    → StripsAnswered store smembers unmarshal [] gone sids db
strips gone [] db = tt
strips gone (sid ∷ sids) db =
    (smembers-IsListed db (key_edges [] sid), strip_answered gone sid _ db, strips gone sids _)

rest : (gone : Map Text (Unit {0})) (db : Store) → RestAnswered store smembers unmarshal [] gone db
rest [] db = tt
rest ((id, u) ∷ gone) db =
    (drops ((id, u) ∷ gone) db, smembers-IsListed _ (key_ids []), strips ((id, u) ∷ gone) _ _)

-- A pod last seen at 17 with an edge to a node last seen at 5.
abbrev database : Store
database = record {
  field_of = λ key f.
      if f == codes "last_seen_at_ms" && key == codes ":entity:pod:a"
      then some (codes "17")
      else if f == codes "last_seen_at_ms" && key == codes ":entity:node:n"
      then some (codes "5")
      else none;
  holds = λ key m. key == codes ":ids" || key == codes ":entity:pod:a:edges" && m == codes "node:n";
  known = codes "pod:a" ∷ codes "node:n" ∷ [];
}

answered : IsAnswered store smembers unmarshal [] 10 database
answered = record { ids = smembers-IsListed database (key_ids []); rest = rest _ database }

pruned_count : (prune store smembers unmarshal [] 10 database).1 ≡ 1
unfolding prune smembers filter Text-discrete key_ids key_entity parse_int64 insert
pruned_count = refl

prune-ids_example :
    ((id : Text)
      → store.sismember (prune store smembers unmarshal [] 10 database).0 (key_ids []) id ≡ (
          store.sismember database (key_ids []) id
          && not (is_stale store smembers unmarshal [] database 10 id)))
    × ((gone : Map Text (Unit {0})) × HasUniqueKeys gone
        × ((prune store smembers unmarshal [] 10 database).1 ≡ length gone)
        × ((id : Text)
            → is_some (lookup id gone) ≡ is_gone store smembers unmarshal [] database 10 id))
prune-ids_example = prune-ids store store-IsLawful smembers unmarshal [] 10 database answered

kept : is_gone store smembers unmarshal [] database 10 (codes "pod:a") ≡ false
unfolding key_ids Text-discrete key_entity parse_int64
kept = refl

alias : is_gone store smembers unmarshal [] database 10 (codes "pod:a" ++ codes ":edges") ≡ false
unfolding key_ids Text-discrete
alias = refl

prune-edges_example :
    store.sismember
      (prune store smembers unmarshal [] 10 database).0
      (key_edges [] (codes "pod:a"))
      (codes "node:n")
    ≡ (store.sismember database (key_edges [] (codes "pod:a")) (codes "node:n")
        && not (
            store.sismember database (key_ids []) (codes "pod:a")
            && leads_to_gone store smembers unmarshal [] database 10 (codes "node:n")))
prune-edges_example =
    prune-edges store store-IsLawful smembers unmarshal [] 10 database (codes "pod:a")
      (codes "node:n") answered kept alias

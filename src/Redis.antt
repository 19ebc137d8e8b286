-- ===== src/Redis.antt =====
-- What go-redis and the Redis server do for the repository, as an interface: the commands that the
-- sources queue, the reads, and a pipeline's execution. Nothing of the server is modelled.
use otel_k8s_graph.Base.{
  Text, List, [], ◌∷◌, ◌++◌, Map, Option, none, some, Bool, true, false, ◌&&◌, ◌||◌, text_DecEq,
  nat_DecEq, if◌then◌else◌, ◌==◌, ◌or_else◌, lookup, ◌≡◌, refl, inl, inr, arith, Option-cases,
}

-- The commands that the sources put into pipelines.
pub data Cmd : Type 0 where
  hset : Text → Map Text Text → Cmd
  sadd srem : Text → Text → Cmd
  del : List Text → Cmd

abbrev pub is_in : Text → List Text → Bool
is_in k [] = false
is_in k (j ∷ js) = j == k || is_in k js

pub record Redis : Type 1 where
  pub Db : Type 0
  -- HGET: a field of a hash
  pub hget : Db → Text → Text → Option Text
  -- SISMEMBER
  pub sismember : Db → Text → Text → Bool
  -- One command; `none` is an error reply.
  pub run : Cmd → Db → Option Db
  -- pipe.Exec: what the database is then, and whether there was no error.
  pub exec : List Cmd → Db → Db × Bool

-- The commands in order, none of which is answered by an error.
unfoldable pub run_all : (r : Redis) → List Cmd → r.Db → Option r.Db
run_all r [] db = some db
run_all r (c ∷ cs) db = elim (r.run c db) [ none ↦ none | some db' ↦ run_all r cs db' ]

-- What a command that is answered without an error does to membership, and to a field of a hash.
abbrev pub on_member : Text → Text → Cmd → Bool → Bool
on_member key m (hset k fvs) b = b
on_member key m (sadd k x) b = if k == key && x == m then true else b
on_member key m (srem k x) b = if k == key && x == m then false else b
on_member key m (del ks) b = if is_in key ks then false else b

abbrev pub on_field : Text → Text → Cmd → Option Text → Option Text
on_field key f (hset k fvs) o = if k == key then lookup f fvs or_else o else o
on_field key f (sadd k x) o = o
on_field key f (srem k x) o = o
on_field key f (del ks) o = if is_in key ks then none else o

-- The documented behaviour of the commands, and of a pipeline that reports no error.
pub record IsLawful (r : Redis) : Type 0 where
  pub member_law :
      (c : Cmd) (db db' : r.Db) (key m : Text)
      → r.run c db ≡ some db'
      → r.sismember db' key m ≡ on_member key m c (r.sismember db key m)
  pub field_law :
      (c : Cmd) (db db' : r.Db) (key f : Text)
      → r.run c db ≡ some db'
      → r.hget db' key f ≡ on_field key f c (r.hget db key f)
  pub exec_law :
      (cs : List Cmd) (db db' : r.Db) → r.exec cs db ≡ (db', true) → run_all r cs db ≡ some db'

unfoldable pub members : Text → Text → List Cmd → Bool → Bool
members key m [] b = b
members key m (c ∷ cs) b = members key m cs (on_member key m c b)

unfoldable pub fields : Text → Text → List Cmd → Option Text → Option Text
fields key f [] o = o
fields key f (c ∷ cs) o = fields key f cs (on_field key f c o)

pub members-append :
    (key m : Text) (cs ds : List Cmd) (b : Bool)
    → members key m (cs ++ ds) b ≡ members key m ds (members key m cs b)
unfolding members
members-append key m [] ds b = refl
members-append key m (c ∷ cs) ds b = members-append key m cs ds (on_member key m c b)

pub fields-append :
    (key f : Text) (cs ds : List Cmd) (o : Option Text)
    → fields key f (cs ++ ds) o ≡ fields key f ds (fields key f cs o)
unfolding fields
fields-append key f [] ds o = refl
fields-append key f (c ∷ cs) ds o = fields-append key f cs ds (on_field key f c o)

module _ (r : Redis) (law : IsLawful r) where
  pub run_all-members :
      (cs : List Cmd) (db db' : r.Db) (key m : Text)
      → run_all r cs db ≡ some db'
      → r.sismember db' key m ≡ members key m cs (r.sismember db key m)
  unfolding run_all members
  run_all-members [] db db' key m h = ground arith
  run_all-members (c ∷ cs) db db' key m h = elim (Option-cases (r.run c db)) [
    | inl e ↦ ground arith
    | inr (mid, e) ↦
        ground (arith, run_all-members cs mid db' key m, law.member_law c db mid key m e)
  ]

  pub run_all-fields :
      (cs : List Cmd) (db db' : r.Db) (key f : Text)
      → run_all r cs db ≡ some db'
      → r.hget db' key f ≡ fields key f cs (r.hget db key f)
  unfolding run_all fields
  run_all-fields [] db db' key f h = ground arith
  run_all-fields (c ∷ cs) db db' key f h = elim (Option-cases (r.run c db)) [
    | inl e ↦ ground arith
    | inr (mid, e) ↦ ground (arith, run_all-fields cs mid db' key f, law.field_law c db mid key f e)
  ]

pub run_all-append :
    (r : Redis) (cs ds : List Cmd) (db mid db' : r.Db)
    → run_all r cs db ≡ some mid
    → run_all r ds mid ≡ some db'
    → run_all r (cs ++ ds) db ≡ some db'
unfolding run_all
run_all-append r [] ds db mid db' h k = ground arith
run_all-append r (c ∷ cs) ds db mid db' h k = elim (Option-cases (r.run c db)) [
  | inl e ↦ ground arith
  | inr (next, e) ↦ ground (arith, run_all-append r cs ds next mid db')
]

-- ===== src/RedisWriter/Batches.antt =====
-- Pipelines that are sent one after the other, as the writer of graph-k8s does.
use otel_k8s_graph.Base.{
  ℕ, suc, ◌+◌, List, [], ◌∷◌, ◌++◌, append-nil, append_assoc, text_DecEq, nat_DecEq, ◌≢◌,
  if◌then◌else◌, length, ◌≡◌, refl, arith,
}
use otel_k8s_graph.Redis.{Cmd, Redis}

-- The commands of some pipelines, in order.
abbrev pub concat : List (List Cmd) → List Cmd
concat [] = []
concat (b ∷ bs) = b ++ concat bs

abbrev pub AllNonEmpty : List (List Cmd) → Type 0
AllNonEmpty [] = Unit
AllNonEmpty ([] ∷ bs) = ⊥
AllNonEmpty ((c ∷ b) ∷ bs) = AllNonEmpty bs

-- Pipelines executed one after the other: the database, and the number of those with an error
-- besides `failed`.
abbrev pub exec_all : (r : Redis) → List (List Cmd) → r.Db → ℕ → r.Db × ℕ
exec_all r [] db failed = (db, failed)
exec_all r (b ∷ bs) db failed =
    let done = r.exec b db in exec_all r bs done.0 (if done.1 then failed else suc failed)

pub concat-snoc : (bs : List (List Cmd)) (b : List Cmd) → concat (bs ++ b ∷ []) ≡ concat bs ++ b
concat-snoc [] b = append-nil b
concat-snoc (x ∷ bs) b = rw (concat-snoc bs b, append_assoc) refl

pub snoc-AllNonEmpty :
    (bs : List (List Cmd)) (b : List Cmd)
    → AllNonEmpty bs
    → AllNonEmpty (b ∷ [])
    → AllNonEmpty (bs ++ b ∷ [])
snoc-AllNonEmpty [] b h k = k
snoc-AllNonEmpty ([] ∷ bs) b h k = h
snoc-AllNonEmpty ((c ∷ x) ∷ bs) b h k = snoc-AllNonEmpty bs b h k

pub exec_all-snoc :
    (r : Redis) (bs : List (List Cmd)) (b : List Cmd) (db : r.Db) (failed : ℕ)
    → exec_all r (bs ++ b ∷ []) db failed
      ≡ exec_all r (b ∷ []) (exec_all r bs db failed).0 (exec_all r bs db failed).1
exec_all-snoc r [] b db failed = refl
exec_all-snoc r (x ∷ bs) b db failed =
    let done = r.exec x db in exec_all-snoc r bs b done.0 (if done.1 then failed else suc failed)

pub length-append : (a b : List Cmd) → length (a ++ b) ≡ length a + length b
length-append [] b = omega arith
length-append (c ∷ a) b = omega (arith, length-append a b)

pub sent_lem : (cs : List Cmd) → length cs ≢ 0 → AllNonEmpty (cs ∷ [])
sent_lem [] h = absurd (h refl)
sent_lem (c ∷ cs) h = tt

pub length-nil : (cs : List Cmd) → length cs ≡ 0 → cs ≡ []
length-nil [] h = refl
length-nil (c ∷ cs) h = absurd (omega arith)

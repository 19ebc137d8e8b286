-- ===== src/RedisWriter/Buffer.antt =====
-- However the buffer is cut into pipelines, each of the calls' commands is put into one, in order.
use otel_k8s_graph.Base.{
  ℕ, zero, suc, ◌+◌, ◌<◌, Text, List, [], ◌∷◌, ◌++◌, append-nil, append_assoc, Map, some,
  text_DecEq, nat_DecEq, ◌==◌, ◌∙◌, leb, length, ◌≡◌, refl, ap, subst, inl, inr, arith, Bool-cases,
}
use otel_k8s_graph.Graph.{Kind, Edge}
use otel_k8s_graph.Graph.Keys.{key_edges}
use otel_k8s_graph.Redis.{Cmd, sadd, srem, Redis, IsLawful, run_all, run_all-append}
use otel_k8s_graph.RedisWriter.Batches.{
  concat, AllNonEmpty, exec_all, concat-snoc, snoc-AllNonEmpty, exec_all-snoc, length-append,
  sent_lem, length-nil,
}
use otel_k8s_graph.RedisWriter.{
  Call, upsert, remove, link, unlink, tick, RedisWriter, meta_args, upsert_cmds, upsert_count,
  delete_cmds, batch_or_default, flush_locked, add, call, call_all,
}

-- The commands of a call, and of a run.
abbrev pub commands_of : (Edge → Text) → Text → Call → List Cmd
commands_of marshal prefix (upsert now_ms id kind name md) =
    upsert_cmds prefix now_ms id kind name (meta_args md)
commands_of marshal prefix (remove id kind) = delete_cmds prefix id kind
commands_of marshal prefix (link from e) = sadd (key_edges prefix from) (marshal e) ∷ []
commands_of marshal prefix (unlink from e) = srem (key_edges prefix from) (marshal e) ∷ []
commands_of marshal prefix tick = []

abbrev pub all_commands : (Edge → Text) → Text → List Call → List Cmd
all_commands marshal prefix [] = []
all_commands marshal prefix (c ∷ cs) =
    commands_of marshal prefix c ++ all_commands marshal prefix cs

module _ (r : Redis) (law : IsLawful r) (marshal : Edge → Text) (prefix : Text) (batch_size : ℕ)
    (db0 : r.Db) where
  abbrev pub Writing : Type 0
  Writing = RedisWriter r marshal prefix batch_size

  -- The pipelines that were sent, none of them empty, and what is buffered are together the commands
  -- so far, in order; the database and the number of warnings are those of executing the pipelines
  -- one after the other; the buffer is not full; and if nothing failed, the database is what the
  -- commands that were sent make of it.
  pub record IsBuffer (cs : List Cmd) (w : Writing) : Type 0 where
    pub batches : List (List Cmd)
    pub filled : AllNonEmpty batches
    pub all : concat batches ++ w.pipe ≡ cs
    pub executed : exec_all r batches db0 0 ≡ (w.db, w.warnings)
    pub size : w.n ≡ length w.pipe
    pub room : w.n < batch_or_default batch_size
    pub ran : w.warnings ≡ 0 → run_all r (concat batches) db0 ≡ some w.db

  positive : 0 < batch_or_default batch_size
  positive = at batch_size
    where
      at : (n : ℕ) → 0 < batch_or_default n
      at zero = omega arith
      at (suc n) = omega arith

  -- A flush empties a buffer, even one that is full.
  flush_locked-IsBuffer :
      (bs : List (List Cmd)) (w : Writing)
      → w.n ≡ length w.pipe
      → AllNonEmpty bs
      → exec_all r bs db0 0 ≡ (w.db, w.warnings)
      → (w.warnings ≡ 0 → run_all r (concat bs) db0 ≡ some w.db)
      → IsBuffer (concat bs ++ w.pipe) (flush_locked r marshal prefix batch_size w)
        × ((flush_locked r marshal prefix batch_size w).pipe ≡ [])
  unfolding flush_locked
  flush_locked-IsBuffer bs w size filled executed ran = elim (Bool-cases (w.n == 0)) [
    | inl e ↦
        let empty = length-nil w.pipe (ground (arith, size)) in
        rw e (
          record {
            batches = bs;
            filled = filled;
            all = refl;
            executed = executed;
            size = size;
            room = ground (arith, positive);
            ran = ran;
          },
          empty,
        )
    | inr e ↦ elim (Bool-cases (r.exec w.pipe w.db).1) [
      | inl ok ↦
          rw (e, ok)
            (
              record {
                batches = bs ++ w.pipe ∷ [];
                filled = snoc-AllNonEmpty bs w.pipe filled (sent_lem w.pipe (ground (arith, size)));
                all = append-nil (concat (bs ++ w.pipe ∷ [])) ∙ concat-snoc bs w.pipe;
                executed = exec_all-snoc r bs w.pipe db0 0 ∙ rw (executed, ok) refl;
                size = refl;
                room = positive;
                ran = λ none_failed. rw (concat-snoc bs w.pipe) (
                    run_all-append r (concat bs) w.pipe db0 w.db _ (ran none_failed)
                      (law.exec_law w.pipe w.db _ (λ i. ((r.exec w.pipe w.db).0, ok i))));
              },
              refl,
            )
      | inr bad ↦
          rw (e, bad)
            (
              record {
                batches = bs ++ w.pipe ∷ [];
                filled = snoc-AllNonEmpty bs w.pipe filled (sent_lem w.pipe (ground (arith, size)));
                all = append-nil (concat (bs ++ w.pipe ∷ [])) ∙ concat-snoc bs w.pipe;
                executed = exec_all-snoc r bs w.pipe db0 0 ∙ rw (executed, bad) refl;
                size = refl;
                room = positive;
                ran = λ none_failed. absurd (omega arith);
              },
              refl,
            )
    ]
  ]

  add-IsBuffer :
      (cs new : List Cmd) (cmds : ℕ) (w : Writing)
      → cmds ≡ length new
      → IsBuffer cs w
      → IsBuffer (cs ++ new) (add r marshal prefix batch_size cmds new w)
  unfolding add
  add-IsBuffer cs new cmds w c h =
      let w' : Writing = record {
        db = w.db;
        pipe = w.pipe ++ new;
        n = w.n + cmds;
        warnings = w.warnings;
      } in
      let size : w'.n ≡ length w'.pipe = omega (arith, h.size, length-append w.pipe new) in
      let all : concat h.batches ++ w'.pipe ≡ cs ++ new =
        rw (← append_assoc) (ap (λ x. x ++ new) h.all) in
      elim (Bool-cases (leb (batch_or_default batch_size) w'.n)) [
        | inl e ↦ rw e (
            subst (λ x. IsBuffer x (flush_locked r marshal prefix batch_size w')) all
              (flush_locked-IsBuffer h.batches w' size h.filled h.executed h.ran).0)
        | inr e ↦ rw e (record {
          batches = h.batches;
          filled = h.filled;
          all = all;
          executed = h.executed;
          size = size;
          room = ground arith;
          ran = h.ran;
        })
      ]

  upsert_count_lem :
      (now_ms : ℕ) (id : Text) (kind : Kind) (name : Text) (args : Map Text Text)
      → upsert_count args ≡ length (upsert_cmds prefix now_ms id kind name args)
  upsert_count_lem now_ms id kind name [] = refl
  upsert_count_lem now_ms id kind name (kv ∷ args) = refl

  call-IsBuffer :
      (c : Call) (cs : List Cmd) (w : Writing)
      → IsBuffer cs w
      → IsBuffer (cs ++ commands_of marshal prefix c) (call r marshal prefix batch_size c w)
  unfolding call
  call-IsBuffer (upsert now_ms id kind name md) cs w h =
      add-IsBuffer cs _ _ w (upsert_count_lem now_ms id kind name (meta_args md)) h
  call-IsBuffer (remove id kind) cs w h = add-IsBuffer cs _ 3 w refl h
  call-IsBuffer (link from e) cs w h = add-IsBuffer cs _ 1 w refl h
  call-IsBuffer (unlink from e) cs w h = add-IsBuffer cs _ 1 w refl h
  call-IsBuffer tick cs w h =
      rw (append-nil, ← h.all)
        (flush_locked-IsBuffer h.batches w h.size h.filled h.executed h.ran).0

  call_all-IsBuffer :
      (calls : List Call) (cs : List Cmd) (w : Writing)
      → IsBuffer cs w
      → IsBuffer
          (cs ++ all_commands marshal prefix calls)
          (call_all r marshal prefix batch_size calls w)
  unfolding call_all
  call_all-IsBuffer [] cs w h = rw append-nil h
  call_all-IsBuffer (c ∷ calls) cs w h =
      rw (← append_assoc) (call_all-IsBuffer calls _ _ (call-IsBuffer c cs w h))

  abbrev pub fresh : Writing
  fresh = record { db = db0; pipe = []; n = 0; warnings = 0 }

  -- After any calls the buffer of a new writer holds fewer commands than the batch size (1000 if it is
  -- not positive). The pipelines that were executed, none of them empty, and the buffer are together
  -- the commands of the calls, each once and in order; the database is what executing these pipelines
  -- one after the other leaves, there are as many warnings as pipelines with an error, and without
  -- any the database is what the commands of the pipelines make of it.
  pub call_all-fresh-IsBuffer :
      (calls : List Call)
      → IsBuffer
          (all_commands marshal prefix calls)
          (call_all r marshal prefix batch_size calls fresh)
  call_all-fresh-IsBuffer calls = call_all-IsBuffer calls [] fresh (record {
    batches = [];
    filled = tt;
    executed = refl;
    all = refl;
    size = refl;
    room = positive;
    ran = λ h. unfold run_all in refl;
  })

  -- If a new writer has logged no warning after some calls and a final Flush, the database is what
  -- the commands of the calls make of it, one after the other.
  pub flushed_lem :
      (calls : List Call)
      → (flush_locked r marshal prefix batch_size
          (call_all r marshal prefix batch_size calls fresh)).warnings
        ≡ 0
      → run_all r (all_commands marshal prefix calls) db0
        ≡ some
            (flush_locked r marshal prefix batch_size
              (call_all r marshal prefix batch_size calls fresh)).db
  flushed_lem calls quiet =
      let w = call_all r marshal prefix batch_size calls fresh in
      let h = call_all-fresh-IsBuffer calls in
      let f = flush_locked-IsBuffer h.batches w h.size h.filled h.executed h.ran in
      let everything : concat f.0.batches ≡ all_commands marshal prefix calls =
        rw (f.1, append-nil, h.all) at f.0.all in
      subst (λ cs. run_all r cs db0 ≡ some (flush_locked r marshal prefix batch_size w).db)
        everything (f.0.ran quiet)

-- ===== src/Delta/Pipeline.antt =====
-- However the commands are cut into pipelines, a flush without an error runs the commands of the
-- difference in order.
use otel_k8s_graph.Base.{
  ℕ, ◌+◌, Text, List, [], ◌∷◌, ◌++◌, append-nil, append_assoc, some, Bool, true, false, text_DecEq,
  nat_DecEq, if◌then◌else◌, ◌==◌, leb, is_some, lookup, length, ◌≡◌, refl, sym, ap, subst, inl, inr,
  arith, Bool-cases,
}
use otel_k8s_graph.Graph.{Edge, Time}
use otel_k8s_graph.Graph.Keys.{key_edges}
use otel_k8s_graph.BatchSet.{EntitySetVal, EdgeSetKey, BatchWriteSet, edge_key_DecEq}
use otel_k8s_graph.Redis.{Cmd, sadd, srem, Redis, run_all, IsLawful, run_all-append}
use otel_k8s_graph.Delta
use otel_k8s_graph.Delta.{
  count_added_entity, count_removed_entity, count_added_edge, count_removed_edge, FlushStats,
  no_stats, entity_fields, edge_of, metadata_cmds, add_entity_cmds, remove_entity_cmds, Writing,
  Step, flush, add, queue, for_each, add_entity, remove_entity, add_edge, remove_edge, write_loops,
  chunk_or_default, or_empty, write_delta_to_redis,
}
use otel_k8s_graph.Delta.Commands.{
  gather, entity_added, entity_removed, edge_added, edge_removed, delta_commands,
}

length-append : (a b : List Cmd) → length (a ++ b) ≡ length a + length b
length-append [] b = omega arith
length-append (c ∷ a) b = omega (arith, length-append a b)

module _ (r : Redis) (chunk : ℕ) (law : IsLawful r) (db0 : r.Db) where
  -- What was run and what is queued are together the commands so far.
  record Progress (cs : List Cmd) (w : Writing r chunk) : Type 0 where
    executed : List Cmd
    ran : run_all r executed db0 ≡ some w.db
    all : executed ++ w.pipe ≡ cs
    size : w.n ≡ length w.pipe
    total : w.stats.commands ≡ length cs

  length-nil : (cs : List Cmd) → length cs ≡ 0 → cs ≡ []
  length-nil [] h = refl
  length-nil (c ∷ cs) h = absurd (omega arith)

  -- A step that is not stopped by an error queues these commands.
  abbrev Emits : Step r chunk → List Cmd → Type 0
  Emits m cs =
      (done : List Cmd) (w : Writing r chunk)
      → Progress done w
      → (m w).1 ≡ true
      → Progress (done ++ cs) (m w).0

  Emits-seq :
      (m k : Step r chunk) (cs ds : List Cmd)
      → Emits m cs
      → Emits k ds
      → Emits (Delta.◌>>◌ r chunk m k) (cs ++ ds)
  Emits-seq m k cs ds em ek done w p h = elim (Bool-cases (m w).1) [
    | inl e ↦ rw (e, ← append_assoc) (ek (done ++ cs) (m w).0 (em done w p e) (rw e at h))
    | inr e ↦ ground arith
  ]

  flush-Progress :
      (cs : List Cmd) (w : Writing r chunk)
      → Progress cs w
      → (flush r chunk w).1 ≡ true
      → Progress cs (flush r chunk w).0 × ((flush r chunk w).0.pipe ≡ [])
  unfolding flush
  flush-Progress cs w p h = elim (Bool-cases (w.n == 0)) [
    | inl e ↦ rw e (p, length-nil w.pipe (ground (arith, p.size)))
    | inr e ↦
        let sent = r.exec w.pipe w.db in
        let done : sent.1 ≡ true = ground arith in
        let new : run_all r w.pipe w.db ≡ some sent.0 =
          law.exec_law w.pipe w.db sent.0 (λ i. (sent.0, done i)) in
        rw e (
          record {
            executed = p.executed ++ w.pipe;
            ran = run_all-append r p.executed w.pipe db0 w.db sent.0 p.ran new;
            all = rw append-nil p.all;
            size = refl;
            total = p.total;
          },
          refl,
        )
  ]

  queue-Progress :
      (cs new : List Cmd) (cmds : ℕ) (tally : FlushStats → FlushStats) (w : Writing r chunk)
      → cmds ≡ length new
      → (tally w.stats).commands ≡ w.stats.commands
      → Progress cs w
      → (queue r chunk new cmds tally w).1 ≡ true
      → Progress (cs ++ new) (queue r chunk new cmds tally w).0
  unfolding queue add
  queue-Progress cs new cmds tally w c t p h =
      let w' : Writing r chunk = record {
        db = w.db;
        pipe = w.pipe ++ new;
        n = w.n + cmds;
        stats = (let st = tally w.stats in record st { commands = st.commands + cmds });
      } in
      let q : Progress (cs ++ new) w' = record {
        executed = p.executed;
        ran = p.ran;
        all = rw (← append_assoc) (ap (λ x. x ++ new) p.all);
        size = omega (arith, p.size, length-append w.pipe new);
        total = omega (arith, p.total, length-append cs new);
      } in
      elim (Bool-cases (leb chunk (w.n + cmds))) [
        | inl e ↦ rw e (flush-Progress (cs ++ new) w' q (rw e at h)).0
        | inr e ↦ rw e q
      ]

  for_each-Emits :
      {A : Type 0} (f : A → List Cmd) (body : A → Step r chunk)
      → ((x : A) → Emits (body x) (f x))
      → (xs : List A) → Emits (for_each r chunk body xs) (gather f xs)
  unfolding for_each
  for_each-Emits f body step [] cs w p h = rw append-nil p
  for_each-Emits f body step (x ∷ xs) cs w p h = elim (Bool-cases (body x w).1) [
    | inl e ↦
        rw (e, ← append_assoc)
          (for_each-Emits f body step xs (cs ++ f x) (body x w).0 (step x cs w p e) (rw e at h))
    | inr e ↦ ground arith
  ]

  module _ (marshal : Edge → Text) (prefix : Text) (ms : ℕ) (s prev : BatchWriteSet) where
    -- A body that queues commands unless a test skips it.
    skip_or_queue :
        (skip : Bool) (cs new : List Cmd) (cmds : ℕ) (tally : FlushStats → FlushStats)
        (w : Writing r chunk)
        → cmds ≡ length new
        → (tally w.stats).commands ≡ w.stats.commands
        → Progress cs w
        → (if skip then (w, true) else queue r chunk new cmds tally w).1 ≡ true
        → Progress
            (cs ++ (if skip then [] else new))
            (if skip then (w, true) else queue r chunk new cmds tally w).0
    skip_or_queue true cs new cmds tally w c t p h = rw append-nil p
    skip_or_queue false cs new cmds tally w c t p h = queue-Progress cs new cmds tally w c t p h

    add_entity-Emits :
        (x : Text × EntitySetVal)
        → Emits
            (add_entity r chunk marshal prefix ms s prev x)
            (entity_added marshal prefix ms s prev x)
    unfolding add_entity
    add_entity-Emits (id, e) cs w p h =
        skip_or_queue (is_some (lookup id prev.entities)) cs
          (add_entity_cmds prefix ms id e (lookup id s.metas)) _ count_added_entity w (omega arith)
          refl p h

    remove_entity-Emits :
        (x : Text × EntitySetVal)
        → Emits
            (remove_entity r chunk marshal prefix ms s prev x)
            (entity_removed marshal prefix ms s prev x)
    unfolding remove_entity
    remove_entity-Emits (id, e) cs w p h =
        skip_or_queue (is_some (lookup id s.entities)) cs (remove_entity_cmds prefix id e) 3
          count_removed_entity w refl refl p h

    add_edge-Emits :
        (x : EdgeSetKey × Time)
        → Emits
            (add_edge r chunk marshal prefix ms s prev x)
            (edge_added marshal prefix ms s prev x)
    unfolding add_edge
    add_edge-Emits (k, t) cs w p h =
        skip_or_queue (is_some (lookup k prev.edges)) cs
          (sadd (key_edges prefix k.from) (marshal (edge_of k)) ∷ []) 1 count_added_edge w refl refl
          p h

    remove_edge-Emits :
        (x : EdgeSetKey × Time)
        → Emits
            (remove_edge r chunk marshal prefix ms s prev x)
            (edge_removed marshal prefix ms s prev x)
    unfolding remove_edge
    remove_edge-Emits (k, t) cs w p h =
        skip_or_queue (is_some (lookup k s.edges)) cs
          (srem (key_edges prefix k.from) (marshal (edge_of k)) ∷ []) 1 count_removed_edge w refl
          refl p h

    loops : Step r chunk
    loops =
        Delta.◌>>◌ r chunk
          (Delta.◌>>◌ r chunk
            (Delta.◌>>◌ r chunk
              (for_each r chunk (add_entity r chunk marshal prefix ms s prev) s.entities)
              (for_each r chunk (remove_entity r chunk marshal prefix ms s prev) prev.entities))
            (for_each r chunk (add_edge r chunk marshal prefix ms s prev) s.edges))
          (for_each r chunk (remove_edge r chunk marshal prefix ms s prev) prev.edges)

    loops-Emits : Emits loops (delta_commands marshal prefix ms s prev)
    unfolding loops delta_commands
    loops-Emits =
        Emits-seq _ _ _ _
          (Emits-seq _ _ _ _
            (Emits-seq _ _ _ _
              (for_each-Emits (entity_added marshal prefix ms s prev) _ add_entity-Emits s.entities)
              (for_each-Emits (entity_removed marshal prefix ms s prev) _ remove_entity-Emits
                prev.entities))
            (for_each-Emits (edge_added marshal prefix ms s prev) _ add_edge-Emits s.edges))
          (for_each-Emits (edge_removed marshal prefix ms s prev) _ remove_edge-Emits prev.edges)

    -- A flush without an error runs the commands of the difference, all of them and in order,
    -- wherever the pipelines are cut, and counts them.
    pub write_loops_lem :
        (w : Writing r chunk)
        → w.db ≡ db0
        → w.pipe ≡ []
        → w.n ≡ 0
        → w.stats.commands ≡ 0
        → (write_loops r chunk marshal prefix ms s prev w).1 ≡ true
        → (run_all r (delta_commands marshal prefix ms s prev) db0
            ≡ some (write_loops r chunk marshal prefix ms s prev w).0.db)
          × ((write_loops r chunk marshal prefix ms s prev w).0.stats.commands
              ≡ length (delta_commands marshal prefix ms s prev))
    unfolding write_loops loops
    write_loops_lem w d pi n c h =
        let start : Progress [] w = record {
          executed = [];
          ran = unfold run_all in ap some (sym d);
          all = pi;
          size = omega (arith, ap length pi);
          total = c;
        } in
        elim (Bool-cases (loops w).1) [
          | inl e ↦
              let p = loops-Emits [] w start e in
              let f =
                flush-Progress (delta_commands marshal prefix ms s prev) (loops w).0 p
                  (rw e at h) in
              rw e (finish (flush r chunk (loops w).0).0 f.0 f.1)
          | inr e ↦ ground arith
        ]
      where
        finish :
            (v : Writing r chunk)
            → Progress (delta_commands marshal prefix ms s prev) v
            → v.pipe ≡ []
            → (run_all r (delta_commands marshal prefix ms s prev) db0 ≡ some v.db)
              × (v.stats.commands ≡ length (delta_commands marshal prefix ms s prev))
        finish v p e = (
          subst (λ cs. run_all r cs db0 ≡ some v.db) (rw (e, append-nil) at p.all) p.ran,
          p.total,
        )

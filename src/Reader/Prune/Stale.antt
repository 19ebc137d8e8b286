-- ===== src/Reader/Prune/Stale.antt =====
-- What the loops of a prune do to the set of all ids, and to the sets of edges.
use otel_k8s_graph.Base.{
  Text, List, [], ◌∷◌, Map, Option, none, some, Bool, true, false, not, ◌&&◌, ◌||◌, codes,
  text_DecEq, nat_DecEq, if◌then◌else◌, ◌==◌, is_some, lookup, insert, ◌≡◌, refl, ◌∙◌, ap, subst,
  ◌≢◌, inl, inr, arith, Bool-cases, lookup-insert, HasUniqueKeys, insert-HasUniqueKeys, ==_refl,
  ==→≡, ==→≢,
}
use otel_k8s_graph.Graph.{Edge}
use otel_k8s_graph.Graph.Keys.{
  key_entity, key_edges, key_ids, key_ids-distinct, key_edges-injective,
}
use otel_k8s_graph.Redis.{Redis, Cmd, srem, is_in, IsLawful, members, run_all-members}
use otel_k8s_graph.Reader.Prune.{
  stale_ids, drop_cmds, drop_all, is_dangling, strip, strip_all, or_nothing,
}

-- SMEMBERS of a key of a database is answered with the members of the set.
abbrev pub IsListed : (r : Redis) → (r.Db → Text → Option (List Text)) → r.Db → Text → Type 0
IsListed r smembers db key =
    (m : Text) → is_in m (or_nothing (smembers db key)) ≡ r.sismember db key m

module _ (stale : Text → Bool) where
  pub stale_ids-lookup :
      (ids : List Text) (dropped : Map Text (Unit {0})) (m : Text)
      → is_some (lookup m (stale_ids stale ids dropped))
        ≡ (is_some (lookup m dropped) || is_in m ids && stale m)
  unfolding stale_ids
  stale_ids-lookup [] dropped m = ground arith
  stale_ids-lookup (id ∷ ids) dropped m = ground (
    arith,
    stale_ids-lookup ids dropped m,
    stale_ids-lookup ids (insert id tt dropped) m,
    lookup-insert id m tt dropped,
  )

  pub stale_ids-HasUniqueKeys :
      (ids : List Text) (dropped : Map Text (Unit {0}))
      → HasUniqueKeys dropped
      → HasUniqueKeys (stale_ids stale ids dropped)
  unfolding stale_ids
  stale_ids-HasUniqueKeys [] dropped h = h
  stale_ids-HasUniqueKeys (id ∷ ids) dropped h = elim (Bool-cases (stale id)) [
    | inl e ↦
        rw e (
          stale_ids-HasUniqueKeys ids (insert id tt dropped) (insert-HasUniqueKeys id tt dropped h))
    | inr e ↦ rw e (stale_ids-HasUniqueKeys ids dropped h)
  ]

-- What a prune relies on: the pipelines that its loops send, each on the database that it finds, are
-- executed without an error, and the sets of edges that they read are listed.
module _ (r : Redis) (smembers : r.Db → Text → Option (List Text)) (unmarshal : Text → Option Edge)
    (prefix : Text) where
  abbrev pub DropsAnswered : List (Text × Unit {0}) → r.Db → Type 0
  DropsAnswered [] db = Unit
  DropsAnswered ((id, u) ∷ dropped) db =
      let kind = r.hget db (key_entity prefix id) (codes "kind") in
      let done = r.exec (drop_cmds r smembers unmarshal prefix id kind) db in
      (done.1 ≡ true) × DropsAnswered dropped done.0

  abbrev pub StripAnswered : Map Text (Unit {0}) → Text → List Text → r.Db → Type 0
  StripAnswered dropped sid [] db = Unit
  StripAnswered dropped sid (raw ∷ edges) db =
      let done = r.exec (srem (key_edges prefix sid) raw ∷ []) db in
      let dangling = is_dangling r smembers unmarshal prefix dropped raw in
      (dangling ≡ true → done.1 ≡ true)
      × StripAnswered dropped sid edges (if dangling then done.0 else db)

  abbrev pub StripsAnswered : Map Text (Unit {0}) → List Text → r.Db → Type 0
  StripsAnswered dropped [] db = Unit
  StripsAnswered dropped (sid ∷ survivors) db =
      let edges = or_nothing (smembers db (key_edges prefix sid)) in
      IsListed r smembers db (key_edges prefix sid)
      × StripAnswered dropped sid edges db
      × StripsAnswered dropped survivors (strip r smembers unmarshal prefix dropped sid edges db)

module _ (r : Redis) (law : IsLawful r) where
  pub exec-members :
      (cs : List Cmd) (db : r.Db) (key m : Text)
      → (r.exec cs db).1 ≡ true
      → r.sismember (r.exec cs db).0 key m ≡ members key m cs (r.sismember db key m)
  exec-members cs db key m answered =
      let done : r.exec cs db ≡ ((r.exec cs db).0, true) =
        ap (λ b. ((r.exec cs db).0, b)) answered in
      run_all-members r law cs db (r.exec cs db).0 key m (law.exec_law cs db (r.exec cs db).0 done)

  module _ (smembers : r.Db → Text → Option (List Text)) (unmarshal : Text → Option Edge)
      (prefix : Text) where
    pub drop_cmds-ids :
        (id m : Text) (kind : Option Text) (b : Bool)
        → members (key_ids prefix) m (drop_cmds r smembers unmarshal prefix id kind) b
          ≡ (not (id == m) && b)
    unfolding members
    drop_cmds-ids id m none b =
        ground (arith, key_ids-distinct prefix id [], ==_refl (key_ids prefix))
    drop_cmds-ids id m (some []) b =
        ground (arith, key_ids-distinct prefix id [], ==_refl (key_ids prefix))
    drop_cmds-ids id m (some (c ∷ k)) b =
        ground (arith, key_ids-distinct prefix id (c ∷ k), ==_refl (key_ids prefix))

    pub drop_all-ids :
        (dropped : List (Text × Unit {0})) (db : r.Db) (m : Text)
        → DropsAnswered r smembers unmarshal prefix dropped db
        → r.sismember (drop_all r smembers unmarshal prefix dropped db) (key_ids prefix) m
          ≡ (not (is_some (lookup m dropped)) && r.sismember db (key_ids prefix) m)
    unfolding drop_all lookup
    drop_all-ids [] db m h = ground arith
    drop_all-ids ((id, u) ∷ dropped) db m (ok, h) =
        let kind = r.hget db (key_entity prefix id) (codes "kind") in
        let cmds = drop_cmds r smembers unmarshal prefix id kind in
        ground (
          arith,
          drop_all-ids dropped (r.exec cmds db).0 m h,
          exec-members cmds db (key_ids prefix) m ok,
          drop_cmds-ids id m kind (r.sismember db (key_ids prefix) m),
        )

    removed :
        (sid raw : Text) (db : r.Db) (key m : Text)
        → (r.exec (srem (key_edges prefix sid) raw ∷ []) db).1 ≡ true
        → r.sismember (r.exec (srem (key_edges prefix sid) raw ∷ []) db).0 key m
          ≡ (if key_edges prefix sid == key && raw == m then false else r.sismember db key m)
    unfolding members
    removed sid raw db key m ok = exec-members (srem (key_edges prefix sid) raw ∷ []) db key m ok

    strip-other :
        (dropped : Map Text (Unit {0})) (sid : Text) (raws : List Text) (db : r.Db) (key m : Text)
        → key_edges prefix sid ≢ key
        → StripAnswered r smembers unmarshal prefix dropped sid raws db
        → r.sismember (strip r smembers unmarshal prefix dropped sid raws db) key m
          ≡ r.sismember db key m
    unfolding strip
    strip-other dropped sid [] db key m h k = refl
    strip-other dropped sid (raw ∷ raws) db key m h (ok, k) =
        let cmd = srem (key_edges prefix sid) raw ∷ [] in
        elim (Bool-cases (is_dangling r smembers unmarshal prefix dropped raw)) [
          | inl e ↦
              let k' = rw e at k in
              rw e (
                ground (
                  arith,
                  strip-other dropped sid raws (r.exec cmd db).0 key m h k',
                  removed sid raw db key m (ok e),
                ))
          | inr e ↦ let k' = rw e at k in rw e (strip-other dropped sid raws db key m h k')
        ]

    strip-edges :
        (dropped : Map Text (Unit {0})) (sid : Text) (raws : List Text) (db : r.Db) (raw : Text)
        → StripAnswered r smembers unmarshal prefix dropped sid raws db
        → r.sismember
            (strip r smembers unmarshal prefix dropped sid raws db)
            (key_edges prefix sid)
            raw
          ≡ (r.sismember db (key_edges prefix sid) raw
              && not (is_in raw raws && is_dangling r smembers unmarshal prefix dropped raw))
    unfolding strip
    strip-edges dropped sid [] db raw k = ground arith
    strip-edges dropped sid (other ∷ raws) db raw (ok, k) =
        let cmd = srem (key_edges prefix sid) other ∷ [] in
        let here = ==_refl (key_edges prefix sid) in
        elim (Bool-cases (is_dangling r smembers unmarshal prefix dropped other)) [
          | inl e ↦
              let k' = rw e at k in
              rw e (
                ground (
                  arith,
                  strip-edges dropped sid raws (r.exec cmd db).0 raw k',
                  removed sid other db (key_edges prefix sid) raw (ok e),
                ))
          | inr e ↦
              let k' = rw e at k in rw e (ground (arith, strip-edges dropped sid raws db raw k'))
        ]

    pub strip_all-other :
        (dropped : Map Text (Unit {0})) (sids : List Text) (db : r.Db) (key m : Text)
        → ((sid : Text) → key_edges prefix sid ≢ key)
        → StripsAnswered r smembers unmarshal prefix dropped sids db
        → r.sismember (strip_all r smembers unmarshal prefix dropped sids db) key m
          ≡ r.sismember db key m
    unfolding strip_all
    strip_all-other dropped [] db key m h k = refl
    strip_all-other dropped (sid ∷ sids) db key m h (listed, k, ks) =
        let raws = or_nothing (smembers db (key_edges prefix sid)) in
        strip_all-other dropped sids (strip r smembers unmarshal prefix dropped sid raws db) key m h
          ks
        ∙ strip-other dropped sid raws db key m (h sid) k

    pub strip_all-edges :
        (dropped : Map Text (Unit {0})) (sids : List Text) (db : r.Db) (sid raw : Text)
        → StripsAnswered r smembers unmarshal prefix dropped sids db
        → r.sismember
            (strip_all r smembers unmarshal prefix dropped sids db)
            (key_edges prefix sid)
            raw
          ≡ (r.sismember db (key_edges prefix sid) raw
              && not (is_in sid sids && is_dangling r smembers unmarshal prefix dropped raw))
    unfolding strip_all
    strip_all-edges dropped [] db sid raw h = ground arith
    strip_all-edges dropped (other ∷ sids) db sid raw (listed, k, ks) =
        let raws = or_nothing (smembers db (key_edges prefix other)) in
        let next = strip r smembers unmarshal prefix dropped other raws db in
        let rest = strip_all-edges dropped sids next sid raw ks in
        elim (Bool-cases (other == sid)) [
          | inl e ↦
              let same : other ≡ sid = ==→≡ other sid e in
              let key = ap (key_edges prefix) same in
              let gone = is_dangling r smembers unmarshal prefix dropped raw in
              let at : r.sismember next (key_edges prefix sid) raw
                  ≡ (r.sismember db (key_edges prefix sid) raw && not (is_in raw raws && gone)) =
                subst
                  (λ k.
                    r.sismember next k raw ≡ (r.sismember db k raw && not (is_in raw raws && gone)))
                  key (strip-edges dropped other raws db raw k) in
              let all : is_in raw raws ≡ r.sismember db (key_edges prefix sid) raw =
                subst (λ k. is_in raw raws ≡ r.sismember db k raw) key (listed raw) in
              ground arith
          | inr e ↦
              let apart =
                strip-other dropped other raws db (key_edges prefix sid) raw
                  (λ h. absurd (==→≢ other sid e (key_edges-injective prefix other sid h))) k in
              ground arith
        ]

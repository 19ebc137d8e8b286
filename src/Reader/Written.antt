-- ===== src/Reader/Written.antt =====
-- The reader gets back what the flush of graph-otel wrote.
use otel_k8s_graph.Base.{
  ℕ, ◌<◌, Text, [], ◌∷◌, Map, Option, none, some, codes, Text-discrete, text_DecEq, nat_DecEq,
  ◌or_else◌, lookup, ◌≡◌, ◌≢◌, refl, ap, ◌∙◌, arith, Option-cases, inl, inr, ==_refl, decimal,
}
use otel_k8s_graph.Base.{pos, itoa}
use otel_k8s_graph.Graph.{Edge, Entity}
use otel_k8s_graph.Graph.Keys.{key_entity, key_edges, key_metadata, key_metadata-ne-key_entity}
use otel_k8s_graph.Redis.{Redis, IsLawful, run_all, fields, run_all-fields}
use otel_k8s_graph.BatchSet.{EntitySetVal}
use otel_k8s_graph.Delta.{add_entity_cmds, entity_fields}
use otel_k8s_graph.Reader.{Answers, at_key, last_seen, assemble, get}
use otel_k8s_graph.Reader.Int64.{int64_mod, parse_int64-itoa, itoa_cons}
use otel_k8s_graph.Reader.Subgraph.Ends.{List-cases}

-- HGETALL of a key is answered with the fields of its hash.
abbrev pub HasFields : (r : Redis) → r.Db → Answers → Text → Type 0
HasFields r db a key =
    (core : Map Text Text) × (a.hgetall key ≡ some core)
    × ((f : Text) → lookup f core ≡ r.hget db key f)

-- What is written of an entity stands in its hash.
add_entity_cmds-fields :
    (prefix : Text) (ms : ℕ) (id : Text) (e : EntitySetVal) (md : Option (Map Text Text)) (f : Text)
    (o : Option Text)
    → fields (key_entity prefix id) f (add_entity_cmds prefix ms id e md) o
      ≡ (lookup f (entity_fields id e ms) or_else o)
unfolding fields
add_entity_cmds-fields prefix ms id e md f o =
    let here = ==_refl (key_entity prefix id) in
    elim md
      as (λ m.
        fields (key_entity prefix id) f (add_entity_cmds prefix ms id e m) o
        ≡ (lookup f (entity_fields id e ms) or_else o)) [
          | none ↦ ground arith
          | some [] ↦ ground arith
          | some (kv ∷ md') ↦ let apart = key_metadata-ne-key_entity prefix id in ground arith
        ]

last_seen-decimal : (ms : ℕ) → ms < int64_mod → last_seen (decimal ms) ≡ some ms
unfolding itoa
last_seen-decimal ms l = elim (List-cases (decimal ms)) [
  | inl e ↦ absurd (ground (arith, itoa_cons ms))
  | inr (c, rest, e) ↦ ground (arith, parse_int64-itoa (pos ms))
]

at_key_lem :
    (f : Text) (core : Map Text Text) (v : Text) → lookup f core ≡ some v → at_key core f ≡ v
at_key_lem f core v h = ap (λ (o : Option Text). elim o [ none ↦ [] | some x ↦ x ]) h

module _ (a : Answers) (unmarshal : Text → Option Edge) (prefix : Text) where
  assemble-core :
      (id : Text) (core : Map Text Text)
      → ((assemble a unmarshal prefix id core).id ≡ at_key core (codes "id"))
        × ((assemble a unmarshal prefix id core).kind ≡ at_key core (codes "kind"))
        × ((assemble a unmarshal prefix id core).name ≡ at_key core (codes "name"))
        × ((assemble a unmarshal prefix id core).last_seen_at
            ≡ last_seen (at_key core (codes "last_seen_at_ms")))
  unfolding assemble
  assemble-core id core = elim (Option-cases (a.smembers (key_edges prefix id))) [
    | inl e ↦ rw (assemble, e) (refl, refl, refl, refl)
    | inr (raws, e) ↦ elim (Option-cases (a.hgetall (key_metadata prefix id))) [
      | inl f ↦ rw (assemble, e, f) (refl, refl, refl, refl)
      | inr (md, f) ↦ rw (assemble, e, f) (refl, refl, refl, refl)
    ]
  ]

  get-core :
      (id : Text) (core : Map Text Text)
      → a.hgetall (key_entity prefix id) ≡ some core
      → core ≢ []
      → get a unmarshal prefix id ≡ some (assemble a unmarshal prefix id core)
  unfolding get
  get-core id [] h some_field = absurd (some_field refl)
  get-core id (fv ∷ core) h some_field = rw (get, h) refl

module _ (r : Redis) (law : IsLawful r) (unmarshal : Text → Option Edge) (prefix : Text) where
  -- After the commands of a flush for a new entity, none of which fails, Get finds the entity with the
  -- id, kind and name that were written and the time of the flush, if HGETALL is answered with the
  -- fields of the hash and the time in milliseconds fits into 64 bits.
  pub get-written :
      (ms : ℕ) (id : Text) (e : EntitySetVal) (md : Option (Map Text Text)) (db db' : r.Db)
      (a : Answers)
      → ms < int64_mod
      → run_all r (add_entity_cmds prefix ms id e md) db ≡ some db'
      → HasFields r db' a (key_entity prefix id)
      → (x : Entity) × (get a unmarshal prefix id ≡ some x)
        × (x.id ≡ id)
        × (x.kind ≡ e.kind)
        × (x.name ≡ e.name)
        × (x.last_seen_at ≡ some ms)
  unfolding Text-discrete lookup
  get-written ms id e md db db' a fits ran (core, answered, same) =
      let at : (f : Text)
          → lookup f core
            ≡ (lookup f (entity_fields id e ms) or_else r.hget db (key_entity prefix id) f) =
        λ f.
          same f
          ∙ (run_all-fields r law (add_entity_cmds prefix ms id e md) db db' (key_entity prefix id)
                f ran
              ∙ add_entity_cmds-fields prefix ms id e md f (r.hget db (key_entity prefix id) f)) in
      let at_id : lookup (codes "id") core ≡ some id = at (codes "id") in
      let lacks : lookup (codes "id") core ≢ none = λ h. ground arith in
      let (f_id, f_kind, f_name, f_seen) = assemble-core a unmarshal prefix id core in
      (
        assemble a unmarshal prefix id core,
        get-core a unmarshal prefix id core answered
            (λ empty. lacks (ap (lookup (codes "id")) empty)),
        f_id ∙ at_key_lem (codes "id") core id at_id,
        f_kind ∙ at_key_lem (codes "kind") core e.kind (at (codes "kind")),
        f_name ∙ at_key_lem (codes "name") core e.name (at (codes "name")),
        f_seen
            ∙ (ap last_seen (
                  at_key_lem (codes "last_seen_at_ms") core (decimal ms)
                    (at (codes "last_seen_at_ms")))
                ∙ last_seen-decimal ms fits),
      )

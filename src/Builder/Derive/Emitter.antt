-- ===== src/Builder/Derive/Emitter.antt =====
-- The emitter of a record, and an induction principle for one record.
use otel_k8s_graph.Base.{
  Text, [], ◌∷◌, Option, none, some, Bool, true, false, not, ◌||◌, text_DecEq, nat_DecEq,
  if◌then◌else◌, ◌==◌, ◌≡◌, refl, inl, inr, arith, Bool-cases,
}
use otel_k8s_graph.Builder.Record.{Record, attr, Relationship, add_relationship, relate}
use otel_k8s_graph.Builder.Templatize.{Url}
use otel_k8s_graph.Builder.Endpoints.{endpoint_relationship, derive_endpoint_edges}
use otel_k8s_graph.Builder.Topics.{topic_relationship, derive_topic_edges}
use otel_k8s_graph.Builder.Databases.{database_relationship, derive_database_edges}
use otel_k8s_graph.Builder.Derive.{emitter_for, emitter_id, derive, attr_namespace, attr_pod}
use otel_k8s_graph.Graph.{Writer}
use otel_k8s_graph.Builder.Derive.Sound.{
  is_relationship_id, IsSound, endpoint_relationship-IsSound, topic_relationship-IsSound,
  database_relationship-IsSound,
}

abbrev pub lacks_pod : Record → Bool
lacks_pod r = attr r.attrs attr_pod == [] || attr r.attrs attr_namespace == []

emitter_id-empty : (r : Record) → (emitter_id r == []) ≡ lacks_pod r
unfolding emitter_id emitter_for
emitter_id-empty r = ground arith

-- An emitter is a pod or a container, never an entity that graph-otel owns.
pub emitter_id-foreign : (r : Record) → is_relationship_id (emitter_id r) ≡ false
unfolding emitter_id is_relationship_id
emitter_id-foreign r = ground arith

module _ {S : Type 0} (w : Writer S) (parse : Text → Option Url) where
  -- A record is usable exactly if it names a pod and a namespace; if not, the writer stays as it was.
  pub derive_usable :
      (r : Record) (s : S)
      → ((derive w parse r s).1 ≡ not (lacks_pod r))
        × (derive w parse r s
            ≡ (if lacks_pod r then (s, false) else ((derive w parse r s).0, true)))
  unfolding derive
  derive_usable r s = ground (arith, emitter_id-empty r)

  relate_induction {ℓ} :
      (P : S → Type ℓ)
      → ((emitter : Text) (rel : Relationship) (s : S)
          → is_relationship_id emitter ≡ false
          → IsSound rel
          → P s
          → P (add_relationship w emitter rel s))
      → (emitter : Text) (o : Option Relationship) (s : S) → is_relationship_id emitter ≡ false
      → ((rel : Relationship) → o ≡ some rel → IsSound rel)
      → P s
      → P (relate w emitter o s)
  unfolding relate
  relate_induction P step [] o s f h p = p
  relate_induction P step (c ∷ emitter) none s f h p = p
  relate_induction P step (c ∷ emitter) (some rel) s f h p =
      step (c ∷ emitter) rel s f (h rel refl) p

  -- What every sound relationship keeps, a record keeps.
  pub derive_induction {ℓ} :
      (P : S → Type ℓ)
      → ((emitter : Text) (rel : Relationship) (s : S)
          → is_relationship_id emitter ≡ false
          → IsSound rel
          → P s
          → P (add_relationship w emitter rel s))
      → (r : Record) (s : S) → P s
      → P (derive w parse r s).0
  unfolding derive derive_endpoint_edges derive_topic_edges derive_database_edges
  derive_induction P step r s p = elim (Bool-cases (emitter_id r == [])) [
    | inl e ↦ rw e p
    | inr e ↦ rw e (
        relate_induction P step id (database_relationship r) _ foreign
          (database_relationship-IsSound r)
          (relate_induction P step id (topic_relationship r) _ foreign
            (topic_relationship-IsSound r)
            (relate_induction P step id (endpoint_relationship parse r) s foreign
              (endpoint_relationship-IsSound parse r) p)))
  ]
    where
      id : Text
      id = emitter_id r

      foreign : is_relationship_id id ≡ false
      foreign = emitter_id-foreign r

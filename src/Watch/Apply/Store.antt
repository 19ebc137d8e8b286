-- ===== src/Watch/Apply/Store.antt =====
-- What a writer of entities promises: a store of entities, metadata and edges, and one method at a
-- time. The writes of a handler are measured on it.
use otel_k8s_graph.Base.{
  Text, List, [], ◌∷◌, Map, Option, none, some, Bool, true, false, not, ◌&&◌, ◌||◌, text_DecEq,
  nat_DecEq, if◌then◌else◌, ◌==◌, ◌or_else◌, lookup, ◌≡◌, refl, arith,
}
use otel_k8s_graph.Graph.{Kind, Edge, edge_DecEq}
use otel_k8s_graph.Watch.Desired.{DesiredEntity}
use otel_k8s_graph.Watch.Apply.{EntityWriter, is_owned, has_id, upsert_all, delete_owned}

pub record Store : Type 0 where
  pub entity : Text → Option (Kind × Text)
  pub metadata : Text → Text → Option Text
  pub edge : Text → Edge → Bool

-- An empty value is not written.
abbrev pub overlay : Map Text Text → Text → Option Text → Option Text
overlay md key before = elim (lookup key md) [
  | none ↦ before
  | some [] ↦ before
  | some (c ∷ v) ↦ some (c ∷ v)
]

-- Deleting an entity takes its metadata and its own edges with it.
abbrev pub store_writer : EntityWriter Store
store_writer = record {
  upsert_entity = λ id kind name md s. record s {
    entity = λ j. if id == j then some (kind, name) else s.entity j;
    metadata = λ j key. if id == j then overlay md key (s.metadata j key) else s.metadata j key;
  };
  delete_entity = λ id kind s. record {
    entity = λ j. if id == j then none else s.entity j;
    metadata = λ j key. if id == j then none else s.metadata j key;
    edge = λ from e. if id == from then false else s.edge from e;
  };
  add_edge =
      λ from e s. record s { edge = λ g f. if from == g && e == f then true else s.edge g f };
  remove_edge =
      λ from e s. record s { edge = λ g f. if from == g && e == f then false else s.edge g f };
}

-- The kind and the name that the last entry with an id gives it.
unfoldable pub described : Text → List DesiredEntity → Option (Kind × Text)
described id [] = none
described id (e ∷ es) = described id es or_else (if e.id == id then some (e.kind, e.name) else none)

-- Is an entity among those that go: owned, and not kept?
unfoldable pub is_dropped : Text → List DesiredEntity → List DesiredEntity → Bool
unfolding has_id is_owned
is_dropped id kept [] = false
is_dropped id kept (e ∷ es) =
    e.id == id && not (has_id e.id kept) && is_owned e.kind || is_dropped id kept es

pub upsert_all-store :
    (es : List DesiredEntity) (s : Store) (id from : Text) (e : Edge)
    → ((upsert_all store_writer es s).entity id ≡ (described id es or_else s.entity id))
      × ((upsert_all store_writer es s).edge from e ≡ s.edge from e)
unfolding upsert_all described
upsert_all-store [] s id from e = (refl, refl)
upsert_all-store (x ∷ es) s id from e = ground (
  arith,
  upsert_all-store es (store_writer.upsert_entity x.id x.kind x.name x.metadata s) id from e,
)

pub delete_owned-store :
    (kept es : List DesiredEntity) (s : Store) (id from : Text) (e : Edge)
    → ((delete_owned store_writer kept es s).entity id
        ≡ (if is_dropped id kept es then none else s.entity id))
      × ((delete_owned store_writer kept es s).edge from e
          ≡ (if is_dropped from kept es then false else s.edge from e))
unfolding delete_owned is_dropped
delete_owned-store kept [] s id from e = (refl, refl)
delete_owned-store kept (x ∷ es) s id from e = ground (
  arith,
  delete_owned-store kept es s id from e,
  delete_owned-store kept es (store_writer.delete_entity x.id x.kind s) id from e,
)

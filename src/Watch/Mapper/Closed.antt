-- ===== src/Watch/Mapper/Closed.antt =====
-- What the mappers of internal/k8swatch give is a piece of graph on its own: each edge leads from and
-- to an entity of the piece and has its inverse in it.
use otel_k8s_graph.Base.{
  Text, List, [], ◌∷◌, ◌++◌, Map, true, ◌&&◌, ◌||◌, text_DecEq, nat_DecEq, ◌==◌, ◌≡◌, refl, inl,
  inr, arith, Bool-cases,
}
use otel_k8s_graph.Graph.{Kind, EdgeKind, Edge, edge_DecEq}
use otel_k8s_graph.Graph.Inverse.{inverse}
use otel_k8s_graph.Watch.Desired.{
  DesiredEntity, DesiredEdge, Desired, nothing, plain_edge, add_entity, add_pair,
}
use otel_k8s_graph.Watch.Mapper.{add_parent}
use otel_k8s_graph.Watch.Apply.{has_id}
use otel_k8s_graph.Watch.Apply.Keys.{in_edges}

-- The edge that points back.
abbrev pub back : Text → Edge → Edge
back from e = record { kind = inverse e.kind; to_resource = from; action = e.action }

-- An edge has both its ends among the entities, and its inverse among the edges.
pub record IsAnchored (d : Desired) (from : Text) (e : Edge) : Type 0 where
  pub source : has_id from d.entities ≡ true
  pub target : has_id e.to_resource d.entities ≡ true
  pub inverted : in_edges e.to_resource (back from e) d.edges ≡ true

pub record IsClosed (d : Desired) : Type 0 where
  pub anchored : (from : Text) (e : Edge) → in_edges from e d.edges ≡ true → IsAnchored d from e

-- The kinds of a pair of edges are each other's inverses.
abbrev pub AreInverse : EdgeKind → EdgeKind → Type 0
AreInverse fwd rev = (inverse fwd ≡ rev) × (inverse rev ≡ fwd)

has_id-append :
    (id : Text) (es fs : List DesiredEntity) → has_id id (es ++ fs) ≡ (has_id id es || has_id id fs)
unfolding has_id
has_id-append id [] fs = refl
has_id-append id (e ∷ es) fs = ground (arith, has_id-append id es fs)

in_edges-append :
    (from : Text) (e : Edge) (es fs : List DesiredEdge)
    → in_edges from e (es ++ fs) ≡ (in_edges from e es || in_edges from e fs)
unfolding in_edges
in_edges-append from e [] fs = refl
in_edges-append from e (ed ∷ es) fs = ground (arith, in_edges-append from e es fs)

nothing-IsClosed : IsClosed nothing
unfolding in_edges
nothing-IsClosed = record { anchored = λ from e h. cc }

-- What is known of an entity that stays.
has_id-add_entity :
    (j id : Text) (kind : Kind) (name : Text) (md : Map Text Text) (d : Desired)
    → has_id j (add_entity id kind name md d).entities ≡ (has_id j d.entities || id == j)
unfolding has_id add_entity
has_id-add_entity j id kind name md d = ground (
  arith,
  has_id-append j d.entities (record { id = id; kind = kind; name = name; metadata = md } ∷ []),
)

add_entity-IsClosed :
    (id : Text) (kind : Kind) (name : Text) (md : Map Text Text) (d : Desired)
    → IsClosed d
    → IsClosed (add_entity id kind name md d)
unfolding add_entity
add_entity-IsClosed id kind name md d h = record {
  anchored = λ from e p.
      let a = h.anchored from e p in
      record {
        source = ground (
          arith,
          a.source,
          has_id-append from d.entities
              (record { id = id; kind = kind; name = name; metadata = md } ∷ []),
        );
        target = ground (
          arith,
          a.target,
          has_id-append e.to_resource d.entities
              (record { id = id; kind = kind; name = name; metadata = md } ∷ []),
        );
        inverted = a.inverted;
      };
}

pair_edges :
    (from_id : Text) (fwd : EdgeKind) (to_id : Text) (rev : EdgeKind) (d : Desired) (from : Text)
    (e : Edge)
    → in_edges from e (add_pair from_id fwd to_id rev d).edges ≡ (
        in_edges from e d.edges
        || from_id == from && (plain_edge from_id fwd to_id).edge == e
        || to_id == from && (plain_edge to_id rev from_id).edge == e)
unfolding in_edges add_pair
pair_edges from_id fwd to_id rev d from e = ground (
  arith,
  in_edges-append from e d.edges (plain_edge from_id fwd to_id ∷ plain_edge to_id rev from_id ∷ []),
)

add_pair-entities :
    (from_id : Text) (fwd : EdgeKind) (to_id : Text) (rev : EdgeKind) (d : Desired)
    → (add_pair from_id fwd to_id rev d).entities ≡ d.entities
unfolding add_pair
add_pair-entities from_id fwd to_id rev d = refl

add_pair-IsClosed :
    (from_id : Text) (fwd : EdgeKind) (to_id : Text) (rev : EdgeKind) (d : Desired)
    → AreInverse fwd rev
    → has_id from_id d.entities ≡ true
    → has_id to_id d.entities ≡ true
    → IsClosed d
    → IsClosed (add_pair from_id fwd to_id rev d)
add_pair-IsClosed from_id fwd to_id rev d inv one two h = record {
  anchored = λ from e p.
      let split = pair_edges from_id fwd to_id rev d from e in
      let turned = pair_edges from_id fwd to_id rev d e.to_resource (back from e) in
      let same = add_pair-entities from_id fwd to_id rev d in
      elim (Bool-cases (in_edges from e d.edges)) [
        | inl q ↦
            let a = h.anchored from e q in
            record {
              source = rw same a.source;
              target = rw same a.target;
              inverted = ground (arith, turned, a.inverted);
            }
        | inr q ↦ record {
          source = rw same (ground (arith, split));
          target = rw same (ground (arith, split));
          inverted = ground (arith, split, turned, inv);
        }
      ];
}

-- An entity that is there or was just added.
pub has_id-kept :
    (j id : Text) (kind : Kind) (name : Text) (md : Map Text Text) (d : Desired)
    → has_id j d.entities ≡ true
    → has_id j (add_entity id kind name md d).entities ≡ true
has_id-kept j id kind name md d h = ground (arith, has_id-add_entity j id kind name md d)

pub has_id-added :
    (id : Text) (kind : Kind) (name : Text) (md : Map Text Text) (d : Desired)
    → has_id id (add_entity id kind name md d).entities ≡ true
has_id-added id kind name md d = ground (arith, has_id-add_entity id id kind name md d)

-- The entity is in a piece that is closed.
pub record Holds (id : Text) (d : Desired) : Type 0 where
  pub present : has_id id d.entities ≡ true
  pub closed : IsClosed d

pub first-Holds :
    (id : Text) (kind : Kind) (name : Text) (md : Map Text Text)
    → Holds id (add_entity id kind name md nothing)
first-Holds id kind name md = record {
  present = has_id-added id kind name md nothing;
  closed = add_entity-IsClosed id kind name md nothing nothing-IsClosed;
}

-- A new entity above one that is there: both are there then.
pub add_parent-Holds :
    (parent : Text) (kind : Kind) (name : Text) (fwd : EdgeKind) (id : Text) (rev : EdgeKind)
    (d : Desired)
    → AreInverse fwd rev
    → Holds id d
    → Holds id (add_parent parent kind name fwd id rev d)
      × Holds parent (add_parent parent kind name fwd id rev d)
add_parent-Holds parent kind name fwd id rev d inv h =
    let wider = add_entity parent kind name [] d in
    let kept = has_id-kept id parent kind name [] d h.present in
    let new = has_id-added parent kind name [] d in
    let same = add_pair-entities parent fwd id rev wider in
    let closed =
      add_pair-IsClosed parent fwd id rev wider inv new kept
        (add_entity-IsClosed parent kind name [] d h.closed) in
    (
      record { present = rw same kept; closed = closed },
      record { present = rw same new; closed = closed },
    )

-- A new entity below one that is there.
pub add_child-Holds :
    (id : Text) (fwd : EdgeKind) (child : Text) (rev : EdgeKind) (kind : Kind) (name : Text)
    (md : Map Text Text) (d : Desired)
    → AreInverse fwd rev
    → Holds id d
    → Holds id (add_pair id fwd child rev (add_entity child kind name md d))
add_child-Holds id fwd child rev kind name md d inv h =
    let wider = add_entity child kind name md d in
    let kept = has_id-kept id child kind name md d h.present in
    record {
      present = rw (add_pair-entities id fwd child rev wider) kept;
      closed =
          add_pair-IsClosed id fwd child rev wider inv kept (has_id-added child kind name md d)
            (add_entity-IsClosed child kind name md d h.closed);
    }

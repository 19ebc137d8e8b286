-- ===== src/Watch/Desired.antt =====
-- The types at the top of internal/k8swatch/mapper.go.
use otel_k8s_graph.Base.{Text, List, [], ◌∷◌, ◌++◌, Map, text_DecEq, nat_DecEq}
use otel_k8s_graph.Graph.{Kind, EdgeKind, Edge}

pub record DesiredEntity : Type 0 where
  pub id : Text
  pub kind : Kind
  pub name : Text
  -- A nil map is an empty one.
  pub metadata : Map Text Text

pub record DesiredEdge : Type 0 where
  pub from_id : Text
  pub edge : Edge

pub record Desired : Type 0 where
  pub entities : List DesiredEntity
  pub edges : List DesiredEdge

abbrev pub nothing : Desired
nothing = record { entities = []; edges = [] }

unfoldable pub add_entity : Text → Kind → Text → Map Text Text → Desired → Desired
add_entity id kind name md d = record d {
  entities = d.entities ++ record { id = id; kind = kind; name = name; metadata = md } ∷ [];
}

-- An edge of a Desired, which has no action.
abbrev pub plain_edge : Text → EdgeKind → Text → DesiredEdge
plain_edge from_id kind to = record {
  from_id = from_id;
  edge = record { kind = kind; to_resource = to; action = [] };
}

unfoldable pub add_pair : Text → EdgeKind → Text → EdgeKind → Desired → Desired
add_pair from_id fwd to_id rev d = record d {
  edges = d.edges ++ plain_edge from_id fwd to_id ∷ plain_edge to_id rev from_id ∷ [];
}

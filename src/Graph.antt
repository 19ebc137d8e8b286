-- ===== src/Graph.antt =====
-- internal/graph/interface.go: the vocabulary of the graph and the interface that writers target.
pub mod Kinds
pub mod EdgeKinds
pub mod Inverse
pub mod Keys
use otel_k8s_graph.Base.{Text, List, Map, ℕ, Option, ℤ, codes, DecEq, Text-discrete}

-- Go's string types with named constants.
abbrev pub Kind : Type 0
Kind = Text

abbrev pub EdgeKind : Type 0
EdgeKind = Text

-- Nanoseconds since the zero `time.Time`.
abbrev pub Time : Type 0
Time = ℕ

pub record Edge : Type 0 where
  pub kind : EdgeKind
  pub to_resource : Text
  pub action : Text

unfoldable pub Edge-discrete : Discrete Edge
unfolding Text-discrete
Edge-discrete = hlevel Text-discrete

instance abbrev pub edge_DecEq : DecEq Edge
edge_DecEq = record { eq = Edge-discrete }

pub record EdgeTo : Type 0 where
  pub kind : EdgeKind
  pub to_id : Text
  pub to_kind : Kind
  pub to_name : Text
  pub action : Text

pub record Entity : Type 0 where
  pub id : Text
  pub kind : Kind
  pub name : Text
  -- `some v` is `time.UnixMilli` of the int64 with the pattern `v`, `none` the zero time.
  pub last_seen_at : Option ℕ
  pub edges : List Edge
  pub metadata : Map Text Text

pub record SearchHit : Type 0 where
  pub entity : Entity
  pub matched_in : List Text

-- The write-only surface: each method takes the writer's state to its next state.
pub record Writer (S : Type 0) : Type 0 where
  pub upsert : Text → Kind → Text → S → S
  pub upsert_with_edges : Text → Kind → Text → List EdgeTo → S → S
  pub set_metadata : Text → Map Text Text → S → S
  pub add_edges : Text → List EdgeTo → S → S

-- The read surface. Prune takes the graph to its next state; `T` are the times of the cutoff.
pub record Graph (G T : Type 0) : Type 0 where
  pub get : Text → G → Option Entity
  pub size : G → ℕ
  pub subgraph : Text → ℤ → G → Option (List Entity)
  pub list_by_kind : Kind → G → List Entity
  pub search : Text → Kind → ℤ → G → List SearchHit
  pub prune : T → G → G × ℕ

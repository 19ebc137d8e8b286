-- ===== src/Watch/Objects.antt =====
-- The fields of Kubernetes objects that internal/k8swatch reads.
use otel_k8s_graph.Base.{Text, List, Map, Option, Bool, text_DecEq, nat_DecEq}
use otel_k8s_graph.Base.{ℤ}

pub record OwnerReference : Type 0 where
  pub kind : Text
  pub name : Text

pub record ObjectMeta : Type 0 where
  pub namespace : Text
  pub name : Text
  pub uid : Text
  pub labels : Map Text Text
  pub owner_references : List OwnerReference

pub record Container : Type 0 where
  pub name : Text
  pub image : Text

pub record Pod : Type 0 where
  pub meta : ObjectMeta
  pub node_name : Text
  pub containers : List Container

pub record CronJob : Type 0 where
  pub meta : ObjectMeta
  pub schedule : Text

pub record HorizontalPodAutoscaler : Type 0 where
  pub meta : ObjectMeta
  pub min_replicas : Option ℤ
  pub max_replicas : ℤ
  pub target_kind : Text
  pub target_name : Text

-- An entry of spec.triggers: no map, or a map with the text at "type" if there is one.
pub data Trigger : Type 0 where
  no_map : Trigger
  typed : Option Text → Trigger

-- What the accessors of package unstructured give for an object at a path of fields.
pub record Unstructured : Type 0 where
  pub namespace : Text
  pub name : Text
  pub labels : Map Text Text
  -- NestedMap: was it found?
  pub nested_map : List Text → Bool
  -- NestedString, which is "" where nothing is found
  pub nested_string : List Text → Text
  -- NestedInt64
  pub nested_int64 : List Text → Option ℤ
  -- NestedSlice
  pub nested_slice : List Text → Option (List Trigger)
  -- json.Marshal of NestedMap: none where there is no such map or it cannot be written
  pub marshal_map : List Text → Option Text

-- ===== src/Tests/Mapped.antt =====
-- A pod with a node, an owner and a container, a node in a zone, and three controllers.
use otel_k8s_graph.Base.{
  Text, [], ◌∷◌, none, false, codes, Text-discrete, text_DecEq, nat_DecEq, if◌then◌else◌, ◌==◌,
  lookup, ◌≡◌, refl,
}
use otel_k8s_graph.Base.{pos}
use otel_k8s_graph.Graph.Kinds
use otel_k8s_graph.Graph.EdgeKinds
use otel_k8s_graph.Strings.{join}
use otel_k8s_graph.Watch.Objects.{ObjectMeta, Pod, HorizontalPodAutoscaler, Unstructured}
use otel_k8s_graph.Watch.Desired.{plain_edge}
use otel_k8s_graph.Watch.Mapper.{map_pod, map_node, map_hpa, node_topology_label, label}
use otel_k8s_graph.Watch.Mapper.Closed.{IsClosed}
use otel_k8s_graph.Watch.Mapper.Every.{of_pod, Mapped-IsClosed}

abbrev owned_by : Text → Text → ObjectMeta
owned_by kind name = record {
  namespace = codes "shop";
  name = codes "web";
  uid = codes "u1";
  labels = (codes "topology.kubernetes.io/zone", codes "eu-1a") ∷ [];
  owner_references =
      record { kind = codes "Other"; name = codes "x" } ∷ record { kind = kind; name = name } ∷ [];
}

abbrev web_pod : Pod
web_pod = record {
  meta = owned_by (codes "StatefulSet") (codes "web");
  node_name = codes "n1";
  containers = record { name = codes "main"; image = codes "web:1" } ∷ [];
}

abbrev autoscaler : HorizontalPodAutoscaler
autoscaler = record {
  meta = owned_by (codes "ScaledObject") (codes "web-so");
  min_replicas = none;
  max_replicas = pos 5;
  target_kind = codes "Deployment";
  target_name = codes "web";
}

abbrev scaled : Unstructured
scaled = record {
  namespace = codes "shop";
  name = codes "web-so";
  labels = [];
  nested_map = λ path. false;
  nested_string =
      λ path. if join path b'.' == codes "spec.scaleTargetRef.name" then codes "web" else [];
  nested_int64 = λ path. none;
  nested_slice = λ path. none;
  marshal_map = λ path. none;
}

-- The edges of the autoscaler: to its target, and from the ScaledObject that owns it.
autoscaler_edges :
    (map_hpa autoscaler).edges
    ≡ plain_edge (codes "hpa:shop/web") EdgeKinds.scales (codes "deployment:shop/web")
      ∷ plain_edge (codes "deployment:shop/web") EdgeKinds.scaled_by (codes "hpa:shop/web")
      ∷ plain_edge (codes "scaledobject:shop/web-so") EdgeKinds.manages (codes "hpa:shop/web")
      ∷ plain_edge (codes "hpa:shop/web") EdgeKinds.managed_by (codes "scaledobject:shop/web-so")
      ∷ []
unfolding map_hpa Text-discrete
autoscaler_edges = refl

-- A node in a zone without a region.
node_edges :
    (map_node (owned_by [] [])).edges
    ≡ plain_edge (codes "zone:eu-1a") EdgeKinds.contains (codes "node:web")
      ∷ plain_edge (codes "node:web") EdgeKinds.runs_in (codes "zone:eu-1a")
      ∷ []
unfolding map_node node_topology_label label lookup Text-discrete
node_edges = refl

Mapped-IsClosed_example :
    IsClosed (map_pod web_pod (codes "statefulset:shop/web") (codes "web") Kinds.stateful_set)
Mapped-IsClosed_example =
    Mapped-IsClosed
      (map_pod web_pod (codes "statefulset:shop/web") (codes "web") Kinds.stateful_set)
      (of_pod web_pod (codes "statefulset:shop/web") (codes "web") Kinds.stateful_set)

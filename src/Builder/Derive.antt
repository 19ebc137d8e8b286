-- ===== src/Builder/Derive.antt =====
-- internal/builder/builder.go: one record, applied to the graph through a writer.
pub mod Sound
pub mod Emitter
use otel_k8s_graph.Base.{
  ◌+◌, ◌-◌, Text, [], ◌∷◌, ◌++◌, Option, Bool, true, false, not, ◌&&◌, codes, text_DecEq, nat_DecEq,
  if◌then◌else◌, ◌==◌,
}
use otel_k8s_graph.Graph.{Kind, Writer}
use otel_k8s_graph.Graph.Kinds
use otel_k8s_graph.Builder.Record.{Record, attr}
use otel_k8s_graph.Builder.Templatize.{Url}
use otel_k8s_graph.Builder.Endpoints.{derive_endpoint_edges}
use otel_k8s_graph.Builder.Topics.{derive_topic_edges}
use otel_k8s_graph.Builder.Databases.{derive_database_edges}

abbrev pub attr_namespace : Text
attr_namespace = codes "k8s.namespace.name"

abbrev pub attr_pod : Text
attr_pod = codes "k8s.pod.name"

abbrev pub attr_container : Text
attr_container = codes "k8s.container.name"

-- Container over pod; `("", "", "")` if neither is known.
unfoldable pub emitter_for : Text → Text → Text → Text → Text × Kind × Text
emitter_for container_id container_name pod_id pod_name =
    if not (container_id == [])
    then (container_id, Kinds.container, container_name)
    else if not (pod_id == [])
    then (pod_id, Kinds.pod, pod_name)
    else ([], [], [])

-- The edge anchor of a record: "" if it names no pod.
unfoldable pub emitter_id : Record → Text
unfolding attr emitter_for
emitter_id r =
    let namespace = attr r.attrs attr_namespace in
    let pod = attr r.attrs attr_pod in
    let container = attr r.attrs attr_container in
    let pod_id =
      if not (pod == []) && not (namespace == [])
      then codes "pod:" ++ namespace ++ b'/' ∷ pod
      else [] in
    let container_id =
      if not (container == []) && not (pod_id == [])
      then codes "container:" ++ namespace ++ b'/' ∷ (pod ++ b'/' ∷ container)
      else [] in
    (emitter_for container_id container pod_id pod).0

module _ {S : Type 0} (w : Writer S) (parse : Text → Option Url) where
  -- The new state of the writer, and whether the record had a usable emitter.
  unfoldable pub derive : Record → S → S × Bool
  derive r s =
      let id = emitter_id r in
      let s' =
        derive_database_edges w r id
          (derive_topic_edges w r id (derive_endpoint_edges w parse r id s)) in
      if id == [] then (s, false) else (s', true)

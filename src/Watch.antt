-- ===== src/Watch.antt =====
-- internal/k8swatch: the entities and edges that Kubernetes objects imply, and their writes.
pub mod Desired
pub mod Objects
pub mod Mapper
pub mod Dynamic
pub mod Owner
pub mod Apply
pub mod Handlers
pub mod Informers

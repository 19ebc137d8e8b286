-- ===== src/Builder.antt =====
-- internal/builder: the relationships that a span-metric record carries.
pub mod Templatize
pub mod Record
pub mod Databases
pub mod Topics
pub mod Endpoints
pub mod Derive

-- ===== src/Tests.antt =====
-- Concrete inputs, after the sources' own tests, and the theorems applied to them.
mod Sets
mod Push
mod Flush
mod Mirror
mod Buffered
mod Mapped
mod Updates
mod Names
mod Reader
mod Pruned
mod Asked
mod Settings
mod Fetched
mod Written

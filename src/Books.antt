-- ===== src/Books.antt =====
-- The catalogue of the upstream service, internal/bookwarehouse/catalog.go.
pub mod Types
pub mod Key
pub mod Listing
pub mod Dedup
pub mod Browse

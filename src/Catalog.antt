-- ===== src/Catalog.antt =====
-- internal/catalog: the HTTP handlers of the catalogue, and internal/request.
pub mod Types
pub mod Params
pub mod Handlers
pub mod Browse
pub mod Media
pub mod Steps

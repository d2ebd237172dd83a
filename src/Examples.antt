-- ===== src/Examples.antt =====
-- The theorems at concrete data, and runs of the model.
pub mod Data
pub mod Books
pub mod Catalog
pub mod Config
pub mod Requests
pub mod Site
pub mod Plugin
pub mod Order
pub mod Threads
pub mod Patches

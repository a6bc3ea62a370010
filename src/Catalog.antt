-- ===== src/Catalog.antt =====
-- The catalog package: the indexes over a model's documents, and the queries that read them.
pub mod Field
pub mod Tests
pub mod Query
pub mod Json
pub mod Postings
pub mod Text
pub mod Contract

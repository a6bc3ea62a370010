-- ===== src/Collective.antt =====
-- The package collective.indexing: index operations are queued during a transaction, reduced to
-- one for each object, and processed before the commit.
pub mod Queue
pub mod Tests

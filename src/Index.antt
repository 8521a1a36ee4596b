-- ===== src/Index.antt =====
-- src/index: chunking and near-duplicate grouping of documents.
pub mod Chunk
pub mod Dedupe
pub mod Kmeans
pub mod Tests

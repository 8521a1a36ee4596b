-- ===== src/Physical.antt =====
-- src/physical/: the operators that ask a model about rows.
pub mod Verify
pub mod Rank
pub mod Extract
pub mod IndexScan
pub mod Distinct
pub mod Tests

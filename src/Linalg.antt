-- ===== src/Linalg.antt =====
-- The module linalg: matrices as arrays, and the aggregates over vectors.
pub mod MatrixOp
pub mod MatrixAgg
pub mod Closest
pub mod Tests

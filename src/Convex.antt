-- ===== src/Convex.antt =====
-- modules/convex: incremental gradient descent for convex tasks, and scales of columns.
pub mod Lmf
pub mod Scales
pub mod Layouts
mod Tests

-- ===== src/Utils.antt =====
-- The header utils/Math.hpp; its comparison of doubles stands with the rank tests.
pub mod BitOr
pub mod PowerOfTwo
pub mod Tests

-- ===== src/Dbal.antt =====
-- dbal: typed access to a byte string, and structs that lie in one.
pub mod HandleBuf
pub mod ByteStream
pub mod DynamicStruct
pub mod Tests

-- ===== src/Binary.antt =====
-- The binary format: src/io/src/serializer/binary.cpp writes objects, and src/io/src/parser/parser.cpp
-- reads them.
pub mod Number
pub mod Tag
pub mod Parser
pub mod Serializer
pub mod Data
pub mod Instructions
pub mod RoundTrip
mod Tests

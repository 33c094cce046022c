-- ===== src/Json.antt =====
-- JSON: src/parse/src/json/ reads a text, and src/io/src/serializer/json.cpp writes one.
pub mod Value
pub mod Tokenizer
pub mod Parser
pub mod Print
pub mod Printable
pub mod RoundTrip
mod Tests

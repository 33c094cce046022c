-- ===== src/Csv.antt =====
-- The CSV reader: src/parse/src/csv/csv_tokenizer.cpp cuts a text of code points into symbols, and
-- src/parse/src/csv/csv_parser.cpp assembles the symbols to lines.
pub mod Tokenizer
pub mod Parser
mod Tests

-- ===== src/Store.antt =====
-- The in-memory tables of store/: the description of the columns, the subscribers, and the rows.
pub mod Meta
pub mod Pub
pub mod Table
pub mod Record
pub mod Database
mod Tests

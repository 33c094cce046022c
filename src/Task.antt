-- ===== src/Task.antt =====
-- The task library under src/task/src: channels and the registry that finds them.
pub mod Channel
pub mod Registry
mod Tests

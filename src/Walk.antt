-- ===== src/Walk.antt =====
-- walk/: the walk over the directories.
pub mod Deque
mod Examples

-- ===== src/Glob.antt =====
-- glob/: gitignore patterns, their fast classes, and the set that a path is matched against.
pub mod Token
pub mod Classify
pub mod Path
pub mod Class
pub mod Set
mod Examples

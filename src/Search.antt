-- ===== src/Search.antt =====
-- search/: the search of a file's lines.
pub mod Lines
pub mod Buffer
pub mod Core
pub mod Run
pub mod Parallel
pub mod Whole
mod Examples
mod CoreExamples
mod ParallelExamples
mod BufferExamples

-- ===== src/Match.antt =====
-- match/: literal extraction from a parsed pattern.
pub mod Rank
pub mod Seq
pub mod Trie
pub mod Optimize
pub mod TSeq
pub mod Regexp
pub mod Extract
pub mod Inner
mod Examples

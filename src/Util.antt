-- ===== src/Util.antt =====
-- cpp/util.cpp: the natural order of strings, by which `Response` sorts contexts.
pub mod Tokens
pub mod Replace
pub mod Merge
pub mod Compare
pub mod Examples

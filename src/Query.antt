-- ===== src/Query.antt =====
-- src/query: the query language.
pub mod Types
pub mod Parse
pub mod Eval
pub mod Sets
pub mod Boolean
pub mod Meaning
pub mod Latest
pub mod Format
pub mod Python
pub mod Run
pub mod Searched

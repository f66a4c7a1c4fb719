-- ===== src/Trie.antt =====
-- include/kvik/wildcard_trie.hpp: the trie, its nodes and its operations.
pub mod Nodes
pub mod Split
pub mod Ops
pub mod Childs
pub mod Insert
pub mod Remove
pub mod Contents
pub mod Empty
pub mod Runs
pub mod Stale
pub mod Find
pub mod Search
pub mod Each

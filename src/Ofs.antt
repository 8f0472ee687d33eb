-- ===== src/Ofs.antt =====
-- ofs/master: the master of the file store.
mod Tests
pub mod Ids
pub mod Users
pub mod Tree
pub mod Blocks
pub mod Sizes
pub mod Cluster
pub mod Master
pub mod Nodes
pub mod Copies
pub mod Access

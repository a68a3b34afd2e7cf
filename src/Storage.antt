-- ===== src/Storage.antt =====
-- hotstuff/block_storage: the store of blocks in memory and its garbage collector.
pub mod Collector
pub mod Store
pub mod Collected
pub mod Inserted

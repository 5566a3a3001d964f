-- ===== src/Cache.antt =====
-- apps/betterhook/src/cache: the store of finished jobs, keyed by what they ran on.
pub mod Disk
pub mod Hash
pub mod ToolHash
pub mod Store
pub mod Lookup
pub mod Tests

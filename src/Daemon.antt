-- ===== src/Daemon.antt =====
-- apps/betterhook/src/daemon: the coordinator that grants locks.
pub mod Semaphore
pub mod Registry
pub mod Server
pub mod Tests

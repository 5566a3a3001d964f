-- ===== src/Lock.antt =====
-- apps/betterhook/src/lock: the keys of locks and the messages about them.
pub mod Protocol
pub mod Client

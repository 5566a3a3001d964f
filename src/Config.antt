-- ===== src/Config.antt =====
-- apps/betterhook/src/config: the configuration, from the tables of the file to the jobs that run.
pub mod Schema
pub mod Raw
pub mod Crates
pub mod Lower
pub mod Extends
pub mod Tests

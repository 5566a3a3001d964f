-- ===== src/Install.antt =====
-- apps/betterhook/src/install: the wrappers in the hooks directory and the manifest of them.
pub mod System
pub mod Write
pub mod Uninstall
pub mod Tests

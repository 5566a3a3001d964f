-- ===== src/Git.antt =====
-- apps/betterhook/src/git: what is asked of git, and what is made of its answers.
pub mod Fileset
pub mod RevParse
pub mod Worktrees
pub mod Stash
pub mod Tests

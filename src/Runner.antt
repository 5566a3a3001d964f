-- ===== src/Runner.antt =====
-- apps/betterhook/src/runner: from the jobs of a hook to a report.
pub mod GlobUtil
pub mod Dag
pub mod Plan
pub mod World
pub mod Executor
pub mod Summary
pub mod Parallel
pub mod Sequential
pub mod Hook
pub mod Tests

-- ===== src/Lib.antt =====
-- A model of betterhook, a git hook manager, and the theorems about it.
--
-- The program reads a configuration (apps/betterhook/src/config), picks the hook to run, works out
-- what each of its jobs is to run on, and runs the jobs (apps/betterhook/src/runner). In a parallel
-- hook, `build_dag` compares the capability globs of every two jobs and joins those that conflict by
-- an edge; the scheduler of `run_parallel` starts a job when all its parents have settled, at most
-- `parallel_limit` at once, lowest priority number first.
--
-- The files:
-- - Base: lists, results, sorting, paths by components, and ordered maps with their lemmas: a
--   `BTreeMap` is a list of entries with a proof that its keys ascend.
-- - Git: git/fileset.rs with a model of how a shell reads words (Git.Fileset.Shell), git/rev_parse.rs
--   with the list of worktrees, git/stash.rs. The git program is the parameter `Git`: a function on a
--   state of the repository.
-- - Globset: the globset crate, a parameter: a type of compiled globs and sets, and their tests.
-- - Builtins: the table of builtins/mod.rs with the entries of the files beside it.
-- - Cache: cache/hash.rs, cache/tool_hash.rs, cache/store.rs and cache/lookup.rs over the parameter `Disk`,
--   which is the file system with the crates that the cache uses.
-- - Lock: the messages of lock/protocol.rs, the keys of lock/client.rs and the lockfiles of lock/flock.rs.
-- - Daemon: daemon/registry.rs and the connections of daemon/server.rs: `Step` is what may happen next to
--   any of the connections, `Reached` what the server comes to. Semaphores are a parameter.
-- - Config.Schema, Config.Raw, Config.Crates, Config.Lower: config/schema.rs: the canonical types, the
--   types of a file with `merge_overlay`, the crates and errors, and `RawConfig::lower`.
-- - Config.Extends: config/extends.rs, with `load` and `find_config_path` of config/mod.rs. Its files prove
--   that the resolution ends and refuses circles.
-- - Config.Raw.Laws and the files under Config/Lower prove what merging and lowering do.
-- - Dispatch: dispatch.rs, which picks the hook and shares the staged files among the packages of a
--   monorepo. Dispatch.Packages and Dispatch.Sharing are about the files, Dispatch.Merge about hooks.
-- - Install: install/manifest.rs, install/wrapper.rs, `uninstall_unit` of daemon/lifecycle.rs, and of
--   install/mod.rs what an installation writes (Install.Write) and `uninstall_blocking` (Install.Uninstall), over the parameter `System`.
-- - Runner.GlobUtil: runner/glob_util.rs.
-- - Runner.Dag: runner/dag.rs. Connect and Edges prove which edges the two loops make, Order what the
--   graph is like.
-- - Runner.Plan, Runner.World, Runner.Summary: runner/plan.rs, what the executor meets outside itself,
--   and what it reports.
-- - Runner.Executor: the local variables of `run_parallel` in runner/executor.rs as a state, one
--   function for each branch of its loops, and `step` for one round of them. Executor.Job is
--   `execute_job_in_dag` with the parts of runner/stage.rs that it calls.
-- - Runner.Parallel: `run_parallel` as a whole; Correct says what it returns and Reach what holds in
--   every state that it goes through.
-- - Runner.Sequential: `run_sequential`; Agree compares it with `run_parallel`.
-- - Runner.Hook: `run_hook_with_options`, from the stash to the report, with the filters of the options.
--
-- The state and the order of events. `step` is one round of the nested loops: pop and launch a job, or
-- join a task. The order in which tasks end is the parameter `World.joins`, which names the place among
-- the tasks in flight of the one that `join_next` returns. A task that has ended is never in flight
-- again, so no list of tasks is asked about twice, and each order of ends is given by such a function;
-- the theorems hold for all of them.
-- The binary heap is the list of its keys in the order in which they are popped. `trace` records the
-- admissions and the ends of jobs; the code has no such variable.
--
-- Fuel. `rounds` runs on fuel, and `fuel_for n = 1 + 2 * n` is enough for `n` jobs: each round starts a
-- job or joins one that was started, or ends the loop. `resolve` runs on fuel, and one more than the
-- number of readable files is enough: each nested visit is of a file that is not being visited.
--
-- Numbers. `usize` and `u32` counters stay far below their bounds (they count jobs), so they are
-- natural numbers; a place in `priority` is cut off at `u32::MAX` as in the code. An exit code is read
-- only as zero or not.
--
-- Not modelled of the runner: output events and diagnostics, the timing of a run, subprocesses, the
-- locks of single jobs, what a cache lookup returns in a run (it is a parameter there), and a task that
-- panics. When a job fails under `fail_fast` the other tasks are drained, and what they did
-- is not looked at: the same holds here. Not modelled of the rest: paths that are not UTF-8, reading and
-- parsing files, the importers, the sockets, the watcher and the
-- speculative runs of the daemon, the walks over the cache, the checks that
-- come before an installation, the parsers of tool output, and
-- the command line, which are input and output or calls of other crates for the most part.
pub mod Base
pub mod Builtins
pub mod Cache
pub mod Config
pub mod Daemon
pub mod Dispatch
pub mod Git
pub mod Globset
pub mod Install
pub mod Lock
pub mod Runner

-- ===== src/Runner/World.antt =====
-- What the executor meets outside itself. An exit code is the bit pattern of the `i32`.
-- The answers are given for each job by its index, since each job runs at most once.
use betterhook.Base.{ℕ, String, List, Option, Result}
use betterhook.Config.Schema.{FilePath}

pub record World (RunError : Type 0) : Type 0 where
  -- `unstaged_files(worktree)` before the job, and again after it
  pub unstaged_before : ℕ → Result RunError (List FilePath)
  pub unstaged_after : ℕ → Result RunError (List FilePath)
  -- `git add -- <paths>` after the job
  pub git_add : ℕ → List FilePath → Result RunError (Unit {0})
  -- `run_command` of the job's command with that number
  pub run_command : ℕ → ℕ → String → Result RunError ℕ
  -- the exit code of the entry that `cache::lookup` finds, `none` for a miss or an error
  pub cached : ℕ → Option ℕ
  -- the place, among the tasks in flight, of the one that `join_next` returns
  pub joins : List ℕ → ℕ

-- ===== src/Runner/Hook.antt =====
-- apps/betterhook/src/runner/executor.rs: `run_hook_with_options`, from the stash to the report, with
-- the filters of `RunOptions`. The sink and the times are left out.
pub mod Filters
pub mod Counts
pub mod Stashing
use mathlib.Core.Logic.{◌⊎◌, inl}
use betterhook.Base.{
  ℕ, ◌+◌, String, List, [], ◌∷◌, Bool, true, false, not, ◌&&◌, ◌||◌, Option, none, some, Result, ok,
  err, map_err, if◌then◌else◌, is_empty,
}
use text.Mathlib.Text.{◌==◌ as str_eq}
use mathlib.Core.Option
use betterhook.Base.Search.{split_at, trim}
use betterhook.Base.Actions.{Action, pure, ◌>>=◌, ◌>>◌}
use betterhook.Globset.{Globset}
use betterhook.Config.Schema.{FilePath, Job, Hook}
use betterhook.Git.Fileset.{drop_empty}
use betterhook.Git.RevParse.{Git, GitError, git_common_dir}
use betterhook.Git.Stash.{StashGuard, push, pop}
use betterhook.Runner.Plan.{JobPlan, ResolvedJob, HookError, HookAction, from_git, resolve_job_plan}
use betterhook.Runner.World.{World}
use betterhook.Runner.Summary.{RunError, RunSummary}
use betterhook.Runner.Parallel.{run_parallel}
use betterhook.Runner.Sequential.{run_sequential}

pub record RunOptions : Type 0 where
  pub skip : List String
  pub only : List String
  pub no_locks : Bool

-- `names.iter().any(|n| n == job_name)`
unfoldable pub any_is : List String → String → Bool
any_is [] name = false
any_is (n ∷ names) name = str_eq n name || any_is names name

unfoldable pub is_filtered : RunOptions → String → Bool
is_filtered options job_name =
    if not (is_empty options.only) && not (any_is options.only job_name)
    then true
    else any_is options.skip job_name

unfoldable pub trim_each : List String → List String
trim_each [] = []
trim_each (s ∷ ss) = trim s ∷ trim_each ss

-- `std::env::var` is a parameter; a variable that is not set is the empty text.
unfoldable pub parse_env_list : (String → Option String) → String → List String
parse_env_list env var = drop_empty (trim_each (split_at b',' (Option.get_or (env var) "")))

unfoldable pub from_env : (String → Option String) → RunOptions
from_env env = record {
  skip = parse_env_list env "BETTERHOOK_SKIP";
  only = parse_env_list env "BETTERHOOK_ONLY";
  no_locks = elim (env "BETTERHOOK_NO_LOCKS") [ none ↦ false | some v ↦ true ];
}

-- `duration_ms` is left out.
pub record ExecutionReport : Type 0 where
  pub hook_name : String
  pub ok : Bool
  pub jobs_run : ℕ
  pub jobs_skipped : ℕ

-- The jobs with their plans, and how many were filtered out.
pub record Resolved : Type 0 where
  pub jobs : List ResolvedJob
  pub filtered_out : ℕ

-- What the run meets outside: the lock of the stash, the message of a stash, what the jobs meet when
-- they start in a repository, and what they leave it as.
pub record Surroundings (globset : Globset) (git : Git) (X : Type 0) : Type 0 where
  pub acquire_repo_stash_lock : FilePath → Action git.Repo (HookError globset git X) (Unit {0})
  pub stash_message : String
  pub default_limit : ℕ
  pub world : git.Repo → World (HookError globset git X)
  pub after_jobs : List ResolvedJob → git.Repo → git.Repo

module _ (globset : Globset) (git : Git) (X : Type 0) (around : Surroundings globset git X)
    (hook : Hook) (worktree : FilePath) where
  unfoldable pub add_job : Job → Option JobPlan → Resolved → Resolved
  add_job job plan r = record r { jobs = (record { job = job; plan = plan }) ∷ r.jobs }

  unfoldable pub add_filtered : Resolved → Resolved
  add_filtered r = record r { filtered_out = r.filtered_out + 1 }

  -- The loop `for job in &hook.jobs`.
  unfoldable pub resolve_jobs : RunOptions → List Job → HookAction globset git X Resolved
  resolve_jobs options [] = pure (record { jobs = []; filtered_out = 0 })
  resolve_jobs options (job ∷ jobs) =
      let rest = resolve_jobs options jobs in
      if is_filtered options job.name
      then (rest >>= λ r. pure (add_filtered r))
      else resolve_job_plan globset git X hook job worktree >>= λ plan.
          rest >>= λ r. pure (add_job job plan r)

  unfoldable pub push_if_needed : HookAction globset git X (Option StashGuard)
  push_if_needed =
      if hook.stash_untracked
      then (from_git globset git X (push git worktree around.stash_message) >>= λ guard.
          pure (some guard))
      else pure none

  unfoldable pub lock_if_needed : FilePath → HookAction globset git X (Unit {0})
  lock_if_needed common_dir =
      if hook.stash_untracked then around.acquire_repo_stash_lock common_dir else pure tt

  -- `none` would mean that the parallel scheduler ran out of fuel.
  unfoldable pub run_jobs :
      List ResolvedJob → git.Repo → Option (Result (HookError globset git X) RunSummary)
  run_jobs jobs repo =
      if hook.parallel
      then run_parallel globset around.default_limit (around.world repo) hook jobs
      else some (run_sequential (around.world repo) hook.fail_fast jobs)

  -- The pop, and its error if there is one.
  unfoldable pub pop_stash : Option StashGuard → git.Repo → Option (GitError git.IoError) × git.Repo
  pop_stash none repo = (none, repo)
  pop_stash (some guard) repo =
      let (r, repo') = pop git guard repo in (elim r [ err e ↦ some e | ok done ↦ none ], repo')

  -- The first error counts: that of the jobs, then that of the pop.
  unfoldable pub report_of :
      ℕ
      → Result (HookError globset git X) RunSummary
      → Option (GitError git.IoError)
      → Result (HookError globset git X) ExecutionReport
  report_of filtered_out (err e) stash_error = err e
  report_of filtered_out (ok report) (some e) = err (RunError.external (inl e))
  report_of filtered_out (ok report) none = ok (record {
    hook_name = hook.name;
    ok = report.ok;
    jobs_run = report.jobs_run;
    jobs_skipped = report.jobs_skipped + filtered_out;
  })

  abbrev pub Outcome : Type 0
  Outcome = Option (Result (HookError globset git X) ExecutionReport) × git.Repo

  unfoldable pub finish :
      ℕ
      → Option StashGuard
      → Option (Result (HookError globset git X) RunSummary)
      → git.Repo
      → Outcome
  finish filtered_out stash none repo = (none, repo)
  finish filtered_out stash (some ended) repo =
      let (stash_error, repo') = pop_stash stash repo in
      (some (report_of filtered_out ended stash_error), repo')

  unfoldable pub execute :
      Result (HookError globset git X) (Option StashGuard × Resolved) × git.Repo → Outcome
  execute (err e, repo) = (some (err e), repo)
  execute (ok (stash, resolved), repo) =
      finish resolved.filtered_out stash (run_jobs resolved.jobs repo)
        (around.after_jobs resolved.jobs repo)

  -- Everything before the jobs run.
  unfoldable pub prepare : RunOptions → HookAction globset git X (Option StashGuard × Resolved)
  prepare options = from_git globset git X (git_common_dir git worktree) >>= λ common_dir.
      lock_if_needed common_dir
      >> (push_if_needed >>= λ stash.
          resolve_jobs options hook.jobs >>= λ resolved. pure (stash, resolved))

  unfoldable pub run_hook_with_options : RunOptions → git.Repo → Outcome
  run_hook_with_options options repo = execute (prepare options repo)

  unfoldable pub run_hook : (String → Option String) → git.Repo → Outcome
  run_hook env = run_hook_with_options (from_env env)

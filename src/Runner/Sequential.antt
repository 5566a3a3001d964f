-- ===== src/Runner/Sequential.antt =====
-- apps/betterhook/src/runner/executor.rs, `run_sequential`: the jobs one after the other.
pub mod Agree
use betterhook.Base.{
  ℕ, zero, suc, ◌+◌, String, List, [], ◌∷◌, Bool, true, false, not, ◌&&◌, Option, none, some,
  Result, ok, ◌>>=◌, ◌==◌, if◌then◌else◌,
}
use betterhook.Config.Schema.{Job}
use betterhook.Runner.Plan.{JobPlan, ResolvedJob}
use betterhook.Runner.World.{World}
use betterhook.Runner.Summary.{RunSummary}
use betterhook.Runner.Executor.Job.{snapshot_unstaged_if_needed, stage_if_needed}

module _ {E : Type 0} (world : World E) (fail_fast : Bool) where
  -- The loop over the commands of job `idx`, from command `k` on: it goes on after a failure unless
  -- `fail_fast` is set.
  unfoldable pub run_all : ℕ → ℕ → List String → Result E Bool
  run_all idx k [] = ok false
  run_all idx k (cmd ∷ cmds) = world.run_command idx k cmd >>= λ exit.
      let rest = run_all idx (suc k) cmds in
      if exit == 0 then rest else if fail_fast then ok true else rest >>= λ failed. ok true

  -- The loop's body for a job with a plan, up to `jobs_run += 1`.
  unfoldable pub execute_job : ℕ → Job → JobPlan → Result E Bool
  execute_job idx job plan = do
    before ← snapshot_unstaged_if_needed world idx job
    job_failed ← run_all idx 0 plan.commands
    done ← stage_if_needed world idx before
    ok job_failed

  unfoldable pub after_job :
      (RunSummary → Result E RunSummary) → Bool → RunSummary → Result E RunSummary
  after_job rest job_failed s =
      let s' = record s { ok = s.ok && not job_failed; jobs_run = s.jobs_run + 1 } in
      if job_failed && fail_fast then ok s' else rest s'

  unfoldable pub run_job :
      (RunSummary → Result E RunSummary)
      → Option JobPlan
      → ℕ
      → Job
      → RunSummary
      → Result E RunSummary
  run_job rest none idx job s = rest (record s { jobs_skipped = s.jobs_skipped + 1 })
  run_job rest (some plan) idx job s =
      execute_job idx job plan >>= λ job_failed. after_job rest job_failed s

  -- The loop over the jobs, of which the first has the index `idx`.
  unfoldable pub run_from : ℕ → List ResolvedJob → RunSummary → Result E RunSummary
  run_from idx [] s = ok s
  run_from idx (rj ∷ jobs) s = run_job (run_from (suc idx) jobs) rj.plan idx rj.job s

  unfoldable pub run_sequential : List ResolvedJob → Result E RunSummary
  run_sequential jobs = run_from 0 jobs (record { ok = true; jobs_run = 0; jobs_skipped = 0 })

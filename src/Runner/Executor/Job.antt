-- ===== src/Runner/Executor/Job.antt =====
-- apps/betterhook/src/runner/executor.rs, `execute_job_in_dag`, and the parts of
-- apps/betterhook/src/runner/stage.rs that it calls: one job from its first command to its outcome.
use text.Mathlib.Text.{◌==◌ as str_eq}
use betterhook.Base.{
  ℕ, suc, String, List, [], ◌∷◌, Bool, true, false, not, ◌&&◌, ◌||◌, Option, none, some, Result, ok,
  ◌>>=◌, ◌==◌, if◌then◌else◌, is_empty,
}
use betterhook.Config.Schema.{FilePath, Job}
use betterhook.Runner.Plan.{JobPlan}
use betterhook.Runner.World.{World}

unfoldable pub contains : List FilePath → FilePath → Bool
contains [] p = false
contains (q ∷ ps) p = str_eq q p || contains ps p

-- `after.difference(before)`
unfoldable pub difference : List FilePath → List FilePath → List FilePath
difference [] before = []
difference (p ∷ after) before =
    let rest = difference after before in if contains before p then rest else p ∷ rest

module _ {E : Type 0} (world : World E) (idx : ℕ) where
  unfoldable pub snapshot_unstaged_if_needed : Job → Result E (Option (List FilePath))
  snapshot_unstaged_if_needed job =
      if not job.stage_fixed || job.interactive
      then ok none
      else do files ← world.unstaged_before idx; ok (some files)

  unfoldable pub apply_stage_fixed : List FilePath → Result E (Unit {0})
  apply_stage_fixed before = do
    after ← world.unstaged_after idx
    let newly = difference after before
    if is_empty newly then ok tt else world.git_add idx newly

  unfoldable pub stage_if_needed : Option (List FilePath) → Result E (Unit {0})
  stage_if_needed none = ok tt
  stage_if_needed (some before) = apply_stage_fixed before

  -- The loop over the commands, from command `k` on: whether one of them failed.
  unfoldable pub run_commands : ℕ → List String → Result E Bool
  run_commands k [] = ok false
  run_commands k (cmd ∷ cmds) = world.run_command idx k cmd >>= λ exit.
      let rest = run_commands (suc k) cmds in if exit == 0 then rest else ok true

  -- A `JobOutcome` is its one field, whether the job failed.
  unfoldable pub execute_job_in_dag : Job → JobPlan → Result E Bool
  execute_job_in_dag job plan = do
    before ← snapshot_unstaged_if_needed job
    job_failed ← run_commands 0 plan.commands
    done ← stage_if_needed before
    ok job_failed

-- Whether the captured events of a finished job are written to the cache.
unfoldable pub is_stored : Job → JobPlan → Bool → Bool
is_stored job plan job_failed = job.concurrent_safe && not job_failed && not (is_empty plan.files)

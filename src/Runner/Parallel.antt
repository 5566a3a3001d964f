-- ===== src/Runner/Parallel.antt =====
-- apps/betterhook/src/runner/executor.rs, `run_parallel` as a whole: the graph, the scheduler's
-- loops, and the summary.
pub mod Verdicts
pub mod Correct
pub mod Reach
use mathlib.Core.Option
use betterhook.Base.{
  ℕ, suc, ◌+◌, ◌*◌, List, map, Bool, not, Option, none, some, Result, ok, err, map_err, ltb, length,
  if◌then◌else◌,
}
use betterhook.Globset.{Globset}
use betterhook.Config.Schema.{Hook}
use betterhook.Runner.Plan.{ResolvedJob}
use betterhook.Runner.World.{World}
use betterhook.Runner.Dag.{DagError, JobGraph, build_dag}
use betterhook.Runner.Executor.{State, Run, rounds, initial}
use betterhook.Runner.Summary
use betterhook.Runner.Summary.{RunError, RunSummary}

unfoldable pub summarise : State → RunSummary
summarise s = record { ok = not s.failed; jobs_run = s.jobs_run; jobs_skipped = s.jobs_skipped }

-- `.unwrap_or_else(default_parallel_limit).max(1)`
unfoldable pub parallel_limit : ℕ → Option ℕ → ℕ
parallel_limit default_limit limit =
    let n = Option.get_or limit default_limit in if ltb n 1 then 1 else n

-- Enough for each job to be admitted and joined, and for the last round.
unfoldable pub fuel_for : ℕ → ℕ
fuel_for n = suc (2 * n)

abbrev pub Error : Globset → Type 0 → Type 0
Error globset X = RunError globset.Error X

abbrev pub run_of :
    {E : Type 0} → (default_limit : ℕ) → World E → Hook → List ResolvedJob → JobGraph → Run E
run_of default_limit world hook jobs graph = record {
  nodes = graph.nodes;
  jobs = jobs;
  limit = parallel_limit default_limit hook.parallel_limit;
  fail_fast = hook.fail_fast;
  world = world;
}

unfoldable pub summarise_end : {E : Type 0} → Option (Result E State) → Option (Result E RunSummary)
summarise_end none = none
summarise_end (some (ok s)) = some (ok (summarise s))
summarise_end (some (err e)) = some (err e)

module _ (globset : Globset) {X : Type 0} (default_limit : ℕ) (world : World (Error globset X))
    (hook : Hook) (jobs : List ResolvedJob) where
  unfoldable pub run_graph :
      Result (DagError globset.Error) JobGraph → Option (Result (Error globset X) RunSummary)
  run_graph (err e) = some (err (RunError.dag e))
  run_graph (ok graph) = summarise_end (
      rounds (run_of default_limit world hook jobs graph) (fuel_for (length graph.nodes))
        (initial graph.nodes))

  -- `none` would mean that the fuel ran out.
  unfoldable pub run_parallel : Option (Result (Error globset X) RunSummary)
  run_parallel = run_graph (build_dag globset (map (λ rj. rj.job) jobs))

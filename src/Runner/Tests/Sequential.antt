-- ===== src/Runner/Tests/Sequential.antt =====
-- The sequential loop at a small input.
use betterhook.Base.{zero, suc, ◌≡◌, refl, String, false, some, arith}
use betterhook.Runner.Executor.Job.{snapshot_unstaged_if_needed, stage_if_needed}
use betterhook.Runner.Parallel.{Error, run_parallel}
use betterhook.Runner.Sequential.{run_all, execute_job, run_sequential}
use betterhook.Runner.Sequential.Agree.{FailsAs, run_parallel-eq-run_sequential}
use betterhook.Runner.Tests.{
  literal, three_jobs_graph, build_dag-three_jobs, hook, calm, planned_jobs,
}

calm-FailsAs : FailsAs {E = Error literal String} calm hook.fail_fast planned_jobs (λ _. false)
unfolding execute_job run_all snapshot_unstaged_if_needed stage_if_needed
calm-FailsAs zero rj e = ground (arith, e)
calm-FailsAs (suc zero) rj e = ground (arith, e)
calm-FailsAs (suc (suc zero)) rj e = ground (arith, e)
calm-FailsAs (suc (suc (suc i))) rj e = ground (arith, e)

run_parallel-eq-run_sequential_example :
    run_parallel literal {X = String} 4 calm hook planned_jobs
    ≡ some (run_sequential calm hook.fail_fast planned_jobs)
run_parallel-eq-run_sequential_example =
    run_parallel-eq-run_sequential literal 4 calm hook planned_jobs three_jobs_graph (λ _. false)
      build_dag-three_jobs (λ _. refl) calm-FailsAs (λ _. refl)

-- ===== src/Runner/Tests/Instances.antt =====
-- The theorems about the runner at small inputs.
use betterhook.Base.{
  All, bit, ◌==◌, ℕ, zero, suc, ◌+◌, ◌<◌, ◌≤◌, ◌≡◌, refl, String, List, false, some, ◌⊎◌, Result,
  ok, err, arith, length, count,
}
use betterhook.Runner.Dag.{DagError, JobGraph, Sets, compile_sets, conflict_at, build_dag}
use betterhook.Runner.Dag.Edges.{IsGraphOf}
use betterhook.Runner.Dag.Connect.{children_at, parents_at}
use betterhook.Runner.Dag.Order.{
  build_dag-IsGraphOf, build_dag-orders_conflicts, Reaches, build_dag_acyclic,
}
use betterhook.Runner.Executor.{initial}
use betterhook.Runner.Executor.Trace.{IsOrdered, unsettled}
use betterhook.Runner.Executor.Heap.{ready_count}
use betterhook.Runner.Executor.Release.{started_at}
use betterhook.Runner.Dag.Edges.{precedes}
use betterhook.Runner.Summary.{RunError, RunSummary}
use betterhook.Runner.Parallel.{Error, run_parallel, parallel_limit}
use betterhook.Runner.Parallel.Correct.{
  run_parallel-Reports, run_parallel-eq-summary_of, summary_of, Reports,
}
use betterhook.Runner.Parallel.Verdicts.{alone}
use betterhook.Runner.Executor.Priority.{InPopOrder}
use betterhook.Runner.Parallel.Reach.{
  begin, IsReady, ready_is_sorted, conflicts_never_overlap, in_flight_limit, admitted_in_order,
}
use betterhook.Runner.Tests.{
  literal, three_jobs, three_jobs_graph, three_jobs_sets, build_dag-three_jobs,
  compile_sets-three_jobs, conflict-lint_format, hook, calm, planned_jobs, busy, Reached-busy,
  run_code,
}

build_dag-IsGraphOf_example :
    (sets : List (Sets literal)) × (compile_sets literal three_jobs ≡ ok sets)
    × IsGraphOf literal three_jobs sets three_jobs_graph.nodes
build_dag-IsGraphOf_example =
    build_dag-IsGraphOf literal three_jobs three_jobs_graph build_dag-three_jobs

build_dag-orders_conflicts_example :
    count 1 (children_at three_jobs_graph.nodes 0) + count 0 (children_at three_jobs_graph.nodes 1)
    ≡ 1
build_dag-orders_conflicts_example =
    build_dag-orders_conflicts literal three_jobs three_jobs_sets three_jobs_graph 0 1
      compile_sets-three_jobs build_dag-three_jobs (omega arith) conflict-lint_format

build_dag_acyclic_example : ¬ Reaches three_jobs_graph.nodes 1 1
build_dag_acyclic_example =
    build_dag_acyclic literal three_jobs three_jobs_graph 1 build_dag-three_jobs

run_parallel-Reports_example :
    (r : Result (Error literal String) RunSummary) × (run_parallel literal 4 calm hook planned_jobs
      ≡ some r)
    × (((e : DagError String) × (build_dag literal three_jobs ≡ err e) × (r ≡ err (RunError.dag e)))
        ⊎ ((graph : JobGraph) × (build_dag literal three_jobs ≡ ok graph)
            × Reports literal 4 calm hook planned_jobs r))
run_parallel-Reports_example = run_parallel-Reports literal 4 calm hook planned_jobs

none_fails : (i : ℕ) → i < 3 → alone {E = Error literal String} calm planned_jobs i ≡ ok false
unfolding run_code
none_fails zero h = refl
none_fails (suc zero) h = refl
none_fails (suc (suc zero)) h = refl
none_fails (suc (suc (suc i))) h = absurd (omega arith)

run_parallel-eq-summary_of_example :
    run_parallel literal {X = String} 4 calm hook planned_jobs
    ≡ some (ok (summary_of literal {X = String} 4 calm hook planned_jobs (λ _. false)))
run_parallel-eq-summary_of_example =
    run_parallel-eq-summary_of literal 4 calm hook planned_jobs (λ _. false) three_jobs_graph
      build_dag-three_jobs none_fails (λ _. refl)

busy_two : (0 < count 2 busy.in_flight) × (0 < count 1 busy.in_flight)
unfolding busy run_code
busy_two = (omega arith, omega arith)

conflicts_never_overlap_example : conflict_at literal three_jobs three_jobs_sets 2 1 ≡ false
conflicts_never_overlap_example =
    conflicts_never_overlap literal 4 calm hook planned_jobs three_jobs_graph busy
      build_dag-three_jobs Reached-busy three_jobs_sets 2 1 compile_sets-three_jobs (omega arith)
      busy_two.0 busy_two.1

in_flight_limit_example :
    (length busy.in_flight ≤ parallel_limit 4 (some 2)) × ((i : ℕ) → count i busy.in_flight ≤ 1)
in_flight_limit_example =
    in_flight_limit literal 4 calm hook planned_jobs three_jobs_graph busy build_dag-three_jobs
      Reached-busy

admitted_in_order_example : IsOrdered (precedes literal three_jobs three_jobs_sets) busy.trace
admitted_in_order_example =
    admitted_in_order literal 4 calm hook planned_jobs three_jobs_graph busy build_dag-three_jobs
      Reached-busy three_jobs_sets compile_sets-three_jobs

ready_is_sorted_example :
    InPopOrder (initial three_jobs_graph.nodes).ready
    × All
        (IsReady three_jobs_graph.nodes (initial three_jobs_graph.nodes))
        (initial three_jobs_graph.nodes).ready
    × ((i : ℕ)
        → (length three_jobs_graph.nodes ≤ i)
            × (ready_count i (initial three_jobs_graph.nodes).ready ≡ 0)
          ⊎ (bit (started_at (initial three_jobs_graph.nodes) i)
                + ready_count i (initial three_jobs_graph.nodes).ready
              ≡ bit (
                  unsettled
                    (initial three_jobs_graph.nodes).trace
                    (parents_at three_jobs_graph.nodes i)
                  == 0)))
ready_is_sorted_example =
    ready_is_sorted literal {X = String} 4 calm hook planned_jobs three_jobs_graph
      (initial three_jobs_graph.nodes) build_dag-three_jobs (begin _ refl)

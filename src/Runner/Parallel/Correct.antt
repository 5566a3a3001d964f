-- ===== src/Runner/Parallel/Correct.antt =====
-- What `run_parallel` returns.
use betterhook.Base.{
  ℕ, suc, ◌+◌, ◌-◌, ◌<◌, ◌≡◌, refl, sym, ap, ◌∙◌, ◌⊎◌, inl, inr, List, [], ◌∷◌, map, Bool, true,
  false, not, some, Result, ok, err, arith, Bool-cases, length,
}
use betterhook.Globset.{Globset}
use betterhook.Config.Schema.{Job, Hook}
use betterhook.Runner.Plan.{ResolvedJob}
use betterhook.Runner.World.{World}
use betterhook.Runner.Summary.{RunError, RunSummary}
use betterhook.Runner.Dag.{DagError, JobGraph, Sets, build_dag}
use betterhook.Runner.Dag.Edges.{IsGraphOf, precedes, precedes-bounds}
use betterhook.Runner.Dag.Connect.{length-jobs_of}
use betterhook.Runner.Dag.Order.{priority_at, build_dag-IsGraphOf, precedes-Before}
use betterhook.Runner.Executor.{State, Run, rounds, initial, cached_exit, outcome_of}
use betterhook.Runner.Executor.Trace.{fails}
use betterhook.Runner.Executor.Invariant.{verdict}
use betterhook.Runner.Executor.Loop.{IsRunnable, IsFinal, Ends, rounds-Ends}
use betterhook.Runner.Executor.Complete.{jobs_without_plan}
use betterhook.Runner.Executor.Start.{initial-Inv, none_started}
use betterhook.Runner.Parallel.{
  Error, parallel_limit, fuel_for, run_of, summarise, summarise_end, run_graph, run_parallel,
}
use betterhook.Runner.Parallel.Verdicts.{
  alone, any_below, any_below-true, any_below-false, verdict_of_settled, some_failed, alone_out,
}

length-map_jobs : (jobs : List ResolvedJob) → length (map (λ rj. rj.job) jobs) ≡ length jobs
length-map_jobs [] = refl
length-map_jobs (rj ∷ jobs) = ap suc (length-map_jobs jobs)

module _ (globset : Globset) {X : Type 0} (default_limit : ℕ) (world : World (Error globset X))
    (hook : Hook) (jobs : List ResolvedJob) (sets : List (Sets globset)) (graph : JobGraph)
    (made : IsGraphOf globset (map (λ rj. rj.job) jobs) sets graph.nodes) where
  abbrev pub job_list : List Job
  job_list = map (λ rj. rj.job) jobs

  abbrev pub this_run : Run (Error globset X)
  this_run = run_of default_limit world hook jobs graph

  nodes_length : length graph.nodes ≡ length jobs
  nodes_length =
      omega (arith, length-jobs_of graph.nodes, ap length made.jobs_kept, length-map_jobs jobs)

  pub run_of-IsRunnable : IsRunnable this_run (precedes globset job_list sets)
  unfolding parallel_limit
  run_of-IsRunnable = record {
    links = record { children = made.children_counted; parents = made.parents_counted };
    jobs_length = sym nodes_length;
    priority = priority_at job_list;
    ranked = precedes-Before globset job_list sets;
    in_range = λ p c h. omega (
      arith,
      (precedes-bounds globset job_list sets p c h).0,
      nodes_length,
      length-map_jobs jobs,
    );
    limit_pos = ground arith;
  }

  pub run_of-Ends :
      Ends this_run
        (precedes globset job_list sets)
        run_of-IsRunnable
        (rounds this_run (fuel_for (length graph.nodes)) (initial graph.nodes))
  unfolding fuel_for initial
  run_of-Ends =
      rounds-Ends this_run (precedes globset job_list sets) run_of-IsRunnable
        (fuel_for (length graph.nodes)) (initial graph.nodes)
        (initial-Inv this_run (precedes globset job_list sets))
        (omega (arith, none_started graph.nodes))

module _ (globset : Globset) {X : Type 0} (default_limit : ℕ) (world : World (Error globset X))
    (hook : Hook) (jobs : List ResolvedJob) where
  -- What a run of the graph ends with, by the verdicts of the jobs alone.
  abbrev pub Reports : Result (Error globset X) RunSummary → Type 0
  Reports (ok summary) =
      (summary.ok ≡ false → (i : ℕ) × (alone world jobs i ≡ ok true))
      × (summary.ok ≡ true → (i : ℕ) → i < length jobs → alone world jobs i ≡ ok false)
      × ((hook.fail_fast ≡ true) × (summary.ok ≡ false)
          ⊎ (summary.jobs_run + summary.jobs_skipped ≡ length jobs)
            × (summary.jobs_skipped ≡ jobs_without_plan jobs))
  Reports (err e) = (i : ℕ) × (alone world jobs i ≡ err e)

  final_Reports :
      (sets : List (Sets globset)) (graph : JobGraph)
      (made : IsGraphOf globset (map (λ rj. rj.job) jobs) sets graph.nodes) (s : State)
      → IsFinal
          (run_of default_limit world hook jobs graph)
          (precedes globset (map (λ rj. rj.job) jobs) sets)
          s
      → Reports (ok (summarise s))
  unfolding summarise verdict cached_exit outcome_of
  final_Reports sets graph made s final = (
    λ bad.
        some_failed (run_of default_limit world hook jobs graph) s.trace final.tells
          (ground (arith, final.failed_traced)),
    λ good i l. elim final.complete [
      | inl (_, failed) ↦ ground (arith, failed, good)
      | inr complete ↦
          verdict_of_settled (run_of default_limit world hook jobs graph) s.trace i final.tells
            (complete.all_settled i (
              omega (arith, l, nodes_length globset default_limit world hook jobs sets graph made)))
            (ground (arith, final.failed_traced))
    ],
    elim final.complete [
      | inl (fast, failed) ↦ inl (fast, ground arith)
      | inr complete ↦ inr (
        complete.all_counted ∙ nodes_length globset default_limit world hook jobs sets graph made,
        complete.skips_counted,
      )
    ],
  )

  end_Reports :
      (sets : List (Sets globset)) (graph : JobGraph)
      (made : IsGraphOf globset (map (λ rj. rj.job) jobs) sets graph.nodes)
      → (r : Result (Error globset X) RunSummary) × (run_graph globset default_limit world hook jobs
            (ok graph)
          ≡ some r)
        × Reports r
  unfolding run_graph summarise_end verdict cached_exit outcome_of
  end_Reports sets graph made =
      go (run_of-Ends globset default_limit world hook jobs sets graph made)
    where
      go :
          Ends
            (run_of default_limit world hook jobs graph)
            (precedes globset (map (λ rj. rj.job) jobs) sets)
            (run_of-IsRunnable globset default_limit world hook jobs sets graph made)
            (rounds
              (run_of default_limit world hook jobs graph)
              (fuel_for (length graph.nodes))
              (initial graph.nodes))
          → (r : Result (Error globset X) RunSummary) × (run_graph globset default_limit world hook
                jobs
                (ok graph)
              ≡ some r)
            × Reports r
      go (ok s, e, final) =
          (ok (summarise s), ap summarise_end e, final_Reports sets graph made s final)
      go (err x, e, told) = (err x, ap summarise_end e, told)

  -- `run_parallel` returns, whatever the jobs do and in whatever order their tasks end. It returns
  -- an error of the graph exactly if `build_dag` fails. An error of a job is that of some job by
  -- itself. A summary that is not ok has a job that fails by itself. In a summary that is ok no job
  -- fails. Unless `fail_fast` is set and a job failed, each job is counted once, as skipped if it
  -- has no plan and else as run: no job waits for ever.
  pub run_parallel-Reports :
      (r : Result (Error globset X) RunSummary) × (run_parallel globset default_limit world hook
          jobs
        ≡ some r)
      × (((e : DagError globset.Error) × (build_dag globset (map (λ rj. rj.job) jobs) ≡ err e)
            × (r ≡ err (RunError.dag e)))
          ⊎ ((graph : JobGraph) × (build_dag globset (map (λ rj. rj.job) jobs) ≡ ok graph)
              × Reports r))
  unfolding run_parallel
  run_parallel-Reports = go (build_dag globset (map (λ rj. rj.job) jobs)) refl
    where
      go :
          (d : Result (DagError globset.Error) JobGraph)
          → build_dag globset (map (λ rj. rj.job) jobs) ≡ d
          → (r : Result (Error globset X) RunSummary) × (run_graph globset default_limit world hook
                jobs d
              ≡ some r)
            × (((e : DagError globset.Error) × (build_dag globset (map (λ rj. rj.job) jobs) ≡ err e)
                  × (r ≡ err (RunError.dag e)))
                ⊎ ((graph : JobGraph) × (build_dag globset (map (λ rj. rj.job) jobs) ≡ ok graph)
                    × Reports r))
      go (err e) h = (err (RunError.dag e), unfold run_graph in refl, inl (e, h, refl))
      go (ok graph) h =
          let (sets, _, made) = build_dag-IsGraphOf globset (map (λ rj. rj.job) jobs) graph h in
          let (r, e, reports) = end_Reports sets graph made in (r, e, inr (graph, h, reports))

  -- The summary that the jobs' own verdicts give.
  abbrev pub summary_of : (ℕ → Bool) → RunSummary
  summary_of fails = record {
    ok = not (any_below (length jobs) fails);
    jobs_run = length jobs - jobs_without_plan jobs;
    jobs_skipped = jobs_without_plan jobs;
  }

  no_error :
      (fails : ℕ → Bool) (i : ℕ) (e : Error globset X)
      → ((i : ℕ) → i < length jobs → alone world jobs i ≡ ok (fails i))
      → ¬ (alone world jobs i ≡ err e)
  no_error fails i e verdicts h =
      let inside = alone_out world jobs i (err e) h (λ p. cc p) in
      let told = verdicts i inside in cc

  Reports-summary_of :
      (fails : ℕ → Bool) (r : Result (Error globset X) RunSummary)
      → ((i : ℕ) → i < length jobs → alone world jobs i ≡ ok (fails i))
      → (hook.fail_fast ≡ true → any_below (length jobs) fails ≡ false)
      → Reports r
      → r ≡ ok (summary_of fails)
  Reports-summary_of fails (err e) verdicts calm (i, told) =
      absurd (no_error fails i e verdicts told)
  Reports-summary_of fails (ok s) verdicts calm (bad, good, counted) =
      let told : s.ok ≡ not (any_below (length jobs) fails) = elim (Bool-cases s.ok) [
        | inl fine ↦
            let none_fails =
              any_below-false (length jobs) fails
                (λ i l. let v = verdicts i l in let g = good fine i l in cc) in
            ground (arith, none_fails, fine)
        | inr failed ↦
            let (i, g) = bad failed in
            let inside = alone_out world jobs i (ok true) g (λ p. cc p) in
            let v = verdicts i inside in
            ground (arith, any_below-true (length jobs) i fails inside (cc), failed)
      ] in
      elim counted [
        | inl (fast, failed) ↦ ground (arith, calm fast, told, failed)
        | inr (all_jobs, skips) ↦ ap ok (ground (arith, told, all_jobs, skips))
      ]

  -- Whatever the order in which tasks end, the summary of a run is what the jobs' own verdicts give:
  -- it is ok if no job fails, and each job counts once, as skipped if it has no plan and else as
  -- run. This holds where the graph is built, no job has an error, and no job fails if `fail_fast`
  -- is set.
  pub run_parallel-eq-summary_of :
      (fails : ℕ → Bool) (graph : JobGraph)
      → build_dag globset (map (λ rj. rj.job) jobs) ≡ ok graph
      → ((i : ℕ) → i < length jobs → alone world jobs i ≡ ok (fails i))
      → (hook.fail_fast ≡ true → any_below (length jobs) fails ≡ false)
      → run_parallel globset default_limit world hook jobs ≡ some (ok (summary_of fails))
  run_parallel-eq-summary_of fails graph built verdicts calm =
      let (r, e, cases) = run_parallel-Reports in
      elim cases [
        | inl (x, failed, _) ↦ cc
        | inr (g, _, reports) ↦ e ∙ ap some (Reports-summary_of fails r verdicts calm reports)
      ]

-- ===== src/Runner/Parallel/Reach.antt =====
-- What holds at every moment of a run: in each state that the scheduler goes through.
use betterhook.Base.{
  ◌+◌, ◌==◌, ◌⊎◌, ltb, bit, ℕ, ◌<◌, ◌≤◌, ◌≡◌, ◌≢◌, sym, List, ◌∷◌, map, Bool, true, false, ok,
  arith, Bool-cases, inl, inr, [], some, All, get_elem?, get_elem?-some, count, length, get_or_out,
}
use mathlib.Core.Path.{subst}
use betterhook.Globset.{Globset}
use betterhook.Config.Schema.{Job, Hook}
use betterhook.Runner.Plan.{ResolvedJob}
use betterhook.Runner.World.{World}
use betterhook.Runner.Dag.{DagNode, JobGraph, Sets, compile_sets, conflict_at, build_dag}
use betterhook.Runner.Dag.Edges.{IsGraphOf, precedes}
use betterhook.Runner.Dag.Connect.{parents_at}
use betterhook.Runner.Dag.Order.{build_dag-IsGraphOf, precedes_one}
use betterhook.Runner.Executor.{State, Run, more, step, initial, priority_of}
use betterhook.Runner.Executor.Trace.{IsOrdered, unsettled}
use betterhook.Runner.Executor.Release.{started_at, pending_at}
use betterhook.Runner.Executor.Heap.{ready_count}
use betterhook.Runner.Executor.Priority.{
  HasPriority, IsKeyed, initial-IsKeyed, step-IsKeyed, InPopOrder, IsHeap-InPopOrder,
}
use betterhook.Runner.Executor.Invariant.{Inv, ready_is_admissible}
use betterhook.Runner.Executor.Loop.{IsRunnable, RoundOk, step-RoundOk}
use betterhook.Runner.Executor.Start.{initial-Inv}
use betterhook.Runner.Parallel.{Error, run_of, parallel_limit}
use betterhook.Runner.Parallel.Correct.{run_of-IsRunnable}

-- The states of a run, from the initial one by rounds.
pub data Reached {E : Type 0} (run : Run E) : State → Type 0 where
  begin : (s : State) → s ≡ initial run.nodes → Reached run s
  round : (s s' : State) → Reached run s → step run s ≡ more s' → Reached run s'

-- The key is of a node that is there, has the priority of its job, and is of a job that has not been
-- started and whose parents have all settled.
abbrev pub IsReady : List DagNode → State → ℕ × ℕ → Type 0
IsReady nodes s (priority, i) =
    (node : DagNode) × (get_elem? nodes i ≡ some node)
    × (priority ≡ node.job.priority)
    × (started_at s i ≡ false)
    × (unsettled s.trace node.parents ≡ 0)

module _ {E : Type 0} (run : Run E) (precedes : ℕ → ℕ → Bool)
    (runnable : IsRunnable run precedes) where
  Reached-Inv : {s : State} → Reached run s → Inv run precedes s
  Reached-Inv (begin s e) = subst (Inv run precedes) (sym e) (initial-Inv run precedes)
  Reached-Inv (round s s' r e) =
      (subst (RoundOk run precedes runnable s) e
        (step-RoundOk run precedes runnable s (Reached-Inv r))).0

  Reached-IsKeyed : {s : State} → Reached run s → IsKeyed run.nodes s
  Reached-IsKeyed (begin s e) = subst (IsKeyed run.nodes) (sym e) (initial-IsKeyed run.nodes)
  Reached-IsKeyed (round s s' r e) = step-IsKeyed run s s' (Reached-IsKeyed r) e

  counted-IsReady :
      (s : State) (priority i : ℕ)
      → Inv run precedes s
      → 0 < ready_count i s.ready
      → priority ≡ priority_of run.nodes i
      → IsReady run.nodes s (priority, i)
  counted-IsReady s priority i good held keyed =
      let here : i < length run.nodes = ground (arith, held, good.balanced.in_range i) in
      let (node, found) = get_elem?-some run.nodes i here in
      let fresh : (started_at s i ≡ false) × (pending_at s i ≡ 0) =
        ground (arith, held, here, good.balanced.balance i) in
      let parents : parents_at run.nodes i ≡ node.parents = cc found in
      let settled : unsettled s.trace node.parents ≡ 0 =
        cc (parents, good.pending_unsettled i, fresh.1) in
      (node, found, cc (keyed, found), fresh.0, settled)

  counted_keys-IsReady :
      (s : State) (keys : List (ℕ × ℕ))
      → Inv run precedes s
      → ((i : ℕ) → ready_count i keys ≤ ready_count i s.ready)
      → All (HasPriority run.nodes) keys
      → All (IsReady run.nodes s) keys
  counted_keys-IsReady s [] good among keyed = tt
  counted_keys-IsReady s ((p, i) ∷ keys) good among (keyed, rest) = (
    counted-IsReady s p i good (ground (arith, among i)) keyed,
    counted_keys-IsReady s keys good (λ j. omega (arith, among j)) rest,
  )

  ready_once :
      (s : State) (i : ℕ)
      → Inv run precedes s
      → (length run.nodes ≤ i) × (ready_count i s.ready ≡ 0)
        ⊎ (bit (started_at s i) + ready_count i s.ready
            ≡ bit (unsettled s.trace (parents_at run.nodes i) == 0))
  ready_once s i good = elim (Bool-cases (ltb i (length run.nodes))) [
    | inl here ↦
        let inside : i < length run.nodes = ground (arith, here) in
        inr (cc (good.balanced.balance i inside, good.pending_unsettled i))
    | inr beyond ↦
        let outside : length run.nodes ≤ i = ground (arith, beyond) in
        inl (outside, good.balanced.in_range i outside)
  ]

  in_flight_settled :
      (s : State) (i j : ℕ)
      → Inv run precedes s
      → 0 < count j s.in_flight
      → precedes i j ≡ true
      → count i s.in_flight ≡ 0
  in_flight_settled s i j good flying h =
      let started = good.tally.started_split j in
      let here : j < length run.nodes =
        ground (arith, started, get_or_out false j s.started, good.balanced.started_length) in
      let clear : unsettled s.trace (parents_at run.nodes j) ≡ 0 =
        ground (arith, started, good.balanced.balance j here, good.pending_unsettled j) in
      ground
        (arith, ready_is_admissible runnable.links s.trace i j clear h, good.tally.started_split i)

module _ (globset : Globset) {X : Type 0} (default_limit : ℕ) (world : World (Error globset X))
    (hook : Hook) (jobs : List ResolvedJob) (graph : JobGraph) (s : State)
    (built : build_dag globset (map (λ rj. rj.job) jobs) ≡ ok graph)
    (reached : Reached (run_of default_limit world hook jobs graph) s) where
  abbrev job_list : List Job
  job_list = map (λ rj. rj.job) jobs

  abbrev this_run : Run (Error globset X)
  this_run = run_of default_limit world hook jobs graph

  runnable_with :
      (sets : List (Sets globset))
      → IsGraphOf globset job_list sets graph.nodes
      → IsRunnable this_run (precedes globset job_list sets)
  runnable_with sets made = run_of-IsRunnable globset default_limit world hook jobs sets graph made

  -- At every moment of a run, two different jobs in flight do not conflict: neither writes what the
  -- other reads or writes, as far as the probes tell, and they are not two network jobs of which
  -- one is not `concurrent_safe`.
  pub conflicts_never_overlap :
      (sets : List (Sets globset)) (i j : ℕ)
      → compile_sets globset job_list ≡ ok sets
      → i ≢ j
      → 0 < count i s.in_flight
      → 0 < count j s.in_flight
      → conflict_at globset job_list sets i j ≡ false
  conflicts_never_overlap sets i j compiled d fi fj =
      let (sets', compiled', made') = build_dag-IsGraphOf globset job_list graph built in
      let same : sets' ≡ sets = cc in
      let made =
        subst (λ (ss : List (Sets globset)). IsGraphOf globset job_list ss graph.nodes) same
          made' in
      let runnable = runnable_with sets made in
      let good = Reached-Inv this_run (precedes globset job_list sets) runnable reached in
      elim (Bool-cases (conflict_at globset job_list sets i j)) [
        | inl clash ↦
            let one = precedes_one globset job_list sets i j d clash in
            let apart = in_flight_settled this_run (precedes globset job_list sets) runnable s in
            ground (arith, one, apart i j good fj, apart j i good fi)
        | inr free ↦ free
      ]

  -- At every moment at most `parallel_limit` jobs are in flight, and no job is twice in flight.
  pub in_flight_limit :
      (length s.in_flight ≤ parallel_limit default_limit hook.parallel_limit)
      × ((i : ℕ) → count i s.in_flight ≤ 1)
  in_flight_limit =
      let (sets, _, made) = build_dag-IsGraphOf globset job_list graph built in
      let good = Reached-Inv this_run _ (runnable_with sets made) reached in
      (
        omega (arith, good.tally.running_length, good.tally.running_limit),
        λ i. ground (arith, good.tally.started_split i),
      )

  -- At every moment the heap is popped in ascending order of priority and then of index. Each key that
  -- it holds is the priority and the index of a node's job; none of these jobs has been started, and
  -- all their parents have settled. It holds each job that is like this exactly once, and no other.
  pub ready_is_sorted :
      InPopOrder s.ready
      × All (IsReady graph.nodes s) s.ready
      × ((i : ℕ)
          → (length graph.nodes ≤ i) × (ready_count i s.ready ≡ 0)
            ⊎ (bit (started_at s i) + ready_count i s.ready
                ≡ bit (unsettled s.trace (parents_at graph.nodes i) == 0)))
  ready_is_sorted =
      let (sets, _, made) = build_dag-IsGraphOf globset job_list graph built in
      let runnable = runnable_with sets made in
      let good = Reached-Inv this_run _ runnable reached in
      (
        IsHeap-InPopOrder s.ready good.balanced.is_heap,
        counted_keys-IsReady this_run _ runnable s s.ready good (λ i. omega arith)
            (Reached-IsKeyed this_run _ runnable reached),
        λ i. ready_once this_run _ runnable s i good,
      )

  -- At every moment, each job that has been admitted was admitted after all the jobs that are to
  -- run before it had settled.
  pub admitted_in_order :
      (sets : List (Sets globset))
      → compile_sets globset job_list ≡ ok sets
      → IsOrdered (precedes globset job_list sets) s.trace
  admitted_in_order sets compiled =
      let (sets', compiled', made') = build_dag-IsGraphOf globset job_list graph built in
      let same : sets' ≡ sets = cc in
      let made =
        subst (λ (ss : List (Sets globset)). IsGraphOf globset job_list ss graph.nodes) same
          made' in
      (Reached-Inv this_run _ (runnable_with sets made) reached).tally.ordered

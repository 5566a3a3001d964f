-- ===== src/Runner/Executor.antt =====
-- apps/betterhook/src/runner/executor.rs: `run_parallel` and `run_sequential`.
pub mod Job
pub mod Trace
pub mod Heap
pub mod Priority
pub mod Release
pub mod Invariant
pub mod Steps
pub mod Join
pub mod Complete
pub mod Loop
pub mod Start
use betterhook.Base.{
  ℕ, zero, suc, ◌+◌, ◌-◌, ◌*◌, ◌%◌, List, [], ◌∷◌, map, Bool, true, false, not, ◌&&◌, ◌||◌, Option,
  none, some, Result, ok, err, ltb, ◌==◌, if◌then◌else◌, length, get_elem?, get_or, erase_idx,
  modify,
}
use betterhook.Runner.Plan.{JobPlan, ResolvedJob}
use betterhook.Runner.World.{World}
use betterhook.Runner.Dag.{DagNode}
use betterhook.Runner.Dag.Connect.{children_at}
use betterhook.Runner.Executor.Job.{execute_job_in_dag}

-- What the scheduler did, kept newest first. A job is admitted by `start`, `skip` or `hit`, and
-- settled by `skip`, `hit` or `finish`: from then on its children need not wait for it.
pub data Transition : Type 0 where
  start skip : ℕ → Transition
  hit finish : ℕ → (failed : Bool) → Transition

-- The local variables of `run_parallel`. `ready` is the heap, in the order in which it is popped;
-- `trace` is not in the code.
pub record State : Type 0 where
  pub pending : List ℕ
  pub started : List Bool
  pub ready : List (ℕ × ℕ)
  pub in_flight : List ℕ
  pub running : ℕ
  pub failed : Bool
  pub cancelled : Bool
  pub jobs_run : ℕ
  pub jobs_skipped : ℕ
  pub trace : List Transition

-- The order of `(priority, index)`.
abbrev pub key_ltb : ℕ × ℕ → ℕ × ℕ → Bool
key_ltb (p, i) (q, j) = ltb p q || (p == q && ltb i j)

-- `ready.push(Reverse(key))`
unfoldable pub heap_push : ℕ × ℕ → List (ℕ × ℕ) → List (ℕ × ℕ)
heap_push key [] = key ∷ []
heap_push key (k ∷ heap) =
    let rest = heap_push key heap in if key_ltb key k then key ∷ k ∷ heap else k ∷ rest

abbrev pub priority_of : List DagNode → ℕ → ℕ
priority_of nodes i = elim (get_elem? nodes i) [ none ↦ 0 | some n ↦ n.job.priority ]

unfoldable pub release_child : List DagNode → ℕ → State → State
release_child nodes child s =
    let left = get_or 0 s.pending child in
    if left == 0
    then s
    else let s' = record s { pending = modify (λ n. n - 1) child s.pending } in
      if not (left - 1 == 0)
      then s'
      else if get_or false s.started child
      then s'
      else record s' { ready = heap_push (priority_of nodes child, child) s.ready }

unfoldable pub release_each : List DagNode → List ℕ → State → State
release_each nodes [] s = s
release_each nodes (child ∷ children) s = release_each nodes children (release_child nodes child s)

unfoldable pub release_children : List DagNode → ℕ → State → State
release_children nodes idx = release_each nodes (children_at nodes idx)

-- How one round of the scheduler ends.
pub data Control (E : Type 0) : Type 0 where
  more done : State → Control E
  fail : E → Control E

-- The task in flight that is joined next, one of those there are.
unfoldable pub joined_place : List ℕ → ℕ → ℕ
joined_place in_flight pick = pick % length in_flight

pub record Run (E : Type 0) : Type 0 where
  pub nodes : List DagNode
  pub jobs : List ResolvedJob
  pub limit : ℕ
  pub fail_fast : Bool
  pub world : World E

module _ {E : Type 0} (run : Run E) where
  open run use {nodes, jobs, limit, fail_fast, world}

  -- The result of the spawned task of job `idx`.
  unfoldable pub outcome_of : ℕ → Result E Bool
  outcome_of idx = elim (get_elem? jobs idx) [
    | none ↦ ok false
    | some rj ↦ elim rj.plan [
      | none ↦ ok false
      | some plan ↦ execute_job_in_dag world idx rj.job plan
    ]
  ]

  -- The entry that a job may replay: only `concurrent_safe` jobs are looked up.
  unfoldable pub cached_exit : ResolvedJob → ℕ → Option ℕ
  cached_exit rj idx = if rj.job.concurrent_safe then world.cached idx else none

  unfoldable pub skip_job : ℕ → State → State
  skip_job idx s =
      release_children nodes idx
        (record s { jobs_skipped = s.jobs_skipped + 1; trace = skip idx ∷ s.trace })

  unfoldable pub replay_job : ℕ → ℕ → State → State
  replay_job idx exit s =
      let bad = not (exit == 0) in
      release_children nodes idx (record s {
        failed = s.failed || bad;
        cancelled = s.cancelled || (bad && fail_fast);
        jobs_run = s.jobs_run + 1;
        trace = hit idx bad ∷ s.trace;
      })

  unfoldable pub spawn_job : ℕ → State → State
  spawn_job idx s = record s {
    running = s.running + 1;
    in_flight = idx ∷ s.in_flight;
    trace = start idx ∷ s.trace;
  }

  -- A cached result is replayed; without one the job is spawned.
  unfoldable pub replay_or_spawn : Option ℕ → ℕ → State → State
  replay_or_spawn (some exit) idx s = replay_job idx exit s
  replay_or_spawn none idx s = spawn_job idx s

  unfoldable pub launch_plan : Option JobPlan → Option ℕ → ℕ → State → State
  launch_plan none cached idx s = skip_job idx s
  launch_plan (some plan) cached idx s = replay_or_spawn cached idx s

  -- The body of the inner loop for a job that is popped and not yet started.
  unfoldable pub launch : ResolvedJob → ℕ → State → State
  launch rj idx s = launch_plan rj.plan (cached_exit rj idx) idx s

  unfoldable pub admit : ℕ → State → State
  admit idx s = if get_or false s.started idx then s else elim (get_elem? jobs idx) [
    | none ↦ s
    | some rj ↦ launch rj idx (record s { started = modify (λ _. true) idx s.started })
  ]

  -- The rest of the outer loop's body once task `idx`, at `place` among those in flight, is joined.
  unfoldable pub settle : ℕ → ℕ → Bool → State → Control E
  settle place idx failed s =
      let s' = record s {
        running = s.running - 1;
        in_flight = erase_idx s.in_flight place;
        jobs_run = s.jobs_run + 1;
        failed = s.failed || failed;
        trace = finish idx failed ∷ s.trace;
      } in
      if failed && fail_fast
      then done (record s' { cancelled = true; in_flight = [] })
      else more (release_children nodes idx s')

  -- `let outcome = outcome_res?`
  unfoldable pub settle_result : ℕ → ℕ → Result E Bool → State → Control E
  settle_result place idx (err e) s = fail e
  settle_result place idx (ok failed) s = settle place idx failed s

  -- `if set.is_empty() { break; }`, and else `set.join_next()`.
  unfoldable pub join_from : List ℕ → State → Control E
  join_from [] s = done s
  join_from (_ ∷ _) s =
      let place = joined_place s.in_flight (world.joins s.in_flight) in
      let idx = get_or 0 s.in_flight place in settle_result place idx (outcome_of idx) s

  unfoldable pub join_next : State → Control E
  join_next s = join_from s.in_flight s

  -- `ready.pop()`: the inner loop's body for a job that is ready, and else the rest of the outer
  -- loop's body.
  unfoldable pub pop_from : List (ℕ × ℕ) → State → Control E
  pop_from [] s = join_next s
  pop_from ((_, idx) ∷ rest) s = more (admit idx (record s { ready = rest }))

  -- One round of the nested loops: the inner one goes on while `running < limit`.
  unfoldable pub step : State → Control E
  step s = if ltb s.running limit then pop_from s.ready s else join_next s

  unfoldable pub after_round :
      (State → Option (Result E State)) → Control E → Option (Result E State)
  after_round rest (more s) = rest s
  after_round rest (done s) = some (ok s)
  after_round rest (fail e) = some (err e)

  -- The nested loops on fuel; `none` means that the fuel ran out.
  unfoldable pub rounds : ℕ → State → Option (Result E State)
  rounds zero s = none
  rounds (suc fuel) s = after_round (rounds fuel) (step s)

-- `ready` at the start: the nodes with no parents.
unfoldable pub push_roots : ℕ → List DagNode → List (ℕ × ℕ) → List (ℕ × ℕ)
push_roots idx [] heap = heap
push_roots idx (n ∷ nodes) heap =
    push_roots (suc idx) nodes
      (if length n.parents == 0 then heap_push (n.job.priority, idx) heap else heap)

unfoldable pub initial : List DagNode → State
initial nodes = record {
  pending = map (λ n. length n.parents) nodes;
  started = map (λ _. false) nodes;
  ready = push_roots 0 nodes [];
  in_flight = [];
  running = 0;
  failed = false;
  cancelled = false;
  jobs_run = 0;
  jobs_skipped = 0;
  trace = [];
}

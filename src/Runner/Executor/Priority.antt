-- ===== src/Runner/Executor/Priority.antt =====
-- The keys in the heap of ready jobs: each has the priority of its job, and they are in the order in
-- which they are popped.
use betterhook.Base.{
  ℕ, suc, ◌+◌, ◌≤◌, ◌<◌, ◌≡◌, refl, ap, ◌∙◌, ◌⊎◌, inl, inr, List, [], ◌∷◌, Bool, false, ◌&&◌,
  Option, none, some, Result, ok, err, arith, All, Bool-cases, ltb, ◌==◌, if◌then◌else◌, get_or,
  get_elem?, length,
}
use mathlib.Core.Path.{subst}
use betterhook.Runner.Plan.{JobPlan, ResolvedJob}
use betterhook.Runner.Dag.{DagNode}
use betterhook.Runner.Dag.Connect.{children_at}
use betterhook.Runner.Executor.{
  State, Run, Control, more, done, fail, heap_push, priority_of, release_child, release_each,
  release_children, skip_job, replay_job, replay_or_spawn, spawn_job, launch_plan, launch, admit,
  settle, settle_result, join_from, join_next, joined_place, outcome_of, cached_exit, pop_from,
  step, push_roots, initial,
}
use betterhook.Runner.Executor.Heap.{IsBelow, IsHeap}

-- A smaller priority comes first, and of the same priority the smaller index.
abbrev pub ComesBefore : ℕ × ℕ → ℕ × ℕ → Type 0
ComesBefore (p, i) (q, j) = (p < q) ⊎ (p ≡ q) × (i ≤ j)

abbrev pub InPopOrder : List (ℕ × ℕ) → Type 0
InPopOrder [] = Unit
InPopOrder (key ∷ keys) = All (ComesBefore key) keys × InPopOrder keys

IsBelow-All : (key : ℕ × ℕ) (heap : List (ℕ × ℕ)) → IsBelow key heap → All (ComesBefore key) heap
IsBelow-All key [] b = tt
IsBelow-All (p, i) ((q, j) ∷ heap) (b, bs) = (before, IsBelow-All (p, i) heap bs)
  where
    before : ComesBefore (p, i) (q, j)
    before = elim (Bool-cases (ltb p q)) [
      | inl less ↦ inl (ground (arith, less))
      | inr not_less ↦ inr (ground (arith, not_less, b), ground (arith, not_less, b))
    ]

pub IsHeap-InPopOrder : (heap : List (ℕ × ℕ)) → IsHeap heap → InPopOrder heap
IsHeap-InPopOrder [] h = tt
IsHeap-InPopOrder (key ∷ heap) (b, h) = (IsBelow-All key heap b, IsHeap-InPopOrder heap h)

heap_push-All :
    (P : ℕ × ℕ → Type 0) (key : ℕ × ℕ) (heap : List (ℕ × ℕ))
    → P key
    → All P heap
    → All P (heap_push key heap)
unfolding heap_push
heap_push-All P key [] p h = (p, tt)
heap_push-All P key (k ∷ heap) p (q, h) =
    let rest = heap_push-All P key heap p h in ground (arith, p, q, h, rest)

module _ (nodes : List DagNode) where
  abbrev pub HasPriority : ℕ × ℕ → Type 0
  HasPriority key = key.0 ≡ priority_of nodes key.1

  -- The keys in the heap have the priorities of their jobs.
  abbrev pub IsKeyed : State → Type 0
  IsKeyed s = All HasPriority s.ready

  release_child-IsKeyed : (c : ℕ) (s : State) → IsKeyed s → IsKeyed (release_child nodes c s)
  unfolding release_child
  release_child-IsKeyed c s h =
      let pushed = heap_push-All HasPriority (priority_of nodes c, c) s.ready refl h in
      ground (arith, h, pushed)

  release_each-IsKeyed : (cs : List ℕ) (s : State) → IsKeyed s → IsKeyed (release_each nodes cs s)
  unfolding release_each
  release_each-IsKeyed [] s h = h
  release_each-IsKeyed (c ∷ cs) s h =
      release_each-IsKeyed cs (release_child nodes c s) (release_child-IsKeyed c s h)

  release_children-IsKeyed :
      (idx : ℕ) (s : State) → IsKeyed s → IsKeyed (release_children nodes idx s)
  unfolding release_children
  release_children-IsKeyed idx s h = release_each-IsKeyed (children_at nodes idx) s h

  push_roots-IsKeyed :
      (idx : ℕ) (rest : List DagNode) (heap : List (ℕ × ℕ))
      → ((k : ℕ) → get_elem? nodes (idx + k) ≡ get_elem? rest k)
      → All HasPriority heap
      → All HasPriority (push_roots idx rest heap)
  unfolding push_roots
  push_roots-IsKeyed idx [] heap at h = h
  push_roots-IsKeyed idx (n ∷ rest) heap at h =
      let here : idx ≡ idx + 0 = omega arith in
      let found : get_elem? nodes idx ≡ some n = ap (get_elem? nodes) here ∙ at 0 in
      let pushed = heap_push-All HasPriority (n.job.priority, idx) heap (ground (arith, found)) h in
      push_roots-IsKeyed (suc idx) rest
        (if length n.parents == 0 then heap_push (n.job.priority, idx) heap else heap)
        (λ k.
          let next : suc idx + k ≡ idx + suc k = omega arith in
          ap (get_elem? nodes) next ∙ at (suc k))
        (ground (arith, h, pushed))

  pub initial-IsKeyed : IsKeyed (initial nodes)
  unfolding initial
  initial-IsKeyed = push_roots-IsKeyed 0 nodes [] (λ k. ap (get_elem? nodes) (omega arith)) tt

module _ {E : Type 0} (run : Run E) where
  launch_plan-IsKeyed :
      (p : Option JobPlan) (cached : Option ℕ) (idx : ℕ) (s : State)
      → IsKeyed run.nodes s
      → IsKeyed run.nodes (launch_plan run p cached idx s)
  unfolding launch_plan replay_or_spawn skip_job replay_job spawn_job
  launch_plan-IsKeyed none cached idx s h = release_children-IsKeyed run.nodes idx _ h
  launch_plan-IsKeyed (some plan) (some exit) idx s h = release_children-IsKeyed run.nodes idx _ h
  launch_plan-IsKeyed (some plan) none idx s h = h

  launch_found-IsKeyed :
      (o : Option ResolvedJob) (idx : ℕ) (s t : State)
      → IsKeyed run.nodes s
      → IsKeyed run.nodes t
      → IsKeyed run.nodes (elim o [ none ↦ s | some rj ↦ launch run rj idx t ])
  unfolding launch
  launch_found-IsKeyed none idx s t h k = h
  launch_found-IsKeyed (some rj) idx s t h k =
      launch_plan-IsKeyed rj.plan (cached_exit run rj idx) idx t k

  admit-IsKeyed : (idx : ℕ) (s : State) → IsKeyed run.nodes s → IsKeyed run.nodes (admit run idx s)
  unfolding admit
  admit-IsKeyed idx s h = elim (Bool-cases (get_or false s.started idx)) [
    | inl e ↦ rw e h
    | inr e ↦ rw e (launch_found-IsKeyed (get_elem? run.jobs idx) idx s _ h h)
  ]

  -- Where a round goes on, the keys are still right.
  GoesOnKeyed : Control E → Type 0
  GoesOnKeyed (more s) = IsKeyed run.nodes s
  GoesOnKeyed (done s) = Unit
  GoesOnKeyed (fail e) = Unit

  settle_result-GoesOnKeyed :
      (place idx : ℕ) (r : Result E Bool) (s : State)
      → IsKeyed run.nodes s
      → GoesOnKeyed (settle_result run place idx r s)
  unfolding settle_result settle GoesOnKeyed
  settle_result-GoesOnKeyed place idx (err e) s h = tt
  settle_result-GoesOnKeyed place idx (ok failed) s h =
      elim (Bool-cases (failed && run.fail_fast)) [
        | inl e ↦ rw e tt
        | inr e ↦ rw e (release_children-IsKeyed run.nodes idx _ h)
      ]

  join_from-GoesOnKeyed :
      (in_flight : List ℕ) (s : State)
      → IsKeyed run.nodes s
      → GoesOnKeyed (join_from run in_flight s)
  unfolding join_from GoesOnKeyed
  join_from-GoesOnKeyed [] s h = tt
  join_from-GoesOnKeyed (i ∷ in_flight) s h =
      let place = joined_place s.in_flight (run.world.joins s.in_flight) in
      let idx = get_or 0 s.in_flight place in
      settle_result-GoesOnKeyed place idx (outcome_of run idx) s h

  pop_from-GoesOnKeyed :
      (heap : List (ℕ × ℕ)) (s : State)
      → All (HasPriority run.nodes) heap
      → IsKeyed run.nodes s
      → GoesOnKeyed (pop_from run heap s)
  unfolding pop_from join_next GoesOnKeyed
  pop_from-GoesOnKeyed [] s k h = join_from-GoesOnKeyed s.in_flight s h
  pop_from-GoesOnKeyed ((p, idx) ∷ rest) s (k, ks) h =
      admit-IsKeyed idx (record s { ready = rest }) ks

  step-GoesOnKeyed : (s : State) → IsKeyed run.nodes s → GoesOnKeyed (step run s)
  unfolding step join_next
  step-GoesOnKeyed s h = elim (Bool-cases (ltb s.running run.limit)) [
    | inl e ↦ rw e (pop_from-GoesOnKeyed s.ready s h h)
    | inr e ↦ rw e (join_from-GoesOnKeyed s.in_flight s h)
  ]

  pub step-IsKeyed :
      (s s' : State) → IsKeyed run.nodes s → step run s ≡ more s' → IsKeyed run.nodes s'
  unfolding GoesOnKeyed
  step-IsKeyed s s' h e = subst GoesOnKeyed e (step-GoesOnKeyed s h)

-- ===== src/Runner/Executor/Steps.antt =====
-- A job that is popped and launched keeps the invariant, and brings the end nearer.
use betterhook.Base.{
  ℕ, ◌+◌, ◌<◌, ◌≤◌, ◌≡◌, refl, sym, ap, ◌∙◌, List, ◌∷◌, Bool, true, false, not, ◌||◌, arith, bit,
  Option, none, some, ◌==◌, length, length-modify, get_or, get_or-modify, get_or_out, get_elem?,
  get_elem?-some, modify, count, count_true, count_true-modify,
}
use mathlib.Core.Path.{subst}
use betterhook.Runner.Plan.{JobPlan, ResolvedJob}
use betterhook.Runner.Dag.Connect.{parents_at}
use betterhook.Runner.Executor.{
  State, Transition, start, skip, hit, Run, release_children, skip_job, replay_job, spawn_job,
  replay_or_spawn, launch_plan, launch, cached_exit, admit,
}
use betterhook.Runner.Executor.Trace.{settles, admits, is_settled, IsOrdered, unsettled-start}
use betterhook.Runner.Executor.Heap.{ready_count, IsHeap}
use betterhook.Runner.Executor.Release.{pending_at, started_at, IsBalanced, IsBalanced-same}
use betterhook.Runner.Executor.Invariant.{
  Links, Tally, Inv, verdict, has_no_plan, count_skipped, count_skipped-modify, Tally-IsFrame,
  ready_is_admissible, release_children-Released,
}

-- `idx` is popped from the heap, and marked as started.
abbrev pub pop_mark : List (ℕ × ℕ) → ℕ → State → State
pop_mark rest idx s = record s { ready = rest; started = modify (λ _. true) idx s.started }

module _ {E : Type 0} (run : Run E) (precedes : ℕ → ℕ → Bool) (links : Links run.nodes precedes)
    (jobs_length : length run.jobs ≡ length run.nodes) where
  open run use {nodes, jobs, limit, fail_fast, world}

  abbrev pub Good : State → Type 0
  Good = Inv run precedes

  -- The popped job `idx` with what is known of it.
  module _ (pri idx : ℕ) (rest : List (ℕ × ℕ)) (s : State) (good : Good s)
      (popped : s.ready ≡ (pri, idx) ∷ rest) where
    ready_pos : 0 < ready_count idx s.ready
    ready_pos = rw popped (ground arith)

    popped_in_range : idx < length nodes
    popped_in_range = ground (arith, ready_pos, good.balanced.in_range idx)

    pub popped_fresh : (started_at s idx ≡ false) × (pending_at s idx ≡ 0)
    popped_fresh = ground (arith, ready_pos, popped_in_range, good.balanced.balance idx)

    popped_unsettled : is_settled s.trace idx ≡ false
    popped_unsettled = ground (arith, popped_fresh, good.tally.started_split idx)

    popped_admissible : (p : ℕ) → precedes p idx ≡ true → is_settled s.trace p ≡ true
    popped_admissible p e =
        ready_is_admissible links s.trace p idx
          (ground (arith, popped_fresh, good.pending_unsettled idx)) e

    started-pop_mark :
        (i : ℕ) → bit (started_at (pop_mark rest idx s) i) ≡ bit (started_at s i) + bit (idx == i)
    started-pop_mark i = ground (
      arith,
      popped_fresh,
      popped_in_range,
      good.balanced.started_length,
      get_or-modify false (λ _. true) idx i s.started,
      get_or_out false i s.started,
      get_or_out false i (modify (λ _. true) idx s.started),
      length-modify (λ (_ : Bool). true) idx s.started,
    )

    ready_split : (i : ℕ) → ready_count i s.ready ≡ bit (idx == i) + ready_count i rest
    ready_split i = ap (ready_count i) popped

    pop_mark-IsBalanced : IsBalanced (length nodes) (pop_mark rest idx s)
    pop_mark-IsBalanced = record {
      pending_length = good.balanced.pending_length;
      started_length = length-modify (λ _. true) idx s.started ∙ good.balanced.started_length;
      balance = λ i l.
          ground
            (arith, started-pop_mark i, ready_split i, good.balanced.balance i l, popped_fresh);
      in_range = λ i l. omega (arith, ready_split i, good.balanced.in_range i l);
      is_heap = (subst IsHeap popped good.balanced.is_heap).1;
    }

    count_true-pop_mark : count_true (pop_mark rest idx s).started ≡ count_true s.started + 1
    count_true-pop_mark =
        count_true-modify idx s.started
          (omega (arith, popped_in_range, good.balanced.started_length)) popped_fresh.0

    -- A transition that admits `idx` may follow.
    admission-IsOrdered :
        (t : Transition) → ((j : ℕ) → admits t j ≡ (idx == j)) → IsOrdered precedes (t ∷ s.trace)
    admission-IsOrdered t at =
        (λ p c a e. popped_admissible p (ground (arith, at c, a, e)), good.tally.ordered)

    settled_split :
        (t : Transition) (i : ℕ)
        → settles t i ≡ (idx == i)
        → bit (started_at (pop_mark rest idx s) i)
          ≡ count i s.in_flight + bit (is_settled (t ∷ s.trace) i)
    settled_split t i at =
        ground (arith, started-pop_mark i, good.tally.started_split i, popped_unsettled, at)

    skips-pop_mark :
        (rj : ResolvedJob)
        → get_elem? jobs idx ≡ some rj
        → count_skipped (pop_mark rest idx s).started jobs
          ≡ count_skipped s.started jobs + bit (has_no_plan rj)
    skips-pop_mark rj found =
        count_skipped-modify idx s.started jobs rj
          (omega (arith, popped_in_range, good.balanced.started_length)) popped_fresh.0 found

    -- The entry that `idx` is counted by, with its plan and what the cache holds.
    module _ (rj : ResolvedJob) (found : get_elem? jobs idx ≡ some rj) where
      skip_Tally :
          rj.plan ≡ none
          → Tally run precedes (record (pop_mark rest idx s) {
            jobs_skipped = s.jobs_skipped + 1;
            trace = skip idx ∷ s.trace;
          })
      unfolding verdict
      skip_Tally planless = record {
        started_split = λ i. settled_split (skip idx) i refl;
        running_length = good.tally.running_length;
        running_limit = good.tally.running_limit;
        jobs_counted = omega (arith, count_true-pop_mark, good.tally.jobs_counted);
        failed_traced = good.tally.failed_traced;
        ordered = admission-IsOrdered (skip idx) (λ j. refl);
        tells = (ground (arith, found, planless), good.tally.tells);
        spawned = good.tally.spawned;
        skips_counted = ground (arith, skips-pop_mark rj found, planless, good.tally.skips_counted);
      }

      replay_Tally :
          (plan : JobPlan) (exit : ℕ) (c : Bool)
          → rj.plan ≡ some plan
          → cached_exit run rj idx ≡ some exit
          → Tally run precedes (record (pop_mark rest idx s) {
            failed = s.failed || not (exit == 0);
            cancelled = c;
            jobs_run = s.jobs_run + 1;
            trace = hit idx (not (exit == 0)) ∷ s.trace;
          })
      unfolding verdict
      replay_Tally plan exit c planned cached = record {
        started_split = λ i. settled_split (hit idx (not (exit == 0))) i refl;
        running_length = good.tally.running_length;
        running_limit = good.tally.running_limit;
        jobs_counted = omega (arith, count_true-pop_mark, good.tally.jobs_counted);
        failed_traced = ground (arith, good.tally.failed_traced);
        ordered = admission-IsOrdered (hit idx (not (exit == 0))) (λ j. refl);
        tells = (ground (arith, found, planned, cached), good.tally.tells);
        spawned = good.tally.spawned;
        skips_counted = ground (arith, skips-pop_mark rj found, planned, good.tally.skips_counted);
      }

      spawn_Tally :
          (plan : JobPlan)
          → rj.plan ≡ some plan
          → cached_exit run rj idx ≡ none
          → s.running < limit
          → Tally run precedes (spawn_job run idx (pop_mark rest idx s))
      unfolding spawn_job verdict
      spawn_Tally plan planned uncached room = record {
        started_split = λ i. ground (arith, started-pop_mark i, good.tally.started_split i);
        running_length = omega (arith, good.tally.running_length);
        running_limit = omega arith;
        jobs_counted = omega (arith, count_true-pop_mark, good.tally.jobs_counted);
        failed_traced = good.tally.failed_traced;
        ordered = admission-IsOrdered (start idx) (λ j. refl);
        tells = (tt, good.tally.tells);
        spawned = λ i h. ground (arith, found, planned, uncached, good.tally.spawned i);
        skips_counted = ground (arith, skips-pop_mark rj found, planned, good.tally.skips_counted);
      }

    -- What a launch does: the invariant holds, and one more job is started.
    abbrev pub Launched : State → Type 0
    Launched s' =
        Good s'
        × (count_true s'.started ≡ count_true s.started + 1)
        × (length s'.in_flight ≤ length s.in_flight + 1)

    release_Launched :
        (t : Transition) (s' : State)
        → ((j : ℕ) → settles t j ≡ (idx == j))
        → s'.trace ≡ t ∷ s.trace
        → IsBalanced (length nodes) s'
        → s'.pending ≡ s.pending
        → s'.started ≡ (pop_mark rest idx s).started
        → s'.in_flight ≡ s.in_flight
        → Tally run precedes s'
        → Launched (release_children nodes idx s')
    release_Launched t s' at e b same marked flying tally =
        let (frame, b', pending) =
          release_children-Released links t s.trace idx s' at popped_unsettled e b
            (λ c. ap (λ (l : List ℕ). get_or 0 l c) same ∙ good.pending_unsettled c) in
        (
          record { balanced = b'; pending_unsettled = pending; tally = Tally-IsFrame frame tally },
          ap count_true (frame.started ∙ marked) ∙ count_true-pop_mark,
          omega (arith, ap length (frame.in_flight ∙ flying)),
        )

    marked-IsBalanced :
        (s' : State)
        → s'.pending ≡ s.pending
        → s'.started ≡ (pop_mark rest idx s).started
        → s'.ready ≡ rest
        → IsBalanced (length nodes) s'
    marked-IsBalanced s' p q r = IsBalanced-same s' p q r pop_mark-IsBalanced

    module _ (rj : ResolvedJob) (found : get_elem? jobs idx ≡ some rj) where
      skip-Launched : rj.plan ≡ none → Launched (skip_job run idx (pop_mark rest idx s))
      unfolding skip_job
      skip-Launched planless =
          release_Launched (skip idx) _ (λ j. refl) refl (marked-IsBalanced _ refl refl refl) refl
            refl refl (skip_Tally rj found planless)

      replay-Launched :
          (plan : JobPlan) (exit : ℕ)
          → rj.plan ≡ some plan
          → cached_exit run rj idx ≡ some exit
          → Launched (replay_job run idx exit (pop_mark rest idx s))
      unfolding replay_job
      replay-Launched plan exit planned cached =
          release_Launched (hit idx (not (exit == 0))) _ (λ j. refl) refl
            (marked-IsBalanced _ refl refl refl) refl refl refl
            (replay_Tally rj found plan exit _ planned cached)

      spawn-Launched :
          (plan : JobPlan)
          → rj.plan ≡ some plan
          → cached_exit run rj idx ≡ none
          → s.running < limit
          → Launched (spawn_job run idx (pop_mark rest idx s))
      unfolding spawn_job
      spawn-Launched plan planned uncached room = (
        record {
          balanced = marked-IsBalanced _ refl refl refl;
          pending_unsettled = λ c.
              good.pending_unsettled c ∙ sym (unsettled-start idx s.trace (parents_at nodes c));
          tally = spawn_Tally rj found plan planned uncached room;
        },
        count_true-pop_mark,
        omega arith,
      )

      launch_plan-Launched :
          (plan : Option JobPlan) (cached : Option ℕ)
          → rj.plan ≡ plan
          → cached_exit run rj idx ≡ cached
          → s.running < limit
          → Launched (launch_plan run plan cached idx (pop_mark rest idx s))
      unfolding launch_plan replay_or_spawn
      launch_plan-Launched none cached p c room = skip-Launched p
      launch_plan-Launched (some plan) (some exit) p c room = replay-Launched plan exit p c
      launch_plan-Launched (some plan) none p c room = spawn-Launched plan p c room

    -- A job that is popped has not been started and has a plan or none to launch.
    pub admit-Launched : s.running < limit → Launched (admit run idx (record s { ready = rest }))
    unfolding admit launch
    admit-Launched room =
        let (rj, e) = get_elem?-some jobs idx (omega (arith, popped_in_range, jobs_length)) in
        rw (popped_fresh.0, e, admit)
          (launch_plan-Launched rj e rj.plan (cached_exit run rj idx) refl refl room)

-- ===== src/Runner/Executor/Invariant.antt =====
-- The invariant of the scheduler's state.
use betterhook.Base.{
  Option, none, some, Result, ok, get_elem?, ◌&&◌, ℕ, zero, suc, ◌+◌, ◌<◌, ◌≤◌, ◌≡◌, sym, ap, ◌∙◌,
  List, [], ◌∷◌, Bool, true, false, not, arith, bit, ◌==◌, length, get_or, modify, count,
  count_true,
}
use betterhook.Runner.Dag.{DagNode}
use betterhook.Runner.Dag.Connect.{children_at, parents_at}
use betterhook.Runner.Plan.{JobPlan, ResolvedJob}
use betterhook.Runner.Executor.{
  State, Transition, start, skip, hit, finish, Run, cached_exit, outcome_of, release_children,
}
use betterhook.Runner.Executor.Trace.{
  settles, is_settled, any_failed, IsOrdered, unsettled, unsettled-settle, settled_of_unsettled,
}
use betterhook.Runner.Executor.Release.{
  pending_at, started_at, IsBalanced, IsFrame, release_each-Released,
}

-- The nodes link each job to those that `precedes` says, once, in both directions.
pub record Links (nodes : List DagNode) (precedes : ℕ → ℕ → Bool) : Type 0 where
  pub children : (p c : ℕ) → count c (children_at nodes p) ≡ bit (precedes p c)
  pub parents : (p c : ℕ) → count p (parents_at nodes c) ≡ bit (precedes p c)

-- What becomes of job `i` whatever the others do: a skipped job does not fail, a cached one fails
-- as its entry says, and any other as its run says.
verdict_of : {E : Type 0} → Option JobPlan → Option ℕ → Result E Bool → Result E Bool
verdict_of none cached outcome = ok false
verdict_of (some plan) (some exit) outcome = ok (not (exit == 0))
verdict_of (some plan) none outcome = outcome

module _ {E : Type 0} (run : Run E) where
  unfoldable pub verdict : ℕ → Result E Bool
  unfolding verdict_of
  verdict i = elim (get_elem? run.jobs i) [
    | none ↦ ok false
    | some rj ↦ verdict_of rj.plan (cached_exit run rj i) (outcome_of run i)
  ]

  -- What the trace says of a job is its verdict.
  abbrev pub TellsVerdict : Transition → Type 0
  TellsVerdict (start i) = Unit
  TellsVerdict (skip i) = verdict i ≡ ok false
  TellsVerdict (hit i failed) = verdict i ≡ ok failed
  TellsVerdict (finish i failed) = verdict i ≡ ok failed

  abbrev pub TellsVerdicts : List Transition → Type 0
  TellsVerdicts [] = Unit
  TellsVerdicts (t ∷ trace) = TellsVerdict t × TellsVerdicts trace

abbrev pub has_no_plan : ResolvedJob → Bool
has_no_plan rj = elim rj.plan [ none ↦ true | some plan ↦ false ]

-- How many of the started jobs have no plan.
abbrev pub count_skipped : List Bool → List ResolvedJob → ℕ
count_skipped [] jobs = 0
count_skipped (b ∷ bs) [] = 0
count_skipped (b ∷ bs) (rj ∷ jobs) = bit (b && has_no_plan rj) + count_skipped bs jobs

pub count_skipped-modify :
    (i : ℕ) (bs : List Bool) (jobs : List ResolvedJob) (rj : ResolvedJob)
    → i < length bs
    → get_or false bs i ≡ false
    → get_elem? jobs i ≡ some rj
    → count_skipped (modify (λ _. true) i bs) jobs ≡ count_skipped bs jobs + bit (has_no_plan rj)
count_skipped-modify i [] jobs rj l h e = absurd (omega arith)
count_skipped-modify i (b ∷ bs) [] rj l h e = cc
count_skipped-modify zero (b ∷ bs) (j ∷ jobs) rj l h e = ground arith
count_skipped-modify (suc i) (b ∷ bs) (j ∷ jobs) rj l h e =
    ground (arith, count_skipped-modify i bs jobs rj)

-- The part that speaks of neither the pending counts nor the heap.
pub record Tally {E : Type 0} (run : Run E) (precedes : ℕ → ℕ → Bool) (s : State) : Type 0 where
  pub started_split :
      (i : ℕ) → bit (started_at s i) ≡ count i s.in_flight + bit (is_settled s.trace i)
  pub running_length : s.running ≡ length s.in_flight
  pub running_limit : s.running ≤ run.limit
  pub jobs_counted : s.jobs_run + s.jobs_skipped + length s.in_flight ≡ count_true s.started
  pub failed_traced : s.failed ≡ any_failed s.trace
  pub ordered : IsOrdered precedes s.trace
  pub tells : TellsVerdicts run s.trace
  pub spawned : (i : ℕ) → 0 < count i s.in_flight → verdict run i ≡ outcome_of run i
  pub skips_counted : s.jobs_skipped ≡ count_skipped s.started run.jobs

pub record Inv {E : Type 0} (run : Run E) (precedes : ℕ → ℕ → Bool) (s : State) : Type 0 where
  pub balanced : IsBalanced (length run.nodes) s
  pub pending_unsettled : (c : ℕ) → pending_at s c ≡ unsettled s.trace (parents_at run.nodes c)
  pub tally : Tally run precedes s

pub Tally-IsFrame :
    {E : Type 0} {run : Run E} {precedes : ℕ → ℕ → Bool} {s s' : State}
    → IsFrame s s'
    → Tally run precedes s
    → Tally run precedes s'
Tally-IsFrame {run = run} f t = record {
  started_split = λ i. cc (f.started, f.in_flight, f.trace, t.started_split i);
  running_length = cc (f.running, f.in_flight, t.running_length);
  running_limit = rw f.running t.running_limit;
  jobs_counted = cc (f.jobs_run, f.jobs_skipped, f.in_flight, f.started, t.jobs_counted);
  failed_traced = cc (f.failed, f.trace, t.failed_traced);
  ordered = rw f.trace t.ordered;
  tells = rw f.trace t.tells;
  spawned = λ i h. t.spawned i (rw f.in_flight at h);
  skips_counted = cc (f.jobs_skipped, f.started, t.skips_counted);
}

module _ {nodes : List DagNode} {precedes : ℕ → ℕ → Bool} (links : Links nodes precedes) where
  -- A job with no pending parent may be admitted: all that precedes it has settled.
  pub ready_is_admissible :
      (trace : List Transition) (p c : ℕ)
      → unsettled trace (parents_at nodes c) ≡ 0
      → precedes p c ≡ true
      → is_settled trace p ≡ true
  ready_is_admissible trace p c h e =
      settled_of_unsettled trace (parents_at nodes c) p h (ground (arith, links.parents p c))

  -- A transition settles `idx` for the first time, and then its children are released.
  pub release_children-Released :
      (t : Transition) (trace : List Transition) (idx : ℕ) (s : State)
      → ((j : ℕ) → settles t j ≡ (idx == j))
      → is_settled trace idx ≡ false
      → s.trace ≡ t ∷ trace
      → IsBalanced (length nodes) s
      → ((c : ℕ) → pending_at s c ≡ unsettled trace (parents_at nodes c))
      → IsFrame s (release_children nodes idx s)
        × IsBalanced (length nodes) (release_children nodes idx s)
        × ((c : ℕ)
            → pending_at (release_children nodes idx s) c
              ≡ unsettled (release_children nodes idx s).trace (parents_at nodes c))
  unfolding release_children
  release_children-Released t trace idx s at fresh e b pending =
      let falls = λ (c : ℕ). unsettled-settle t trace idx (parents_at nodes c) at fresh in
      let r =
        release_each-Released nodes (length nodes) (children_at nodes idx) s
          (λ c. omega (arith, pending c, falls c, links.parents idx c, links.children idx c)) b in
      (
        r.frame,
        r.balanced,
        λ c.
            let now : pending_at (release_children nodes idx s) c
                ≡ unsettled (t ∷ trace) (parents_at nodes c) =
              omega (
                arith,
                r.pending c,
                pending c,
                falls c,
                links.parents idx c,
                links.children idx c,
              ) in
            now
            ∙ ap (λ (l : List Transition). unsettled l (parents_at nodes c))
                (sym (r.frame.trace ∙ e)),
      )

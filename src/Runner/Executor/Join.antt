-- ===== src/Runner/Executor/Join.antt =====
-- A task that is joined keeps the invariant, and brings the end nearer.
use betterhook.Base.{
  ℕ, ◌+◌, ◌-◌, ◌<◌, ◌≡◌, refl, ap, ◌∙◌, ◌∷◌, Bool, false, ◌||◌, arith, bit, ok, ◌==◌, length,
  get_or, erase_idx, count, count-erase_idx, length-erase_idx,
}
use betterhook.Runner.Executor.{State, finish, Run, release_children, outcome_of}
use betterhook.Runner.Executor.Trace.{is_settled}
use betterhook.Runner.Executor.Release.{IsBalanced-same}
use betterhook.Runner.Executor.Invariant.{
  Links, Tally, Inv, Tally-IsFrame, release_children-Released,
}

module _ {E : Type 0} (run : Run E) (precedes : ℕ → ℕ → Bool) (links : Links run.nodes precedes)
    (jobs_length : length run.jobs ≡ length run.nodes) where
  open run use {nodes, jobs, limit, fail_fast, world}

  abbrev Good : State → Type 0
  Good = Inv run precedes

  -- The task at `place` among those in flight is joined.
  module _ (place : ℕ) (s : State) (good : Good s) (there : place < length s.in_flight)
      (job_failed : Bool) (told : outcome_of run (get_or 0 s.in_flight place) ≡ ok job_failed) where
    abbrev pub joined : ℕ
    joined = get_or 0 s.in_flight place

    abbrev pub after_join : State
    after_join = record s {
      running = s.running - 1;
      in_flight = erase_idx s.in_flight place;
      jobs_run = s.jobs_run + 1;
      failed = s.failed || job_failed;
      trace = finish joined job_failed ∷ s.trace;
    }

    erased :
        (i : ℕ) → count i (erase_idx s.in_flight place) + bit (joined == i) ≡ count i s.in_flight
    erased i = count-erase_idx i place s.in_flight there

    joined_unsettled : is_settled s.trace joined ≡ false
    joined_unsettled = ground (arith, erased joined, good.tally.started_split joined)

    pub after_join-Tally : Tally run precedes after_join
    after_join-Tally = record {
      started_split = λ i. ground (arith, erased i, good.tally.started_split i, joined_unsettled);
      running_length =
          omega (arith, good.tally.running_length, length-erase_idx place s.in_flight there);
      running_limit = omega (arith, good.tally.running_limit);
      jobs_counted =
          omega (arith, good.tally.jobs_counted, length-erase_idx place s.in_flight there);
      failed_traced = ground (arith, good.tally.failed_traced);
      ordered = (λ p c a e. cc, good.tally.ordered);
      tells = (good.tally.spawned joined (ground (arith, erased joined)) ∙ told, good.tally.tells);
      spawned = λ i h. good.tally.spawned i (omega (arith, erased i));
      skips_counted = good.tally.skips_counted;
    }

    -- One task fewer is in flight, and no job is started.
    pub after_join-Good :
        Good (release_children nodes joined after_join)
        × ((release_children nodes joined after_join).started ≡ s.started)
        × (length (release_children nodes joined after_join).in_flight + 1 ≡ length s.in_flight)
    after_join-Good =
        let (frame, b', pending) =
          release_children-Released links (finish joined job_failed) s.trace joined after_join
            (λ j. refl) joined_unsettled refl
            (IsBalanced-same after_join refl refl refl good.balanced) good.pending_unsettled in
        (
          record {
            balanced = b';
            pending_unsettled = pending;
            tally = Tally-IsFrame frame after_join-Tally;
          },
          frame.started,
          omega (arith, ap length frame.in_flight, length-erase_idx place s.in_flight there),
        )

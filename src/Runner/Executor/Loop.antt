-- ===== src/Runner/Executor/Loop.antt =====
-- The scheduler ends, and what holds when it has ended.
use betterhook.Base.{
  ℕ, zero, suc, ◌+◌, ◌-◌, ◌*◌, ◌<◌, ◌≡◌, refl, ap, ◌∙◌, ◌⊎◌, inl, inr, List, [], ◌∷◌, Bool, true,
  ◌&&◌, arith, Bool-cases, Option, some, Result, ok, err, ltb, ltb→lt, ltb-eq_false, length, get_or,
  count_true, count_true-le, count-erase_idx,
}
use betterhook.Runner.Executor.{
  State, Control, more, done, fail, Run, admit, settle, settle_result, join_from, join_next,
  joined_place, pop_from, outcome_of, step, rounds, after_round,
}
use betterhook.Runner.Executor.Trace.{any_failed, IsOrdered}
use betterhook.Runner.Executor.Invariant.{Links, Inv, verdict, TellsVerdicts}
use betterhook.Runner.Executor.Steps.{admit-Launched}
use betterhook.Runner.Executor.Join.{after_join-Good, after_join-Tally}
use betterhook.Runner.Executor.Complete.{
  IsRanked, IsComplete, all_settled, all_counted, all_skips_counted,
}

-- What a run needs to be scheduled: the nodes link the jobs as `precedes` says, which is ranked and
-- in range, there is a job for each node, and a task may run.
pub record IsRunnable {E : Type 0} (run : Run E) (precedes : ℕ → ℕ → Bool) : Type 0 where
  pub links : Links run.nodes precedes
  pub jobs_length : length run.jobs ≡ length run.nodes
  pub priority : ℕ → ℕ
  pub ranked : IsRanked priority precedes
  pub in_range : (p c : ℕ) → precedes p c ≡ true → p < length run.nodes
  pub limit_pos : 0 < run.limit

-- The state when the loop has ended without an error.
pub record IsFinal {E : Type 0} (run : Run E) (precedes : ℕ → ℕ → Bool) (s : State) : Type 0 where
  pub ordered : IsOrdered precedes s.trace
  pub failed_traced : s.failed ≡ any_failed s.trace
  pub tells : TellsVerdicts run s.trace
  pub idle : s.in_flight ≡ []
  pub complete : (run.fail_fast ≡ true) × (s.failed ≡ true) ⊎ IsComplete run s

module _ {E : Type 0} (run : Run E) (precedes : ℕ → ℕ → Bool)
    (runnable : IsRunnable run precedes) where
  open run use {nodes, jobs, limit, fail_fast, world}
  open runnable use {links, jobs_length, priority, ranked, in_range, limit_pos}

  abbrev pub Good : State → Type 0
  Good = Inv run precedes

  abbrev pub measure : State → ℕ
  measure s = 2 * (length nodes - count_true s.started) + length s.in_flight

  -- A round keeps the invariant and lowers the measure, or ends the loop well, or passes on the
  -- error of a task in flight.
  abbrev pub RoundOk : State → Control E → Type 0
  RoundOk s (more s') = Good s' × (measure s' < measure s)
  RoundOk s (done s') = IsFinal run precedes s'
  RoundOk s (fail e) = (i : ℕ) × (verdict run i ≡ err e)

  settle-RoundOk :
      (place : ℕ) (s : State) (good : Good s) (there : place < length s.in_flight)
      (job_failed : Bool)
      → outcome_of run (get_or 0 s.in_flight place) ≡ ok job_failed
      → RoundOk s (settle run place (get_or 0 s.in_flight place) job_failed s)
  unfolding settle
  settle-RoundOk place s good there job_failed told = elim (Bool-cases (job_failed && fail_fast)) [
    | inl stop ↦
        let tally =
          after_join-Tally run precedes links jobs_length place s good there job_failed told in
        rw (stop, settle)
          (record {
            ordered = tally.ordered;
            failed_traced = tally.failed_traced;
            tells = tally.tells;
            idle = refl;
            complete = inl (ground arith, ground arith);
          })
    | inr go ↦
        let (good', same, fewer) =
          after_join-Good run precedes links jobs_length place s good there job_failed told in
        rw (go, settle) (good', omega (arith, ap count_true same))
  ]

  joined_place-lt : (l : List ℕ) (pick : ℕ) → 0 < length l → joined_place l pick < length l
  unfolding joined_place
  joined_place-lt l pick h = grind arith

  settle_result-RoundOk :
      (place : ℕ) (s : State)
      → Good s
      → place < length s.in_flight
      → (r : Result E Bool) → outcome_of run (get_or 0 s.in_flight place) ≡ r
      → RoundOk s (settle_result run place (get_or 0 s.in_flight place) r s)
  unfolding settle_result
  settle_result-RoundOk place s good there (ok job_failed) h =
      settle-RoundOk place s good there job_failed h
  settle_result-RoundOk place s good there (err e) h =
      let idx = get_or 0 s.in_flight place in
      (
        idx,
        good.tally.spawned idx (ground (arith, count-erase_idx idx place s.in_flight there)) ∙ h,
      )

  join_from-RoundOk :
      (l : List ℕ) (s : State)
      → Good s
      → s.in_flight ≡ l
      → (s.in_flight ≡ [] → s.ready ≡ [])
      → RoundOk s (join_from run l s)
  unfolding join_from
  join_from-RoundOk [] s good e drained =
      let empty = drained e in
      record {
        ordered = good.tally.ordered;
        failed_traced = good.tally.failed_traced;
        tells = good.tally.tells;
        idle = e;
        complete = inr (record {
          all_settled = all_settled links good e empty priority ranked in_range;
          all_counted = all_counted links good e empty priority ranked in_range;
          skips_counted = all_skips_counted links good e empty priority ranked in_range jobs_length;
        });
      }
  join_from-RoundOk (i ∷ l) s good e drained =
      let some_there : 0 < length s.in_flight = omega (arith, ap length e) in
      let there = joined_place-lt s.in_flight (world.joins s.in_flight) some_there in
      settle_result-RoundOk (joined_place s.in_flight (world.joins s.in_flight)) s good there _ refl

  join_next-RoundOk :
      (s : State) → Good s → (s.in_flight ≡ [] → s.ready ≡ []) → RoundOk s (join_next run s)
  unfolding join_next
  join_next-RoundOk s good drained = join_from-RoundOk s.in_flight s good refl drained

  pop_from-RoundOk :
      (l : List (ℕ × ℕ)) (s : State)
      → Good s
      → s.ready ≡ l
      → s.running < limit
      → RoundOk s (pop_from run l s)
  unfolding pop_from
  pop_from-RoundOk [] s good e room = join_next-RoundOk s good (λ _. e)
  pop_from-RoundOk ((pri, idx) ∷ rest) s good e room =
      let (good', one, flying) =
        admit-Launched run precedes links jobs_length pri idx rest s good e room in
      (
        good',
        omega (
          arith,
          one,
          flying,
          count_true-le (admit run idx (record s { ready = rest })).started,
          good'.balanced.started_length,
        ),
      )

  pub step-RoundOk : (s : State) → Good s → RoundOk s (step run s)
  unfolding step
  step-RoundOk s good = elim (Bool-cases (ltb s.running limit)) [
    | inl room ↦ rw (room, step) (pop_from-RoundOk s.ready s good refl (ltb→lt _ _ room))
    | inr full ↦
        rw (full, step)
          (join_next-RoundOk s good (λ e. absurd (
            omega
              (arith, ltb-eq_false _ _ full, good.tally.running_length, ap length e, limit_pos))))
  ]

  -- What the loop returns: the state at its end, or the error of a task.
  abbrev pub EndOk : Result E State → Type 0
  EndOk (ok s) = IsFinal run precedes s
  EndOk (err e) = (i : ℕ) × (verdict run i ≡ err e)

  -- A loop that ends, and ends well.
  abbrev pub Ends : Option (Result E State) → Type 0
  Ends o = (r : Result E State) × (o ≡ some r) × EndOk r

  after_round-Ends :
      (rest : State → Option (Result E State)) (s : State) (c : Control E)
      → RoundOk s c
      → ((s' : State) → Good s' → measure s' < measure s → Ends (rest s'))
      → Ends (after_round run rest c)
  unfolding after_round
  after_round-Ends rest s (more s') (good, lower) ends = ends s' good lower
  after_round-Ends rest s (done s') final ends = (ok s', refl, final)
  after_round-Ends rest s (fail e) told ends = (err e, refl, told)

  -- With fuel above the measure the loop ends.
  pub rounds-Ends : (fuel : ℕ) (s : State) → Good s → measure s < fuel → Ends (rounds run fuel s)
  unfolding rounds
  rounds-Ends zero s good enough = absurd (omega arith)
  rounds-Ends (suc fuel) s good enough =
      after_round-Ends (rounds run fuel) s (step run s) (step-RoundOk s good)
        (λ s' good' lower. rounds-Ends fuel s' good' (omega arith))

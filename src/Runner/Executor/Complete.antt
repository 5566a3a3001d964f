-- ===== src/Runner/Executor/Complete.antt =====
-- With nothing ready and nothing in flight, every job has settled and been counted.
use betterhook.Base.{
  ℕ, zero, suc, ◌+◌, ◌<◌, ◌≡◌, refl, ap, ◌∙◌, ◌⊎◌, inl, inr, List, [], ◌∷◌, Bool, true, false,
  arith, bit, length, get_or, count_true_all,
}
use native.Mathlib.Decide.{dec_lt}
use betterhook.Runner.Plan.{ResolvedJob}
use betterhook.Runner.Dag.Connect.{parents_at}
use betterhook.Runner.Executor.{State, Run}
use betterhook.Runner.Executor.Trace.{is_settled, unsettled_of_settled}
use betterhook.Runner.Executor.Release.{started_at}
use betterhook.Runner.Executor.Invariant.{Links, Inv, has_no_plan, count_skipped}

-- How many jobs have no plan.
unfoldable pub jobs_without_plan : List ResolvedJob → ℕ
jobs_without_plan [] = 0
jobs_without_plan (rj ∷ jobs) = bit (has_no_plan rj) + jobs_without_plan jobs

count_skipped_all :
    (bs : List Bool) (jobs : List ResolvedJob)
    → length bs ≡ length jobs
    → ((i : ℕ) → i < length bs → get_or false bs i ≡ true)
    → count_skipped bs jobs ≡ jobs_without_plan jobs
unfolding jobs_without_plan
count_skipped_all [] [] e h = refl
count_skipped_all [] (rj ∷ jobs) e h = absurd (omega arith)
count_skipped_all (b ∷ bs) [] e h = absurd (omega arith)
count_skipped_all (b ∷ bs) (rj ∷ jobs) e h =
    let rest = count_skipped_all bs jobs (omega arith) (λ i l. h (suc i) (omega arith)) in
    ground (arith, h zero (omega arith))

-- `precedes` goes up in the order of priority and index.
abbrev pub IsRanked : (ℕ → ℕ) → (ℕ → ℕ → Bool) → Type 0
IsRanked priority precedes =
    (p c : ℕ)
    → precedes p c ≡ true
    → (priority p < priority c) ⊎ (priority p ≡ priority c) × (p < c)

module _ {E : Type 0} {run : Run E} {precedes : ℕ → ℕ → Bool} {s : State}
    (links : Links run.nodes precedes) (good : Inv run precedes s) (idle : s.in_flight ≡ [])
    (drained : s.ready ≡ []) where
  open run use {nodes}

  -- With nothing ready and nothing in flight, a job has settled if all that precede it have.
  settled_of_parents :
      (i : ℕ)
      → i < length nodes
      → ((p : ℕ) → precedes p i ≡ true → is_settled s.trace p ≡ true)
      → is_settled s.trace i ≡ true
  settled_of_parents i l all =
      let clear =
        unsettled_of_settled s.trace (parents_at nodes i)
          (λ p h. all p (ground (arith, links.parents p i))) in
      ground (
        arith,
        clear,
        good.pending_unsettled i,
        good.balanced.balance i l,
        good.tally.started_split i,
      )

  module _ (priority : ℕ → ℕ) (ranked : IsRanked priority precedes)
      (in_range : (p c : ℕ) → precedes p c ≡ true → p < length nodes) where
    abbrev SettledBelow : ℕ → Type 0
    SettledBelow k = (i : ℕ) → i < length nodes → priority i < k → is_settled s.trace i ≡ true

    -- Among the jobs of one priority, by the index.
    settled_at :
        (k : ℕ)
        → SettledBelow k
        → (m i : ℕ) → i < length nodes
        → priority i ≡ k
        → i < m
        → is_settled s.trace i ≡ true
    settled_at k below zero i l e h = absurd (omega arith)
    settled_at k below (suc m) i l e h = settled_of_parents i l λ p q. elim (ranked p i q) [
      | inl lower ↦ below p (in_range p i q) (omega arith)
      | inr (same, before) ↦ settled_at k below m p (in_range p i q) (omega arith) (omega arith)
    ]

    settled_below : (k : ℕ) → SettledBelow k
    settled_below zero i l h = absurd (omega arith)
    settled_below (suc k) i l h = elim (dec_lt (priority i) k) [
      | yes lower ↦ settled_below k i l lower
      | no same ↦ settled_at k (settled_below k) (suc i) i l (omega arith) (omega arith)
    ]

    pub all_settled : (i : ℕ) → i < length nodes → is_settled s.trace i ≡ true
    all_settled i l = settled_below (suc (priority i)) i l (omega arith)

    all_started : (i : ℕ) → i < length s.started → started_at s i ≡ true
    all_started i l =
        let l' : i < length nodes = omega (arith, good.balanced.started_length) in
        ground (arith, all_settled i l', good.tally.started_split i)

    pub all_counted : s.jobs_run + s.jobs_skipped ≡ length nodes
    all_counted = omega (
      arith,
      count_true_all s.started all_started,
      good.balanced.started_length,
      good.tally.jobs_counted,
      ap length idle,
    )

    pub all_skips_counted :
        length run.jobs ≡ length nodes → s.jobs_skipped ≡ jobs_without_plan run.jobs
    all_skips_counted jobs_length =
        good.tally.skips_counted
        ∙ count_skipped_all s.started run.jobs
            (omega (arith, jobs_length, good.balanced.started_length)) all_started

-- Every job has settled, and each was counted once: as skipped if it has no plan, and else as run.
pub record IsComplete {E : Type 0} (run : Run E) (s : State) : Type 0 where
  pub all_settled : (i : ℕ) → i < length run.nodes → is_settled s.trace i ≡ true
  pub all_counted : s.jobs_run + s.jobs_skipped ≡ length run.nodes
  pub skips_counted : s.jobs_skipped ≡ jobs_without_plan run.jobs

-- ===== src/Runner/Sequential/Agree.antt =====
-- The two schedulers agree.
use betterhook.Base.{
  ℕ, zero, suc, ◌+◌, ◌-◌, ◌<◌, ◌≤◌, ◌≡◌, refl, sym, ap, ◌∙◌, String, List, [], ◌∷◌, map, Bool, true,
  false, not, ◌&&◌, ◌||◌, Option, none, some, Result, ok, err, ◌>>=◌, >>=-eq-ok, ◌==◌, bit, arith,
  get_elem?, get_elem?-some, length, Bool-cases, inl, inr, if◌then◌else◌,
}
use mathlib.Core.Path.{subst}
use betterhook.Globset.{Globset}
use betterhook.Config.Schema.{Job, Hook}
use betterhook.Runner.Plan.{JobPlan, ResolvedJob}
use betterhook.Runner.World.{World}
use betterhook.Runner.Summary.{RunSummary}
use betterhook.Runner.Dag.{JobGraph, build_dag}
use betterhook.Runner.Executor.{cached_exit, outcome_of}
use betterhook.Runner.Executor.Job.{
  snapshot_unstaged_if_needed, run_commands, stage_if_needed, execute_job_in_dag,
}
use betterhook.Runner.Executor.Invariant.{verdict}
use betterhook.Runner.Executor.Complete.{jobs_without_plan}
use betterhook.Runner.Parallel.{Error, run_parallel}
use betterhook.Runner.Parallel.Verdicts.{alone, any_below}
use betterhook.Runner.Parallel.Correct.{run_parallel-eq-summary_of}
use betterhook.Runner.Sequential.{
  run_all, execute_job, after_job, run_job, run_from, run_sequential,
}

-- Whether a test passes at one of `n` numbers from `start` on.
abbrev any_from : ℕ → ℕ → (ℕ → Bool) → Bool
any_from start zero f = false
any_from start (suc n) f = f start || any_from (suc start) n f

any_below-add :
    (start n : ℕ) (f : ℕ → Bool)
    → any_below (start + n) f ≡ (any_below start f || any_from start n f)
any_below-add start zero f =
    let same : any_below (start + 0) f ≡ any_below start f =
      ap (λ k. any_below k f) (omega arith) in
    ground (arith, same)
any_below-add start (suc n) f =
    let shift : any_below (suc start + n) f ≡ any_below (start + suc n) f =
      ap (λ k. any_below k f) (omega arith) in
    ground (arith, shift, any_below-add (suc start) n f)

module _ {E : Type 0} (world : World E) (fail_fast : Bool) where
  -- What the sequential loop makes of the job at an index, by its plan.
  abbrev pub outcome_by : ℕ → Job → Option JobPlan → Result E Bool
  outcome_by idx job none = ok false
  outcome_by idx job (some plan) = execute_job world fail_fast idx job plan

  failed_command :
      (rest : Result E Bool) (b : Bool)
      → (if fail_fast then ok true else rest >>= λ failed. ok true) ≡ ok b
      → b ≡ true
  failed_command (ok c) b h = ground arith
  failed_command (err e) b h = ground arith

  run_all-run_commands :
      (idx k : ℕ) (cmds : List String) (b : Bool)
      → run_all world fail_fast idx k cmds ≡ ok b
      → run_commands world idx k cmds ≡ ok b
  unfolding run_all run_commands
  run_all-run_commands idx k [] b h = h
  run_all-run_commands idx k (cmd ∷ cmds) b h =
      let (exit, e, h1) = >>=-eq-ok (world.run_command idx k cmd) _ h in
      let rest = run_all world fail_fast idx (suc k) cmds in
      let Goes = λ (fine : Bool).
        (if fine then rest else if fail_fast then ok true else rest >>= λ failed. ok true) ≡ ok b in
      elim (Bool-cases (exit == 0)) [
        | inl fine ↦ rw (e, fine) (run_all-run_commands idx (suc k) cmds b (subst Goes fine h1))
        | inr bad ↦ rw (e, bad) (ap ok (sym (failed_command rest b (subst Goes bad h1))))
      ]

  execute_job-execute_job_in_dag :
      (idx : ℕ) (job : Job) (plan : JobPlan) (b : Bool)
      → execute_job world fail_fast idx job plan ≡ ok b
      → execute_job_in_dag world idx job plan ≡ ok b
  unfolding execute_job execute_job_in_dag
  execute_job-execute_job_in_dag idx job plan b h =
      let (before, e, h1) = >>=-eq-ok (snapshot_unstaged_if_needed world idx job) _ h in
      let (failed, f, h2) = >>=-eq-ok (run_all world fail_fast idx 0 plan.commands) _ h1 in
      let (done, g, h3) = >>=-eq-ok (stage_if_needed world idx before) _ h2 in
      rw (e, run_all-run_commands idx 0 plan.commands failed f, g) h3

  abbrev no_plan : Option JobPlan → Bool
  no_plan plan = elim plan [ none ↦ true | some p ↦ false ]

  -- What `n` jobs with `w` among them without a plan, of which one fails or not, add to a summary.
  abbrev plus : RunSummary → Bool → ℕ → ℕ → RunSummary
  plus s failed n w = record {
    ok = s.ok && not failed;
    jobs_run = s.jobs_run + (n - w);
    jobs_skipped = s.jobs_skipped + w;
  }

  run_job-eq :
      (rest : RunSummary → Result E RunSummary) (n w : ℕ) (any : Bool)
      → w ≤ n
      → ((s : RunSummary) → rest s ≡ ok (plus s any n w))
      → (plan : Option JobPlan) (idx : ℕ) (job : Job) (s : RunSummary) (failed : Bool)
      → outcome_by idx job plan ≡ ok failed
      → (fail_fast ≡ true → failed ≡ false)
      → run_job world fail_fast rest plan idx job s
        ≡ ok (plus s (failed || any) (suc n) (bit (no_plan plan) + w))
  unfolding run_job after_job
  run_job-eq rest n w any few told none idx job s failed out calm =
      told (record s { jobs_skipped = s.jobs_skipped + 1 }) ∙ ap ok (ground arith)
  run_job-eq rest n w any few told (some plan) idx job s failed out calm =
      elim (Bool-cases (failed && fail_fast)) [
        | inl stop ↦ absurd (ground arith)
        | inr go ↦
            rw (out, go)
              (told (record s { ok = s.ok && not failed; jobs_run = s.jobs_run + 1 })
                ∙ ap ok (ground arith))
      ]

  jobs_without_plan-le : (jobs : List ResolvedJob) → jobs_without_plan jobs ≤ length jobs
  unfolding jobs_without_plan
  jobs_without_plan-le [] = omega arith
  jobs_without_plan-le (rj ∷ jobs) = ground (arith, jobs_without_plan-le jobs)

  -- The loop from `idx` on, where each job has an outcome and none fails under `fail_fast`.
  run_from-eq :
      (idx : ℕ) (jobs : List ResolvedJob) (fails : ℕ → Bool) (s : RunSummary)
      → ((k : ℕ) (rj : ResolvedJob)
          → get_elem? jobs k ≡ some rj
          → outcome_by (idx + k) rj.job rj.plan ≡ ok (fails (idx + k)))
      → (fail_fast ≡ true → any_from idx (length jobs) fails ≡ false)
      → run_from world fail_fast idx jobs s
        ≡ ok (plus s (any_from idx (length jobs) fails) (length jobs) (jobs_without_plan jobs))
  unfolding run_from jobs_without_plan
  run_from-eq idx [] fails s told calm = ap ok (ground arith)
  run_from-eq idx (rj ∷ jobs) fails s told calm =
      let shift : (k : ℕ) → idx + suc k ≡ suc idx + k = λ k. omega arith in
      let start : idx + 0 ≡ idx = omega arith in
      run_job-eq (run_from world fail_fast (suc idx) jobs) (length jobs) (jobs_without_plan jobs)
        (any_from (suc idx) (length jobs) fails) (jobs_without_plan-le jobs)
        (λ s'.
          run_from-eq (suc idx) jobs fails s'
            (λ k r e.
              subst (λ i. outcome_by i r.job r.plan ≡ ok (fails i)) (shift k) (told (suc k) r e))
            (λ f. ground (arith, calm f)))
        rj.plan idx rj.job s (fails idx)
        (subst (λ i. outcome_by i rj.job rj.plan ≡ ok (fails i)) start (told 0 rj refl))
        (λ f. ground (arith, calm f))

-- What the sequential loop makes of each job.
abbrev pub FailsAs : {E : Type 0} → World E → Bool → List ResolvedJob → (ℕ → Bool) → Type 0
FailsAs world fail_fast jobs fails =
    (i : ℕ) (rj : ResolvedJob)
    → get_elem? jobs i ≡ some rj
    → outcome_by world fail_fast i rj.job rj.plan ≡ ok (fails i)

module _ {E : Type 0} (world : World E) (fail_fast : Bool) (jobs : List ResolvedJob)
    (uncached : (i : ℕ) → world.cached i ≡ none) where
  alone_by :
      (i : ℕ) (rj : ResolvedJob) (b : Bool)
      → get_elem? jobs i ≡ some rj
      → (plan : Option JobPlan) → rj.plan ≡ plan
      → outcome_by world fail_fast i rj.job plan ≡ ok b
      → alone world jobs i ≡ ok b
  unfolding verdict cached_exit outcome_of
  alone_by i rj b found none planned told = ground (arith, found, planned, told)
  alone_by i rj b found (some plan) planned told = ground (
    arith,
    found,
    planned,
    uncached i,
    execute_job-execute_job_in_dag world fail_fast i rj.job plan b told,
  )

  alone-FailsAs :
      (fails : ℕ → Bool)
      → FailsAs world fail_fast jobs fails
      → (i : ℕ) → i < length jobs
      → alone world jobs i ≡ ok (fails i)
  alone-FailsAs fails told i l =
      let (rj, found) = get_elem?-some jobs i l in
      alone_by i rj (fails i) found rj.plan refl (told i rj found)

-- The two schedulers agree: where the graph is built, nothing is cached, each job by itself comes to
-- an outcome in the sequential loop, and none fails if `fail_fast` is set, `run_parallel` returns
-- what `run_sequential` returns, whatever the order in which its tasks end.
pub run_parallel-eq-run_sequential :
    (globset : Globset) {X : Type 0} (default_limit : ℕ) (world : World (Error globset X))
    (hook : Hook) (jobs : List ResolvedJob) (graph : JobGraph) (fails : ℕ → Bool)
    → build_dag globset (map (λ rj. rj.job) jobs) ≡ ok graph
    → ((i : ℕ) → world.cached i ≡ none)
    → FailsAs world hook.fail_fast jobs fails
    → (hook.fail_fast ≡ true → any_below (length jobs) fails ≡ false)
    → run_parallel globset default_limit world hook jobs
      ≡ some (run_sequential world hook.fail_fast jobs)
unfolding run_sequential
run_parallel-eq-run_sequential globset default_limit world hook jobs graph fails built uncached told
      calm =
    let sum : any_below (length jobs) fails ≡ any_from 0 (length jobs) fails =
      ap (λ k. any_below k fails) (omega arith) ∙ any_below-add 0 (length jobs) fails in
    let sequential =
      run_from-eq world hook.fail_fast 0 jobs fails
        (record { ok = true; jobs_run = 0; jobs_skipped = 0 })
        (λ k rj e.
          subst (λ i. outcome_by world hook.fail_fast i rj.job rj.plan ≡ ok (fails i)) (omega arith)
            (told k rj e))
        (λ f. sym sum ∙ calm f) in
    run_parallel-eq-summary_of globset default_limit world hook jobs fails graph built
      (alone-FailsAs world hook.fail_fast jobs uncached fails told) calm
    ∙ ap some (ap ok (ground (arith, sum)) ∙ sym sequential)

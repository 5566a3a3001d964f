-- ===== src/Runner/Hook/Counts.antt =====
-- What a report counts (runner/executor.rs, `run_hook_with_options`).
use betterhook.Base.{
  ℕ, suc, ◌+◌, ◌≤◌, List, [], ◌∷◌, map, Bool, true, false, not, ◌&&◌, Option, none, some, Result,
  ok, err, ◌≡◌, refl, sym, ap, ◌⊎◌, inl, inr, arith, length, Bool-cases, >>=-eq-ok,
}
use mathlib.Core.Path.{subst}
use betterhook.Base.Actions.{pure, ◌>>=◌, ◌>>◌, and_then, and_then-eq-ok, pure-eq-ok}
use betterhook.Globset.{Globset}
use betterhook.Config.Schema.{FilePath, Job, Hook}
use betterhook.Git.RevParse.{Git, GitError, git_common_dir}
use betterhook.Git.Stash.{StashGuard}
use betterhook.Runner.Plan.{JobPlan, ResolvedJob, HookError, from_git, resolve_job_plan}
use betterhook.Runner.World.{World}
use betterhook.Runner.Summary.{RunSummary}
use betterhook.Runner.Parallel.Correct.{run_parallel-Reports, Reports}
use betterhook.Runner.Sequential.{execute_job, after_job, run_job, run_from, run_sequential}
use betterhook.Runner.Hook.Filters.{Lets, unfiltered, unfiltered-Lets}
use betterhook.Runner.Hook.{
  RunOptions, is_filtered, ExecutionReport, Resolved, Surroundings, add_job, add_filtered,
  push_if_needed, lock_if_needed, resolve_jobs, run_jobs, report_of, pop_stash, finish, execute,
  prepare, run_hook_with_options,
}

module _ {E : Type 0} (world : World E) (fail_fast : Bool) where
  -- Either each of `n` jobs has been counted, or the run broke off after a failure.
  Counted : ℕ → RunSummary → RunSummary → Type 0
  Counted n s s' =
      (fail_fast ≡ true) × (s'.ok ≡ false)
      ⊎ (s'.jobs_run + s'.jobs_skipped ≡ s.jobs_run + s.jobs_skipped + n)

  after_job-Counted :
      (rest : RunSummary → Result E RunSummary) (n : ℕ) (job_failed : Bool) (s s' : RunSummary)
      → ((t : RunSummary) → rest t ≡ ok s' → Counted n t s')
      → after_job world fail_fast rest job_failed s ≡ ok s'
      → Counted (suc n) s s'
  unfolding Counted after_job
  after_job-Counted rest n job_failed s s' h e = elim (Bool-cases (job_failed && fail_fast)) [
    | inl c ↦ inl (ground (arith, c), ground (arith, c, e))
    | inr c ↦
        let t : RunSummary = record s { ok = s.ok && not job_failed; jobs_run = s.jobs_run + 1 } in
        elim (h t (cc (c, e))) [ inl stopped ↦ inl stopped | inr all ↦ inr (omega arith) ]
  ]

  run_job-Counted :
      (rest : RunSummary → Result E RunSummary) (n idx : ℕ) (p : Option JobPlan) (job : Job)
      (s s' : RunSummary)
      → ((t : RunSummary) → rest t ≡ ok s' → Counted n t s')
      → run_job world fail_fast rest p idx job s ≡ ok s'
      → Counted (suc n) s s'
  unfolding Counted run_job
  run_job-Counted rest n idx none job s s' h e =
      elim (h (record s { jobs_skipped = s.jobs_skipped + 1 }) e) [
        | inl stopped ↦ inl stopped
        | inr all ↦ inr (omega arith)
      ]
  run_job-Counted rest n idx (some plan) job s s' h e =
      let (job_failed, ran, e') =
        >>=-eq-ok (execute_job world fail_fast idx job plan)
          (λ job_failed. after_job world fail_fast rest job_failed s) e in
      after_job-Counted rest n job_failed s s' h e'

  run_from-Counted :
      (idx : ℕ) (jobs : List ResolvedJob) (s s' : RunSummary)
      → run_from world fail_fast idx jobs s ≡ ok s'
      → Counted (length jobs) s s'
  unfolding Counted run_from
  run_from-Counted idx [] s s' e = inr (ground (arith, e))
  run_from-Counted idx (rj ∷ jobs) s s' e =
      run_job-Counted (run_from world fail_fast (suc idx) jobs) (length jobs) idx rj.plan rj.job s
        s' (λ t e'. run_from-Counted (suc idx) jobs t s' e') e

length-map {ℓ κ} :
    {A : Type ℓ} {B : Type κ} (f : A → B) (xs : List A) → length (map f xs) ≡ length xs
length-map f [] = refl
length-map f (x ∷ xs) = omega (arith, length-map f xs)

abbrev HasUnfiltered : RunOptions → List Job → Resolved → Type 0
HasUnfiltered options jobs r =
    (map (λ rj. rj.job) r.jobs ≡ unfiltered options jobs)
    × (length r.jobs + r.filtered_out ≡ length jobs)

module _ (globset : Globset) (git : Git) (X : Type 0) (around : Surroundings globset git X)
    (hook : Hook) (worktree : FilePath) where
  filtered-HasUnfiltered :
      (options : RunOptions) (job : Job) (jobs : List Job) (r : Resolved)
      → is_filtered options job.name ≡ true
      → HasUnfiltered options jobs r
      → HasUnfiltered options (job ∷ jobs) (add_filtered globset git X around hook worktree r)
  unfolding add_filtered
  filtered-HasUnfiltered options job jobs r f (e, l) = (cc (e, f), omega arith)

  added-HasUnfiltered :
      (options : RunOptions) (job : Job) (jobs : List Job) (plan : Option JobPlan) (r : Resolved)
      → is_filtered options job.name ≡ false
      → HasUnfiltered options jobs r
      → HasUnfiltered options (job ∷ jobs) (add_job globset git X around hook worktree job plan r)
  unfolding add_job
  added-HasUnfiltered options job jobs plan r f (e, l) = (cc (e, f), omega arith)

  -- Where the jobs of a hook are resolved, they are those that `--skip` and `--only` let through, in
  -- their order, and the others are counted.
  resolve_jobs-HasUnfiltered :
      (options : RunOptions) (jobs : List Job) (r : Resolved) (repo repo' : git.Repo)
      → resolve_jobs globset git X around hook worktree options jobs repo ≡ (ok r, repo')
      → HasUnfiltered options jobs r
  unfolding resolve_jobs
  resolve_jobs-HasUnfiltered options [] r repo repo' e =
      let (same, s) = pure-eq-ok (record { jobs = []; filtered_out = 0 }) r repo repo' e in
      subst (HasUnfiltered options []) same (refl, refl)
  resolve_jobs-HasUnfiltered options (job ∷ jobs) r repo repo' e =
      let rest = resolve_jobs globset git X around hook worktree options jobs in
      elim (Bool-cases (is_filtered options job.name)) [
        | inl f ↦
            let filtered = λ (r' : Resolved).
              pure {S = git.Repo} {E = HookError globset git X}
                (add_filtered globset git X around hook worktree r') in
            let whole : and_then (rest repo) filtered ≡ (ok r, repo') = cc (f, e) in
            let (r', s, e', h) = and_then-eq-ok (rest repo) filtered r repo' whole in
            let (same, t) =
              pure-eq-ok (add_filtered globset git X around hook worktree r') r s repo' h in
            subst (HasUnfiltered options (job ∷ jobs)) same (
              filtered-HasUnfiltered options job jobs r' f
                (resolve_jobs-HasUnfiltered options jobs r' repo s e'))
        | inr f ↦
            let plans = resolve_job_plan globset git X hook job worktree repo in
            let added = λ (plan : Option JobPlan) (r' : Resolved).
              pure {S = git.Repo} {E = HookError globset git X}
                (add_job globset git X around hook worktree job plan r') in
            let planned = λ (plan : Option JobPlan). rest >>= added plan in
            let whole : and_then plans planned ≡ (ok r, repo') = cc (f, e) in
            let (plan, s1, e1, h1) = and_then-eq-ok plans planned r repo' whole in
            let (r', s2, e2, h2) = and_then-eq-ok (rest s1) (added plan) r repo' h1 in
            let (same, t) =
              pure-eq-ok (add_job globset git X around hook worktree job plan r') r s2 repo' h2 in
            subst (HasUnfiltered options (job ∷ jobs)) same (
              added-HasUnfiltered options job jobs plan r' f
                (resolve_jobs-HasUnfiltered options jobs r' s1 s2 e2))
      ]

  summary_reported :
      (default_limit : ℕ) (world : World (HookError globset git X)) (jobs : List ResolvedJob)
      (r : Result (HookError globset git X) RunSummary) (summary : RunSummary)
      → r ≡ ok summary
      → Reports globset default_limit world hook jobs r
      → (hook.fail_fast ≡ true) × (summary.ok ≡ false)
        ⊎ (summary.jobs_run + summary.jobs_skipped ≡ length jobs)
  summary_reported default_limit world jobs (err e) summary f told = cc f
  summary_reported default_limit world jobs (ok t) summary f (bad, good, counts) = elim counts [
    | inl (fast, failed) ↦ inl (fast, ground (arith, f))
    | inr (all, skipped) ↦ inr (ground (arith, f))
  ]

  -- The jobs always come to an end, and in a summary each is counted once.
  RunsAll : List ResolvedJob → git.Repo → Type 0
  RunsAll jobs repo =
      (r : Result (HookError globset git X) RunSummary) × (run_jobs globset git X around hook
          worktree jobs repo
        ≡ some r)
      × ((summary : RunSummary)
          → r ≡ ok summary
          → (hook.fail_fast ≡ true) × (summary.ok ≡ false)
            ⊎ (summary.jobs_run + summary.jobs_skipped ≡ length jobs))

  run_jobs-RunsAll : (jobs : List ResolvedJob) (repo : git.Repo) → RunsAll jobs repo
  unfolding RunsAll run_jobs run_sequential Counted
  run_jobs-RunsAll jobs repo = elim (Bool-cases hook.parallel) [
    | inl p ↦
        let (r, e, told) =
          run_parallel-Reports globset around.default_limit (around.world repo) hook jobs in
        (
          r,
          cc (p, e),
          λ summary f. elim told [
            | inl (x, made, failed) ↦ absurd (cc (failed, f))
            | inr (graph, made, reports) ↦
                summary_reported around.default_limit (around.world repo) jobs r summary f reports
          ],
        )
    | inr p ↦ (
      run_sequential (around.world repo) hook.fail_fast jobs,
      cc p,
      λ summary f.
          elim (run_from-Counted (around.world repo) hook.fail_fast 0 jobs
            (record { ok = true; jobs_run = 0; jobs_skipped = 0 }) summary f) [
              | inl stopped ↦ inl stopped
              | inr all ↦ inr (omega arith)
            ],
    )
  ]

  prepare-HasUnfiltered :
      (options : RunOptions) (stash : Option StashGuard) (r : Resolved) (repo repo' : git.Repo)
      → prepare globset git X around hook worktree options repo ≡ (ok (stash, r), repo')
      → HasUnfiltered options hook.jobs r
  unfolding prepare
  prepare-HasUnfiltered options stash r repo repo' e =
      let resolve = resolve_jobs globset git X around hook worktree options hook.jobs in
      let give = λ (g : Option StashGuard) (q : Resolved).
        pure {S = git.Repo} {E = HookError globset git X} (g, q) in
      let resolved = λ (g : Option StashGuard). resolve >>= give g in
      let pushed = push_if_needed globset git X around hook worktree >>= resolved in
      let lock = lock_if_needed globset git X around hook worktree in
      let locked = λ (common_dir : FilePath). lock common_dir >> pushed in
      let common = from_git globset git X (git_common_dir git worktree) in
      let (common_dir, s1, e1, h1) = and_then-eq-ok (common repo) locked (stash, r) repo' e in
      let (held, s2, e2, h2) =
        and_then-eq-ok (lock common_dir s1) (λ _. pushed) (stash, r) repo' h1 in
      let (g, s3, e3, h3) =
        and_then-eq-ok (push_if_needed globset git X around hook worktree s2) resolved (stash, r)
          repo' h2 in
      let (q, s4, e4, h4) = and_then-eq-ok (resolve s3) (give g) (stash, r) repo' h3 in
      let (same, t) = pure-eq-ok (g, q) (stash, r) s4 repo' h4 in
      subst (HasUnfiltered options hook.jobs) (ap (λ p. p.1) same)
        (resolve_jobs-HasUnfiltered options hook.jobs q s3 s4 e4)

  -- What a report counts of the jobs of the hook, of which the options let some through.
  abbrev pub IsCounted : RunOptions → ExecutionReport → Type 0
  IsCounted options report =
      (report.jobs_run + report.jobs_skipped ≡ length hook.jobs)
      × (chosen : List Job) × Lets options hook.jobs chosen
      × (report.jobs_run ≤ length chosen)

  -- There is a result, and if it is a report, it counts each job once.
  abbrev pub AllCounted :
      RunOptions → Option (Result (HookError globset git X) ExecutionReport) → Type 0
  AllCounted options none = ⊥
  AllCounted options (some (err e)) = Unit
  AllCounted options (some (ok report)) =
      (hook.fail_fast ≡ true) × (report.ok ≡ false) ⊎ IsCounted options report

  report_of-AllCounted :
      (options : RunOptions) (r : Resolved) (ended : Result (HookError globset git X) RunSummary)
      (stash_error : Option (GitError git.IoError))
      → HasUnfiltered options hook.jobs r
      → ((summary : RunSummary)
          → ended ≡ ok summary
          → (hook.fail_fast ≡ true) × (summary.ok ≡ false)
            ⊎ (summary.jobs_run + summary.jobs_skipped ≡ length r.jobs))
      → AllCounted options
          (some (report_of globset git X around hook worktree r.filtered_out ended stash_error))
  unfolding report_of
  report_of-AllCounted options r (err e) stash_error l counts = tt
  report_of-AllCounted options r (ok summary) (some e) l counts = tt
  report_of-AllCounted options r (ok summary) none (same, l) counts = elim (counts summary refl) [
    | inl stopped ↦ inl stopped
    | inr all ↦
        let long = length-map (λ rj. rj.job) r.jobs in
        let chosen = ap length same in
        inr (
          omega arith,
          unfiltered options hook.jobs,
          unfiltered-Lets options hook.jobs,
          omega (arith, long, chosen),
        )
  ]

  finish-AllCounted :
      (options : RunOptions) (r : Resolved) (stash : Option StashGuard) (repo repo' : git.Repo)
      → HasUnfiltered options hook.jobs r
      → RunsAll r.jobs repo
      → AllCounted options
          (finish globset git X around hook worktree r.filtered_out stash
            (run_jobs globset git X around hook worktree r.jobs repo)
            repo').0
  unfolding finish RunsAll
  finish-AllCounted options r stash repo repo' l (ended, e, counts) =
      let popped = pop_stash globset git X around hook worktree stash repo' in
      let ends = λ (o : Option (Result (HookError globset git X) RunSummary)).
        AllCounted options
          (finish globset git X around hook worktree r.filtered_out stash o repo').0 in
      subst ends (sym e) (report_of-AllCounted options r ended popped.0 l counts)

  execute-AllCounted :
      (options : RunOptions) (repo : git.Repo)
      (p : Result (HookError globset git X) (Option StashGuard × Resolved) × git.Repo)
      → prepare globset git X around hook worktree options repo ≡ p
      → AllCounted options (execute globset git X around hook worktree p).0
  unfolding execute
  execute-AllCounted options repo (err e, repo') h = tt
  execute-AllCounted options repo (ok (stash, r), repo') h =
      finish-AllCounted options r stash repo' (around.after_jobs r.jobs repo')
        (prepare-HasUnfiltered options stash r repo repo' h) (run_jobs-RunsAll r.jobs repo')

  -- A hook's run returns, whatever git answers, the jobs do, and in whatever order they end. Where it
  -- returns a report, and unless `fail_fast` is set and the report is not ok, each job of the hook is
  -- counted in it exactly once, as run or as skipped; and at most as many are counted as run as the
  -- options let through, which are the jobs whose name is not in `skip`, and is in `only` unless that
  -- is empty. So those that the options filter out are among the skipped.
  pub run_hook_with_options-AllCounted :
      (options : RunOptions) (repo : git.Repo)
      → AllCounted options (run_hook_with_options globset git X around hook worktree options repo).0
  unfolding run_hook_with_options
  run_hook_with_options-AllCounted options repo =
      execute-AllCounted options repo (prepare globset git X around hook worktree options repo) refl

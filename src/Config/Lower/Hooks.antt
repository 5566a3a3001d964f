-- ===== src/Config/Lower/Hooks.antt =====
-- What a hook and a configuration that are lowered hold, and that their jobs have a graph.
use betterhook.Base.{
  ℕ, ◌≡◌, sym, ◌∙◌, inl, inr, String, true, List, [], ◌∷◌, Option, none, some, ok, >>=-eq-ok,
  Bool-cases, arith, All, BTreeMap, empty, get, insert, get-insert, find, is_sorted, find-above,
}
use mathlib.Core.Path.{subst}
use mathlib.Core.List.{Perm}
use text.Mathlib.Text.{◌==◌ as str_eq}
use text.Mathlib.TextEquality.{eq_iff}
use betterhook.Base.Sorting.{sort_by, sort_by-Perm, sort_by-All}
use betterhook.Globset.{Globset}
use betterhook.Config.Crates.{Crates}
use betterhook.Config.Schema.{Job, Hook, Config}
use betterhook.Config.Raw.{RawJob, RawHook, RawConfig}
use betterhook.Config.Lower.{
  job_leb, priority_for, lower_job, lower_jobs, lower_hook, lower_hooks, lower_packages, lower_meta,
  lower,
}
use betterhook.Config.Lower.Order.{InOrder, sort_by-InOrder, IsPriority, priority_for-IsPriority}
use betterhook.Config.Lower.Jobs.{IsValidJob, LoweredFrom, lower_job-LoweredFrom}

module _ (globset : Globset) (crates : Crates) where
  -- The jobs are those of the entries, one for each in their order, with its place in `priority`.
  abbrev pub MadeFrom : List String → List (String × RawJob) → List Job → Type 0
  MadeFrom priority [] [] = Unit
  MadeFrom priority [] (job ∷ jobs) = ⊥
  MadeFrom priority (entry ∷ entries) [] = ⊥
  MadeFrom priority ((name, raw) ∷ entries) (job ∷ jobs) =
      ((place : ℕ) × IsPriority priority name place × LoweredFrom globset crates name raw place job)
      × MadeFrom priority entries jobs

  lower_jobs-MadeFrom :
      (priority : List String) (entries : List (String × RawJob)) (jobs : List Job)
      → lower_jobs globset crates priority entries ≡ ok jobs
      → MadeFrom priority entries jobs
  unfolding lower_jobs
  lower_jobs-MadeFrom priority [] [] h = tt
  lower_jobs-MadeFrom priority [] (job ∷ jobs) h = cc
  lower_jobs-MadeFrom priority ((name, raw) ∷ entries) jobs h =
      let p = priority_for priority name in
      let (job, e, h1) = >>=-eq-ok (lower_job globset crates name raw p) _ h in
      let (rest, f, h2) = >>=-eq-ok (lower_jobs globset crates priority entries) _ h1 in
      let same : job ∷ rest ≡ jobs = cc h2 in
      subst (MadeFrom priority ((name, raw) ∷ entries)) same (
        (
          p,
          priority_for-IsPriority priority name,
          lower_job-LoweredFrom globset crates name raw p job e,
        ),
        lower_jobs-MadeFrom priority entries rest f,
      )

  MadeFrom-valid :
      (priority : List String) (entries : List (String × RawJob)) (jobs : List Job)
      → MadeFrom priority entries jobs
      → All (IsValidJob globset) jobs
  MadeFrom-valid priority [] [] made = tt
  MadeFrom-valid priority [] (job ∷ jobs) made = absurd made
  MadeFrom-valid priority (entry ∷ entries) [] made = absurd made
  MadeFrom-valid priority ((name, raw) ∷ entries) (job ∷ jobs) ((p, q, l), made) =
      (l.valid, MadeFrom-valid priority entries jobs made)

  -- A hook that is lowered has exactly the jobs of its entries, each completed and checked. A job's
  -- priority is the last place of its name in the hook's `priority`, or the length of that list for a
  -- name that is not in it, or the largest `u32` where that does not fit. Each job has a smaller
  -- priority than the next, or the same and a name that is not greater.
  pub lower_hook-jobs :
      (name : String) (raw : RawHook) (hook : Hook)
      → lower_hook globset crates name raw ≡ ok hook
      → (hook.name ≡ name)
        × InOrder hook.jobs
        × (jobs : List Job) × MadeFrom raw.priority raw.jobs.0 jobs
        × Perm hook.jobs jobs
  unfolding lower_hook
  lower_hook-jobs name raw hook h =
      let (jobs, e, k) = >>=-eq-ok (lower_jobs globset crates raw.priority raw.jobs.0) _ h in
      let named : name ≡ hook.name = cc k in
      let sorted : sort_by job_leb jobs ≡ hook.jobs = cc k in
      (
        sym named,
        subst InOrder sorted (sort_by-InOrder jobs),
        jobs,
        lower_jobs-MadeFrom raw.priority raw.jobs.0 jobs e,
        subst (λ (js : List Job). Perm js jobs) sorted (sort_by-Perm job_leb jobs),
      )

  pub lower_hook-valid :
      (name : String) (raw : RawHook) (hook : Hook)
      → lower_hook globset crates name raw ≡ ok hook
      → All (IsValidJob globset) hook.jobs
  unfolding lower_hook
  lower_hook-valid name raw hook h =
      let (jobs, e, k) = >>=-eq-ok (lower_jobs globset crates raw.priority raw.jobs.0) _ h in
      let sorted : sort_by job_leb jobs ≡ hook.jobs = cc k in
      subst (All (IsValidJob globset)) sorted (
        sort_by-All job_leb (IsValidJob globset) jobs (
          MadeFrom-valid raw.priority raw.jobs.0 jobs
            (lower_jobs-MadeFrom raw.priority raw.jobs.0 jobs e)))

  -- What the lowered map holds under a name, by what the raw one holds there.
  abbrev pub HookUnder : String → Option RawHook → Option Hook → Option Hook → Type 0
  HookUnder name none before found = found ≡ before
  HookUnder name (some raw) before found =
      (hook : Hook) × (lower_hook globset crates name raw ≡ ok hook) × (found ≡ some hook)

  lower_hooks-HookUnder :
      (raws : List (String × RawHook)) (before after : BTreeMap Hook) (name : String)
      → is_sorted raws ≡ true
      → lower_hooks globset crates raws before ≡ ok after
      → HookUnder name (find name raws) (get name before) (get name after)
  unfolding lower_hooks
  lower_hooks-HookUnder [] before after name s h = cc
  lower_hooks-HookUnder ((j, raw) ∷ raws) before after name s h =
      let (hook, e, k) = >>=-eq-ok (lower_hook globset crates j raw) _ h in
      let rest = lower_hooks-HookUnder raws (insert j hook before) after name (ground arith) k in
      elim (Bool-cases (str_eq j name)) [
        | inl here ↦
            let same : j ≡ name = (eq_iff j name).0 here in
            let gone : find name raws ≡ none =
              subst (λ k. find k raws ≡ none) same
                (find-above j raws (ground arith) (ground arith)) in
            let held : get name after ≡ get name (insert j hook before) =
              subst (λ o. HookUnder name o (get name (insert j hook before)) (get name after)) gone
                rest in
            rw here (
              hook,
              subst (λ n. lower_hook globset crates n raw ≡ ok hook) same e,
              held ∙ ground (arith, get-insert j name hook before, here),
            )
        | inr apart ↦
            let kept : get name (insert j hook before) ≡ get name before =
              ground (arith, get-insert j name hook before, apart) in
            rw apart (subst (λ o. HookUnder name (find name raws) o (get name after)) kept rest)
      ]

  -- A configuration that is lowered has under each name the hook that is lowered from the raw one
  -- under that name, and none where there is none.
  pub lower-hooks :
      (raw : RawConfig) (config : Config crates.VersionReq) (name : String)
      → lower globset crates raw ≡ ok config
      → HookUnder name (get name raw.hooks) none (get name config.hooks)
  unfolding lower
  lower-hooks raw config name h =
      let (meta, _, h1) = >>=-eq-ok (lower_meta globset crates raw.meta) _ h in
      let (hooks, e, h2) = >>=-eq-ok (lower_hooks globset crates raw.hooks.0 empty) _ h1 in
      let (packages, _, h3) = >>=-eq-ok (lower_packages globset crates raw.packages.0 empty) _ h2 in
      let same : hooks ≡ config.hooks = cc h3 in
      subst (λ (m : BTreeMap Hook). HookUnder name (get name raw.hooks) none (get name m)) same
        (lower_hooks-HookUnder raw.hooks.0 empty hooks name raw.hooks.1 e)

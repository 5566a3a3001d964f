-- ===== src/Dispatch/Merge.antt =====
-- The hook that is picked for a match.
use betterhook.Base.{
  ◌≡◌, refl, String, Bool, true, false, ◌⊎◌, inl, inr, List, [], ◌∷◌, ◌++◌, Option, none, some,
  arith, All, get, if◌then◌else◌, Bool-cases,
}
use text.Mathlib.Text.{◌==◌ as str_eq}
use text.Mathlib.TextEquality.{eq_iff}
use mathlib.Core.Logic.{◌↔◌}
use mathlib.Core.List.{Perm, perm_middle}
use mathlib.Core.List.Perm
use betterhook.Base.Sorting.{sort_by-Perm}
use betterhook.Config.Schema.{Job, Hook, Package, Config}
use betterhook.Config.Lower.{job_leb}
use betterhook.Config.Lower.Order.{InOrder, sort_by-InOrder}
use betterhook.Dispatch.{
  hook_not_configured, is_noop, has_jobs, is_there, any_package, values, resolve_config, names_job,
  kept_jobs, merge_hooks,
}

-- A job of the list has the name.
abbrev pub IsNamed : String → List Job → Type 0
IsNamed name [] = ⊥
IsNamed name (job ∷ jobs) = (job.name ≡ name) ⊎ IsNamed name jobs

names_job-IsNamed :
    (name : String) (jobs : List Job) → names_job name jobs ≡ true → IsNamed name jobs
names_job-IsNamed name [] h = absurd (cc h)
names_job-IsNamed name (job ∷ jobs) h = elim (Bool-cases (str_eq job.name name)) [
  | inl here ↦ inl ((eq_iff job.name name).0 here)
  | inr apart ↦ inr (names_job-IsNamed name jobs (cc (h, apart)))
]

names_job-not_IsNamed :
    (name : String) (jobs : List Job) → names_job name jobs ≡ false → ¬ IsNamed name jobs
names_job-not_IsNamed name [] h n = absurd n
names_job-not_IsNamed name (job ∷ jobs) h (inl e) = cc (h, (eq_iff job.name name).1 e)
names_job-not_IsNamed name (job ∷ jobs) h (inr n) =
    names_job-not_IsNamed name jobs (ground (arith, h)) n

-- The list is shared among the jobs that are kept, which have no name of the overlay, and those that
-- are dropped, which have one.
abbrev pub IsShared : List Job → List Job → List Job → List Job → Type 0
IsShared overlay base kept dropped =
    Perm base (kept ++ dropped)
    × All (λ (job : Job). ¬ IsNamed job.name overlay) kept
    × All (λ (job : Job). IsNamed job.name overlay) dropped

kept_jobs-IsShared :
    (overlay base : List Job)
    → (dropped : List Job) × IsShared overlay base (kept_jobs overlay base) dropped
unfolding kept_jobs
kept_jobs-IsShared overlay [] = ([], (Perm.refl _, tt, tt))
kept_jobs-IsShared overlay (job ∷ jobs) =
    let (dropped, (shared, kept, gone)) = kept_jobs-IsShared overlay jobs in
    go dropped shared kept gone (names_job job.name overlay) refl
  where
    go :
        (dropped : List Job)
        → Perm jobs (kept_jobs overlay jobs ++ dropped)
        → All (λ (j : Job). ¬ IsNamed j.name overlay) (kept_jobs overlay jobs)
        → All (λ (j : Job). IsNamed j.name overlay) dropped
        → (b : Bool) → names_job job.name overlay ≡ b
        → (ds : List Job) × IsShared overlay
            (job ∷ jobs)
            (if b then kept_jobs overlay jobs else job ∷ kept_jobs overlay jobs)
            ds
    go dropped shared kept gone true e = (
      job ∷ dropped,
      (
        Perm.trans (Perm.cons job shared)
            (Perm.symm (perm_middle (kept_jobs overlay jobs) dropped)),
        kept,
        (names_job-IsNamed job.name overlay e, gone),
      ),
    )
    go dropped shared kept gone false e =
        (dropped, (Perm.cons job shared, (names_job-not_IsNamed job.name overlay e, kept), gone))

-- A merged hook has exactly the jobs of the overlay and those of the base that the overlay does not
-- name. Each job has a smaller priority than the next, or the same and a name that is not greater.
pub merge_hooks-jobs :
    (base overlay : Hook)
    → InOrder (merge_hooks base overlay).jobs
      × (kept : List Job) × (dropped : List Job) × IsShared overlay.jobs base.jobs kept dropped
      × Perm (merge_hooks base overlay).jobs (kept ++ overlay.jobs)
unfolding merge_hooks
merge_hooks-jobs base overlay =
    let (dropped, shared) = kept_jobs-IsShared overlay.jobs base.jobs in
    (
      sort_by-InOrder (kept_jobs overlay.jobs base.jobs ++ overlay.jobs),
      kept_jobs overlay.jobs base.jobs,
      dropped,
      shared,
      sort_by-Perm job_leb (kept_jobs overlay.jobs base.jobs ++ overlay.jobs),
    )

-- What the hook is there has no job.
abbrev pub HasNoJob : Option Hook → Type 0
HasNoJob found = (hook : Hook) → found ≡ some hook → hook.jobs ≡ []

has_jobs-HasNoJob : (found : Option Hook) → (has_jobs found ≡ false) ↔ HasNoJob found
has_jobs-HasNoJob none = (λ h hook e. absurd (cc e), λ h. refl)
has_jobs-HasNoJob (some hook) = (none_in hook.jobs refl, λ h. rw (h hook refl) refl)
  where
    none_in :
        (jobs : List Job) → hook.jobs ≡ jobs → has_jobs (some hook) ≡ false → HasNoJob (some hook)
    none_in [] e h other f = let same : hook ≡ other = cc f in cc (e, same)
    none_in (job ∷ jobs) e h other f = absurd (ground (arith, h, e))

is_there-none : (found : Option Hook) → (is_there found ≡ false) ↔ (found ≡ none)
is_there-none none = (λ h. refl, λ h. refl)
is_there-none (some hook) = (λ h. absurd (cc h), λ h. absurd (cc h))

any_package-All :
    (test : Option Hook → Bool) (P : Option Hook → Type 0) (name : String)
    → ((found : Option Hook) → (test found ≡ false) ↔ P found)
    → (packages : List Package)
    → (any_package test name packages ≡ false) ↔ All (λ p. P (get name p.hooks)) packages
unfolding any_package
any_package-All test P name fits [] = (λ h. tt, λ h. refl)
any_package-All test P name fits (p ∷ packages) =
    let rest = any_package-All test P name fits packages in
    let here = fits (get name p.hooks) in
    (
      λ h. (here.0 (ground (arith, h)), rest.0 (ground (arith, h))),
      λ (x, xs). let a = here.1 x in let b = rest.1 xs in cc (a, b),
    )

has_jobs_there : (found : Option Hook) → is_there found ≡ false → has_jobs found ≡ false
has_jobs_there none h = refl
has_jobs_there (some hook) h = absurd (cc h)

any_package_there :
    (name : String) (packages : List Package)
    → any_package is_there name packages ≡ false
    → any_package has_jobs name packages ≡ false
unfolding any_package
any_package_there name [] h = refl
any_package_there name (p ∷ packages) h =
    let here = has_jobs_there (get name p.hooks) (ground (arith, h)) in
    let rest = any_package_there name packages (ground (arith, h)) in cc (here, rest)

module _ {VersionReq : Type 0} (config : Config VersionReq) (name : String) where
  no_jobs_found :
      is_noop (resolve_config config name) ≡ true
      → (has_jobs (get name config.hooks) ≡ false)
        × (any_package has_jobs name (values config.packages.0) ≡ false)
  unfolding resolve_config
  no_jobs_found h = (ground (arith, h), ground (arith, h))

  nothing_found :
      resolve_config config name ≡ hook_not_configured
      → (is_there (get name config.hooks) ≡ false)
        × (any_package is_there name (values config.packages.0) ≡ false)
  unfolding resolve_config
  nothing_found h = (ground (arith, h), ground (arith, h))

-- A dispatch is a no-op exactly if the hooks of that name, in the root and in each package, have no
-- job; and it reports the hook as not configured exactly if there is no hook of that name in the root
-- or in a package.
pub resolve_config-is_noop :
    {VersionReq : Type 0} (config : Config VersionReq) (name : String)
    → ((is_noop (resolve_config config name) ≡ true) ↔ (
        HasNoJob (get name config.hooks)
        × All (λ (p : Package). HasNoJob (get name p.hooks)) (values config.packages.0)))
      × ((resolve_config config name ≡ hook_not_configured) ↔ (
          (get name config.hooks ≡ none)
          × All (λ (p : Package). get name p.hooks ≡ none) (values config.packages.0)))
unfolding resolve_config
resolve_config-is_noop config name =
    let packages = values config.packages.0 in
    let root_jobs = has_jobs-HasNoJob (get name config.hooks) in
    let jobs = any_package-All has_jobs HasNoJob name has_jobs-HasNoJob packages in
    let root_there = is_there-none (get name config.hooks) in
    let there = any_package-All is_there (λ o. o ≡ none) name is_there-none packages in
    (
      (
        λ h. let (a, b) = no_jobs_found config name h in (root_jobs.0 a, jobs.0 b),
        λ (a, b). let c = root_jobs.1 a in let d = jobs.1 b in ground (arith, c, d),
      ),
      (
        λ h. let (a, b) = nothing_found config name h in (root_there.0 a, there.0 b),
        λ (a, b).
            let c = root_there.1 a in
            let d = there.1 b in
            let e = has_jobs_there (get name config.hooks) c in
            let f = any_package_there name packages d in cc (c, d, e, f),
      ),
    )

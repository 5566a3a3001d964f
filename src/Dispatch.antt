-- ===== src/Dispatch.antt =====
-- apps/betterhook/src/dispatch.rs: which hook runs, and on which files.
pub mod Packages
pub mod Sharing
pub mod Merge
mod Tests
use Prim.Native.String.{len}
use text.Mathlib.Text.{◌==◌ as str_eq}
use betterhook.Base.{
  ℕ, zero, suc, String, Bool, true, false, not, ◌&&◌, ◌||◌, List, [], ◌∷◌, ◌++◌, Option, none, some,
  Result, ok, err, ltb, ◌==◌, BTreeMap, get, is_empty, if◌then◌else◌,
}
use mathlib.Core.Option
use betterhook.Base.Paths.{starts_with}
use betterhook.Base.Sorting.{sort_by}
use betterhook.Config.Schema.{FilePath, Job, Hook, Package, Config}
use betterhook.Config.Lower.{job_leb}

pub data Dispatch (VersionReq : Type 0) : Type 0 where
  no_config hook_not_configured no_jobs : Dispatch VersionReq
  run : (config : Config VersionReq) (hook_name : String) → Dispatch VersionReq

abbrev pub hook_of : {VersionReq : Type 0} → Dispatch VersionReq → Option Hook
hook_of no_config = none
hook_of hook_not_configured = none
hook_of no_jobs = none
hook_of (run config hook_name) = get hook_name config.hooks

abbrev pub is_noop : {VersionReq : Type 0} → Dispatch VersionReq → Bool
is_noop no_config = true
is_noop hook_not_configured = true
is_noop no_jobs = true
is_noop (run config hook_name) = false

-- `is_some_and(|h| !h.jobs.is_empty())`
abbrev pub has_jobs : Option Hook → Bool
has_jobs none = false
has_jobs (some h) = not (is_empty h.jobs)

abbrev pub is_there : Option Hook → Bool
is_there none = false
is_there (some h) = true

-- `config.packages.values()`
abbrev pub values {ℓ} : {V : Type ℓ} → List (String × V) → List V
values [] = []
values ((_, v) ∷ m) = v ∷ values m

unfoldable pub any_package : (Option Hook → Bool) → String → List Package → Bool
any_package test hook_name [] = false
any_package test hook_name (p ∷ packages) =
    test (get hook_name p.hooks) || any_package test hook_name packages

-- `resolve` once the configuration is loaded.
unfoldable pub resolve_config :
    {VersionReq : Type 0} → Config VersionReq → String → Dispatch VersionReq
resolve_config config hook_name =
    let packages = values config.packages.0 in
    let found = get hook_name config.hooks in
    if not (has_jobs found) && not (any_package has_jobs hook_name packages)
    then if is_there found || any_package is_there hook_name packages
      then no_jobs
      else hook_not_configured
    else run config hook_name

-- `resolve`: `load` is what `config::load` gives for the file.
unfoldable pub resolve :
    {VersionReq E : Type 0}
    → Option FilePath
    → (FilePath → Result E (Config VersionReq))
    → String
    → Result E (Dispatch VersionReq)
resolve none load hook_name = ok no_config
resolve (some path) load hook_name = elim (load path) [
  | ok config ↦ ok (resolve_config config hook_name)
  | err e ↦ err e
]

pub data PackageMatch : Type 0 where
  root : List FilePath → PackageMatch
  in_package : Package → List FilePath → PackageMatch

abbrev pub enumerate : ℕ → List Package → List (ℕ × Package)
enumerate i [] = []
enumerate i (p ∷ packages) = (i, p) ∷ enumerate (suc i) packages

-- The key of `sort_by_key`: the length of the path, reversed.
abbrev pub longer_first : ℕ × Package → ℕ × Package → Bool
longer_first (i, p) (j, q) = not (ltb (len p.path) (len q.path))

-- The index of the first package in the list that the file is in.
unfoldable pub match_package : List (ℕ × Package) → FilePath → Option ℕ
match_package [] file = none
match_package ((idx, pkg) ∷ packages) file =
    let rest = match_package packages file in if starts_with file pkg.path then some idx else rest

-- `bucket_by_index`, as the files of each index, and `root_bucket`.
pub record Buckets : Type 0 where
  pub by_index : ℕ → Option (List FilePath)
  pub in_root : List FilePath

-- `bucket_by_index.entry(idx).or_default().push(file)`, or `root_bucket.push(file)`
unfoldable pub push_file : Option ℕ → FilePath → Buckets → Buckets
push_file none file b = record b { in_root = b.in_root ++ file ∷ [] }
push_file (some idx) file b = record b {
  by_index =
      λ i. if i == idx then some (Option.get_or (b.by_index i) [] ++ file ∷ []) else b.by_index i;
}

unfoldable pub fill_buckets : List (ℕ × Package) → List FilePath → Buckets → Buckets
fill_buckets packages [] b = b
fill_buckets packages (file ∷ files) b =
    fill_buckets packages files (push_file (match_package packages file) file b)

unfoldable pub matches_from : Buckets → List (ℕ × Package) → List PackageMatch
matches_from b [] = []
matches_from b ((idx, pkg) ∷ packages) =
    let rest = matches_from b packages in
    elim (b.by_index idx) [ none ↦ rest | some files ↦ in_package pkg files ∷ rest ]

unfoldable pub by_length : List Package → List (ℕ × Package)
by_length packages = sort_by longer_first (enumerate 0 packages)

unfoldable pub buckets_of : List Package → List FilePath → Buckets
buckets_of packages files =
    fill_buckets (by_length packages) files (record { by_index = λ _. none; in_root = [] })

unfoldable pub resolve_packages :
    {VersionReq : Type 0} → Config VersionReq → List FilePath → List PackageMatch
resolve_packages config staged_files =
    let packages = values config.packages.0 in
    let b = buckets_of packages staged_files in
    let matched = matches_from b (enumerate 0 packages) in
    if is_empty packages
    then root staged_files ∷ []
    else if is_empty b.in_root
    then matched
    else root b.in_root ∷ matched

-- Whether a job of that name is in the list: `overlay_names.contains`.
abbrev pub names_job : String → List Job → Bool
names_job name [] = false
names_job name (job ∷ jobs) = str_eq job.name name || names_job name jobs

unfoldable pub kept_jobs : List Job → List Job → List Job
kept_jobs overlay [] = []
kept_jobs overlay (job ∷ jobs) =
    let rest = kept_jobs overlay jobs in if names_job job.name overlay then rest else job ∷ rest

-- `overlay.or(base)`
abbrev pub option_or {ℓ} : {A : Type ℓ} → Option A → Option A → Option A
option_or none y = y
option_or (some x) y = some x

unfoldable pub merge_hooks : Hook → Hook → Hook
merge_hooks base overlay = record {
  name = base.name;
  parallel = if overlay.parallel_explicit then overlay.parallel else base.parallel;
  parallel_explicit = base.parallel_explicit || overlay.parallel_explicit;
  fail_fast = if overlay.fail_fast_explicit then overlay.fail_fast else base.fail_fast;
  fail_fast_explicit = base.fail_fast_explicit || overlay.fail_fast_explicit;
  parallel_limit = option_or overlay.parallel_limit base.parallel_limit;
  stash_untracked =
      if overlay.stash_untracked_explicit then overlay.stash_untracked else base.stash_untracked;
  stash_untracked_explicit = base.stash_untracked_explicit || overlay.stash_untracked_explicit;
  jobs = sort_by job_leb (kept_jobs overlay.jobs base.jobs ++ overlay.jobs);
}

unfoldable pub overlay_hook : Option Hook → Option Hook → Option Hook
overlay_hook none root_hook = root_hook
overlay_hook (some p) none = some p
overlay_hook (some p) (some r) = some (merge_hooks r p)

unfoldable pub hook_for_match :
    {VersionReq : Type 0} → Config VersionReq → PackageMatch → String → Option Hook
hook_for_match config (root files) hook_name = get hook_name config.hooks
hook_for_match config (in_package pkg files) hook_name =
    overlay_hook (get hook_name pkg.hooks) (get hook_name config.hooks)

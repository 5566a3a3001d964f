-- ===== src/Config/Tests/Instances.antt =====
-- The theorems about the configuration at small inputs.
use betterhook.Base.{
  String, ◌≡◌, refl, [], ◌∷◌, List, some, none, ok, err, true, false, get, upsert_list, insert,
  empty,
}
use mathlib.Core.List.{Perm}
use betterhook.Base.Sorting.{sort_by, insert_by}
use betterhook.Config.Schema.{Job, Hook, Config}
use betterhook.Config.Raw.{RawHook, merge_config, merge_job, default_config}
use betterhook.Config.Raw.Laws.{merge_config_assoc, merge_config-job_in, job_in}
use betterhook.Config.Lower.{
  make_job, job_leb, compare_jobs, complete, require_run, lower_timeout, lower_isolates,
  check_globs, lower_job, lower_jobs, lower_hook, priority_for, priority_index, index_from,
  lower_hooks, lower_packages, lower_meta, lower,
}
use betterhook.Config.Lower.Order.{InOrder}
use betterhook.Config.Lower.Hooks.{lower_hook-jobs, MadeFrom, lower-hooks, HookUnder}
use betterhook.Config.Lower.Builtin.{lower_job-IsCommandOf, IsCommandOf}
use betterhook.Globset.{Globset}
use betterhook.Config.Lower.Graphs.{IsRefusal, lower_hook-build_dag}
use betterhook.Config.Tests.{strict, bare_job, lint_job, pre_commit, with_hook, override}
use betterhook.Runner.GlobUtil
use betterhook.Runner.Dag.{DagError, build_dag, compile_sets, build_globset}
use betterhook.Runner.Tests.{literal}

merge_config_assoc_example :
    merge_config (merge_config (with_hook pre_commit) override) default_config
    ≡ merge_config (with_hook pre_commit) (merge_config override default_config)
merge_config_assoc_example = merge_config_assoc (with_hook pre_commit) override default_config

merge_config-job_in_example :
    job_in "lint" (get "pre-commit" (merge_config (with_hook pre_commit) override).hooks)
    ≡ some (merge_job lint_job (record bare_job { run = some "eslint --fix ." }))
merge_config-job_in_example =
    merge_config-job_in "pre-commit" "lint" (with_hook pre_commit) override

-- `lint` is listed, so it comes before `fmt`.
abbrev lint : Job
lint = make_job "lint" "eslint ." none none 0 none lint_job

lower_job-lint : lower_job literal strict "lint" lint_job 0 ≡ ok lint
unfolding lower_job complete require_run lower_timeout lower_isolates check_globs
lower_job-lint = refl

lower_job-IsCommandOf_example : IsCommandOf lint_job "eslint ."
lower_job-IsCommandOf_example =
    lower_job-IsCommandOf literal strict "lint" lint_job 0 lint lower_job-lint

abbrev lint_only : RawHook
lint_only = record pre_commit { jobs = (("again", lint_job) ∷ ("lint", lint_job) ∷ [], refl) }

abbrev lint_hook : Hook
lint_hook = record {
  name = "pre-commit";
  parallel = true;
  parallel_explicit = true;
  fail_fast = false;
  fail_fast_explicit = false;
  parallel_limit = none;
  stash_untracked = true;
  stash_untracked_explicit = false;
  jobs = lint ∷ make_job "again" "eslint ." none none 1 none lint_job ∷ [];
}

lower_hook-lint_only : lower_hook literal strict "pre-commit" lint_only ≡ ok lint_hook
unfolding lower_hook lower_jobs lower_job complete require_run lower_timeout lower_isolates
    check_globs priority_for priority_index index_from insert upsert_list sort_by insert_by job_leb
    compare_jobs
lower_hook-lint_only = refl

lower_hook-jobs_example :
    (lint_hook.name ≡ "pre-commit")
    × InOrder lint_hook.jobs
    × (jobs : List Job) × MadeFrom literal strict ("lint" ∷ []) lint_only.jobs.0 jobs
    × Perm lint_hook.jobs jobs
lower_hook-jobs_example =
    lower_hook-jobs literal strict "pre-commit" lint_only lint_hook lower_hook-lint_only

-- A builder that refuses every list of globs.
abbrev refusing : Globset
refusing = record literal { build = λ globs. err "too large" }

abbrev refused : DagError String
refused = record { job = "lint"; pattern = "a.ts"; source = "too large" }

lower_hook-refusing : lower_hook refusing strict "pre-commit" lint_only ≡ ok lint_hook
unfolding lower_hook lower_jobs lower_job complete require_run lower_timeout lower_isolates
    check_globs priority_for priority_index index_from insert upsert_list sort_by insert_by job_leb
    compare_jobs
lower_hook-refusing = refl

build_dag-refusing : build_dag refusing lint_hook.jobs ≡ err refused
unfolding build_dag compile_sets build_globset GlobUtil.build_globset GlobUtil.add_all
build_dag-refusing = refl

lower_hook-build_dag_example : IsRefusal refusing refused
lower_hook-build_dag_example =
    lower_hook-build_dag refusing strict "pre-commit" lint_only lint_hook refused
      lower_hook-refusing build_dag-refusing

abbrev lint_config : Config String
lint_config = record {
  meta = record { version = 1; min_betterhook = none };
  hooks = insert "pre-commit" lint_hook empty;
  packages = empty;
}

lower-lint_only : lower literal strict (with_hook lint_only) ≡ ok lint_config
unfolding lower lower_meta lower_hooks lower_packages
lower-lint_only = rw lower_hook-lint_only refl

lower-hooks_example :
    HookUnder literal strict "pre-commit" (some lint_only) none (get "pre-commit" lint_config.hooks)
lower-hooks_example =
    lower-hooks literal strict (with_hook lint_only) lint_config "pre-commit" lower-lint_only

-- ===== src/Runner/Tests/Hooks.antt =====
-- A hook's run at a small input, with a git that has one stash entry at most.
use text.Mathlib.Text.{◌==◌ as str_eq}
use betterhook.Base.{
  ◌≡◌, refl, String, List, [], ◌∷◌, true, false, Option, none, some, Result, ok, err, if◌then◌else◌,
}
use betterhook.Base.Search.{
  contains_text, join, trim_end, lines, split_at, strip_prefix, replace, replace_from, byte_len,
}
use betterhook.Base.Paths.{join_path}
use betterhook.Config.Schema.{Job, Hook}
use betterhook.Git.Fileset
use betterhook.Git.RevParse
use betterhook.Git.RevParse.{Git, Output, git_common_dir}
use betterhook.Git.Stash
use betterhook.Git.Stash.{StashGuard}
use betterhook.Git.Stash.Laws.{list_entries, pop_top}
use betterhook.Runner.Summary.{RunError, RunSummary}
use betterhook.Runner.Plan
use betterhook.Runner.Plan.{JobPlan, ResolvedJob, HookError, from_git, resolve_job_plan}
use betterhook.Runner.Sequential
use betterhook.Runner.Executor.Job as JobRun
use betterhook.Runner.Hook as HookRun
use betterhook.Runner.Hook.{
  RunOptions, ExecutionReport, Resolved, Surroundings, run_jobs, report_of, push_if_needed,
  lock_if_needed, resolve_jobs, prepare, run_hook_with_options,
}
use betterhook.Runner.Hook.Counts.{AllCounted, run_hook_with_options-AllCounted}
use betterhook.Runner.Hook.Stashing.{run_hook_with_options-pop}
use betterhook.Runner.Tests.{literal, stub}

-- The state says where the changes that are not staged are: in the tree or in the stash.
abbrev stdout_at : String → String → String
stdout_at command state =
    if str_eq command "rev-parse --git-common-dir"
    then ".git\n"
    else if str_eq command "status --porcelain -uall"
    then (if str_eq state "tree" then "?? x\n" else "")
    else if str_eq command "diff --name-only --cached -z"
    then "a b.ts\0"
    else if str_eq command "stash list"
    then (if str_eq state "stash" then "stash@{0}: On main: m1\n" else "")
    else ""

abbrev state_after : String → String → String
state_after command state =
    if str_eq command "stash push --keep-index --include-untracked --message m1"
    then "stash"
    else if str_eq command "stash pop stash@{0}"
    then "tree"
    else state

answer : List String → String → Result String Output × String
answer args state = (
  ok (record { status = some 0; stdout = stdout_at (join " " args) state; stderr = "" }),
  state_after (join " " args) state,
)

abbrev one_entry : Git
one_entry = record {
  Repo = String;
  IoError = String;
  output = λ cwd args state. answer args state;
  canonicalize = λ path state. some path;
}

abbrev around : Surroundings literal one_entry String
around = record {
  acquire_repo_stash_lock = λ dir state. (ok tt, state);
  stash_message = "m1";
  default_limit = 4;
  world = λ state. record {
    unstaged_before = λ i. ok [];
    unstaged_after = λ i. ok [];
    git_add = λ i ps. ok tt;
    run_command = λ i k cmd. ok 0;
    cached = λ i. none;
    joins = λ ps. 0;
  };
  after_jobs = λ jobs state. state;
}

abbrev stashing : List Job → Hook
stashing jobs = record {
  name = "pre-commit";
  parallel = false;
  parallel_explicit = false;
  fail_fast = false;
  fail_fast_explicit = false;
  parallel_limit = none;
  stash_untracked = true;
  stash_untracked_explicit = true;
  jobs = jobs;
}

abbrev eslint : Job
eslint = record (stub "eslint" [] [] 0) { run = "eslint {files}" }

abbrev bad : Job
bad = record (stub "bad" [] [] 0) { run = "true {files}"; glob = "[" ∷ [] }

abbrev options : RunOptions
options = record { skip = "docs" ∷ []; only = []; no_locks = false }

abbrev jobs : List Job
jobs = eslint ∷ stub "docs" [] [] 1 ∷ []

code : Unit {0}
unfolding answer HookRun.run_hook_with_options HookRun.execute HookRun.finish HookRun.pop_stash
    HookRun.report_of HookRun.prepare HookRun.push_if_needed HookRun.lock_if_needed
    HookRun.resolve_jobs HookRun.add_job HookRun.add_filtered HookRun.is_filtered HookRun.any_is
    HookRun.run_jobs Plan.from_git Plan.from_globset Plan.raw_files Plan.or_all_files
    Plan.push_or_all_files Plan.plan_of Plan.resolve_over_files Plan.resolve_job_plan Plan.cwd_of
    Plan.absolute_in Fileset.build_globset Fileset.add_all Sequential.run_sequential
    Sequential.run_from Sequential.run_job Sequential.after_job Sequential.execute_job
    Sequential.run_all JobRun.snapshot_unstaged_if_needed JobRun.stage_if_needed
    JobRun.apply_stage_fixed JobRun.difference JobRun.contains Fileset.parse_nul_delimited
    Fileset.drop_empty Fileset.is_included Fileset.is_kept Fileset.filter_files Fileset.is_safe
    Fileset.all_safe Fileset.quote_rest Fileset.shell_escape Fileset.contains_any
    Fileset.has_template Fileset.replace_each Fileset.substitute_once Fileset.flush Fileset.is_full
    Fileset.push_argument Fileset.add_file Fileset.add_files Fileset.last_chunk
    Fileset.expand_template RevParse.success RevParse.code_or_minus_one RevParse.stdout_of
    RevParse.run_git RevParse.git_stdout_line RevParse.canonical_or RevParse.git_common_dir
    RevParse.staged_files RevParse.unstaged_files Stash.contains_path Stash.any_contained
    Stash.find_line Stash.has_dirty_or_untracked Stash.has_partially_staged_tracked_files
    Stash.find_stash_index Stash.push_stash Stash.push Stash.pop_at Stash.pop contains_text
    strip_prefix join trim_end lines split_at replace replace_from byte_len join_path
code = tt

abbrev report : ExecutionReport
report = record { hook_name = "pre-commit"; ok = true; jobs_run = 1; jobs_skipped = 1 }

run_eslint :
    run_hook_with_options literal one_entry String around (stashing jobs) "/r" options "tree"
    ≡ (some (ok report), "tree")
unfolding code
run_eslint = refl

abbrev guard : StashGuard
guard = record { worktree = "/r"; message = "m1"; created = true }

abbrev resolved : Resolved
resolved = record {
  jobs =
      record {
        job = eslint;
        plan =
            some
              (record { commands = "eslint 'a b.ts'" ∷ []; cwd = "/r"; files = "/r/a b.ts" ∷ [] });
      }
      ∷ [];
  filtered_out = 1;
}

prepare_eslint :
    prepare literal one_entry String around (stashing jobs) "/r" options "tree"
    ≡ (ok (some guard, resolved), "stash")
unfolding code
prepare_eslint = refl

abbrev ended : Result (HookError literal one_entry String) RunSummary
ended = ok (record { ok = true; jobs_run = 1; jobs_skipped = 0 })

run_jobs_eslint :
    run_jobs literal one_entry String around (stashing jobs) "/r" resolved.jobs "stash" ≡ some ended
unfolding code
run_jobs_eslint = refl

abbrev listed : String
listed = "stash@{0}: On main: m1\n"

list_entries_eslint : list_entries one_entry guard "stash" ≡ (ok listed, "stash")
unfolding code
list_entries_eslint = refl

lines-listed :
    (lines listed ≡ "stash@{0}: On main: m1" ∷ [])
    × (contains_text "stash@{0}: On main: m1" "m1" ≡ true)
unfolding code
lines-listed = (refl, refl)

pop_top_eslint : pop_top one_entry guard "stash" ≡ (ok "", "tree")
unfolding code
pop_top_eslint = refl

run_hook_with_options-pop_example :
    run_hook_with_options literal one_entry String around (stashing jobs) "/r" options "tree"
    ≡ (some (report_of literal one_entry String around (stashing jobs) "/r" 1 ended none), "tree")
run_hook_with_options-pop_example =
    run_hook_with_options-pop literal one_entry String around (stashing jobs) "/r" options "tree"
      "stash" "stash" "tree" guard resolved ended listed "" "stash@{0}: On main: m1" []
      prepare_eslint run_jobs_eslint refl list_entries_eslint lines-listed.0 lines-listed.1
      pop_top_eslint

abbrev bad_error : HookError literal one_entry String
bad_error = RunError.glob "unclosed class"

-- The stash that was pushed stays when a job cannot be resolved.
run_hook_with_options-bad :
    run_hook_with_options literal one_entry String around (stashing (bad ∷ [])) "/r" options "tree"
    ≡ (some (err bad_error), "stash")
unfolding code
run_hook_with_options-bad = refl

run_hook_with_options-AllCounted_example :
    AllCounted literal one_entry String around
      (stashing jobs)
      "/r"
      options
      (run_hook_with_options literal one_entry String around (stashing jobs) "/r" options "tree").0
run_hook_with_options-AllCounted_example =
    run_hook_with_options-AllCounted literal one_entry String around (stashing jobs) "/r" options
      "tree"

abbrev eslint_plan : Option JobPlan
eslint_plan =
    some (record { commands = "eslint 'a b.ts'" ∷ []; cwd = "/r"; files = "/r/a b.ts" ∷ [] })

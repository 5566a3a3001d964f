-- ===== src/Runner/Tests.antt =====
-- Small jobs and hooks, a matcher for them, and what the runner does with them.
mod Instances
mod Sequential
mod Hooks
use text.Mathlib.Text.{◌==◌ as str_eq}
use betterhook.Base.{
  empty, ℕ, ◌<◌, ◌≤◌, ◌≡◌, ◌≢◌, refl, String, List, [], ◌∷◌, map, Bool, true, false, ◌||◌, Option,
  none, some, Result, ok, err, arith, if◌then◌else◌, length, for_range, for_range,
}
use betterhook.Globset.{Globset}
use betterhook.Config.Schema.{Job, Hook}
use betterhook.Runner.Plan.{JobPlan, ResolvedJob}
use betterhook.Runner.World.{World}
use betterhook.Runner.Summary.{RunSummary}
use betterhook.Runner.Executor.{
  State, Run, Control, more, done, fail, rounds, after_round, step, pop_from, join_next, join_from,
  joined_place, settle_result, settle, admit, launch, launch_plan, replay_or_spawn, spawn_job,
  skip_job, replay_job, cached_exit, outcome_of, release_children, release_each, release_child,
  heap_push, push_roots, initial,
}
use betterhook.Runner.Executor.Job.{
  execute_job_in_dag, snapshot_unstaged_if_needed, stage_if_needed, apply_stage_fixed, run_commands,
  difference, contains,
}
use betterhook.Runner.Executor.Invariant.{verdict}
use betterhook.Runner.Executor.Complete.{jobs_without_plan}
use betterhook.Runner.Parallel.{
  Error, run_of, run_parallel, run_graph, summarise_end, summarise, parallel_limit, fuel_for,
}
use betterhook.Runner.Parallel.Reach.{
  Reached, begin, round, conflicts_never_overlap, in_flight_limit, ready_is_sorted,
  admitted_in_order,
}
use betterhook.Runner.Parallel.Correct.{run_parallel-Reports, run_parallel-eq-summary_of}
use betterhook.Runner.Parallel.Verdicts.{any_below, alone}
use betterhook.Runner.GlobUtil
use betterhook.Runner.Dag.{
  DagNode, JobGraph, Sets, compile_sets, conflict_at, build_dag, probe_filename, roots, edge_count,
  edges, build_globset, any_probe, globsets_overlap, pair_conflicts, edge_for, first_at,
  order_first, add_edge, link_pair, link_row, link_all, new_nodes, connect,
}

-- A matcher that knows literal patterns, and refuses the pattern "[".
abbrev any_equal : List String → String → Bool
any_equal [] p = false
any_equal (q ∷ qs) p = str_eq q p || any_equal qs p

abbrev pub literal : Globset
literal = record {
  Glob = String;
  GlobSet = List String;
  Error = String;
  new = λ pat. if str_eq pat "[" then err "unclosed class" else ok pat;
  build = λ globs. ok globs;
  is_match = any_equal;
  message = λ e. e;
}

abbrev pub stub : String → List String → List String → ℕ → Job
stub name reads writes priority = record {
  name = name;
  run = "true";
  fix = none;
  glob = [];
  exclude = [];
  tags = [];
  skip = none;
  only = none;
  env = empty;
  root = none;
  stage_fixed = false;
  isolate = none;
  timeout = none;
  interactive = false;
  fail_text = none;
  priority = priority;
  reads = reads;
  writes = writes;
  network = false;
  concurrent_safe = false;
  builtin = none;
}

-- `lint` reads what `format` writes; `docs` is apart from both.
abbrev pub three_jobs : List Job
three_jobs =
    stub "lint" ("a.ts" ∷ []) [] 1
    ∷ stub "format" [] ("a.ts" ∷ []) 0
    ∷ stub "docs" [] ("b.md" ∷ []) 2
    ∷ []

abbrev pub three_jobs_graph : JobGraph
three_jobs_graph = record {
  nodes =
      record { index = 0; job = stub "lint" ("a.ts" ∷ []) [] 1; parents = 1 ∷ []; children = [] }
      ∷ record {
        index = 1;
        job = stub "format" [] ("a.ts" ∷ []) 0;
        parents = [];
        children = 0 ∷ [];
      }
      ∷ record { index = 2; job = stub "docs" [] ("b.md" ∷ []) 2; parents = []; children = [] }
      ∷ [];
}

abbrev pub three_jobs_sets : List (Sets literal)
three_jobs_sets =
    record { writes = none; reads_or_writes = some ("a.ts" ∷ []) }
    ∷ record { writes = some ("a.ts" ∷ []); reads_or_writes = some ("a.ts" ∷ []) }
    ∷ record { writes = some ("b.md" ∷ []); reads_or_writes = some ("b.md" ∷ []) }
    ∷ []

dag_code : Unit {0}
unfolding build_dag compile_sets build_globset GlobUtil.build_globset GlobUtil.add_all any_probe
    globsets_overlap pair_conflicts conflict_at edge_for first_at order_first add_edge link_pair
    link_row link_all new_nodes connect probe_filename for_range
dag_code = tt

pub build_dag-three_jobs : build_dag literal three_jobs ≡ ok three_jobs_graph
unfolding dag_code
build_dag-three_jobs = refl

pub compile_sets-three_jobs : compile_sets literal three_jobs ≡ ok three_jobs_sets
unfolding dag_code
compile_sets-three_jobs = refl

pub conflict-lint_format : conflict_at literal three_jobs three_jobs_sets 0 1 ≡ true
unfolding dag_code
conflict-lint_format = refl

roots-three_jobs : roots three_jobs_graph ≡ 1 ∷ 2 ∷ []
unfolding roots
roots-three_jobs = refl

edges-three_jobs : (edges three_jobs_graph ≡ (1, 0) ∷ []) × (edge_count three_jobs_graph ≡ 1)
unfolding edges edge_count
edges-three_jobs = (refl, refl)

probe-typescript : probe_filename "src/**/*.ts" ≡ "src/a/a/a.ts"
unfolding probe_filename
probe-typescript = refl

-- A hook with room for two jobs, and a world in which every command exits with 0.
abbrev pub hook : Hook
hook = record {
  name = "pre-commit";
  parallel = true;
  parallel_explicit = true;
  fail_fast = false;
  fail_fast_explicit = false;
  parallel_limit = some 2;
  stash_untracked = false;
  stash_untracked_explicit = false;
  jobs = three_jobs;
}

abbrev pub calm : {E : Type 0} → World E
calm = record {
  unstaged_before = λ _. ok [];
  unstaged_after = λ _. ok [];
  git_add = λ _ _. ok tt;
  run_command = λ _ _ _. ok 0;
  cached = λ _. none;
  joins = λ _. 0;
}

abbrev planned : Job → ResolvedJob
planned job = record {
  job = job;
  plan = some (record { commands = "true" ∷ []; cwd = "."; files = [] });
}

abbrev pub planned_jobs : List ResolvedJob
planned_jobs = map planned three_jobs

abbrev pub demo_run : Run (Error literal String)
demo_run = run_of 4 calm hook planned_jobs three_jobs_graph

abbrev after : State → State
after s = elim (step demo_run s) [ more s' ↦ s' | done s' ↦ s' | fail e ↦ s ]

-- After two rounds `format` and `docs` are in flight.
pub busy : State
busy = after (after (initial three_jobs_graph.nodes))

run_code : Unit {0}
unfolding run_parallel run_graph summarise_end summarise parallel_limit fuel_for rounds after_round
    step pop_from join_next join_from joined_place settle_result settle admit launch launch_plan
    replay_or_spawn spawn_job skip_job replay_job cached_exit outcome_of release_children
    release_each release_child heap_push push_roots initial execute_job_in_dag
    snapshot_unstaged_if_needed stage_if_needed apply_stage_fixed run_commands difference contains
    verdict
run_code = tt

in_flight-busy : busy.in_flight ≡ 2 ∷ 1 ∷ []
unfolding busy run_code
in_flight-busy = refl

pub Reached-busy : Reached demo_run busy
unfolding busy run_code
Reached-busy = round _ _ (round _ _ (begin _ refl) refl) refl

run_parallel-three_jobs :
    run_parallel literal {X = String} 4 calm hook planned_jobs
    ≡ some (ok (record { ok = true; jobs_run = 3; jobs_skipped = 0 }))
unfolding run_code dag_code
run_parallel-three_jobs = refl

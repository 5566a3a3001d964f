-- ===== src/Config/Lower.antt =====
-- apps/betterhook/src/config/schema.rs: from the configuration in a file to the canonical one.
pub mod Order
pub mod Jobs
pub mod Hooks
pub mod Builtin
pub mod Graphs
use Prim.Native.Nat.compare as compare_ℕ
use Prim.Native.Nat.{Ordering, compare as compare_ℕ}
use Prim.Native.String.{◌++◌ as then_text, compare, then as then_compare}
use text.Mathlib.Text.{◌==◌ as str_eq}
use betterhook.Base.{
  ℕ, zero, suc, String, Bool, true, false, List, [], ◌∷◌, ◌++◌, Option, none, some, Result, ok, err,
  ◌>>=◌, map_err, BTreeMap, empty, get, insert, ltb, length, if◌then◌else◌,
}
use mathlib.Core.Option
use betterhook.Base.Sorting.{sort_by}
use betterhook.Globset.{Globset}
use betterhook.Builtins.{BuiltinMeta, get_builtin}
use betterhook.Config.Crates.{Crates, ConfigError, invalid, duration}
use betterhook.Config.Schema.{
  FilePath, ToolPathScope, IsolateSpec, Job, Hook, Meta, Package, Config,
}
use betterhook.Config.Raw.{
  RawIsolateTable, RawIsolate, RawJob, RawHook, RawMeta, RawPackage, RawConfig, take_if_some,
  take_unless_empty,
}

-- `u32::try_from(n).unwrap_or(u32::MAX)`
abbrev pub to_u32 : ℕ → ℕ
to_u32 n = if ltb n 4294967296 then n else 4294967295

abbrev is_some {ℓ} : {A : Type ℓ} → Option A → Bool
is_some none = false
is_some (some x) = true

-- A builtin's defaults under the fields that the user set.
unfoldable pub fill : BuiltinMeta → RawJob → RawJob
fill meta raw = record raw {
  run = take_if_some (some meta.run) raw.run;
  fix = take_if_some meta.fix raw.fix;
  glob = take_unless_empty meta.glob raw.glob;
  reads = take_unless_empty meta.reads raw.reads;
  writes = take_unless_empty meta.writes raw.writes;
  network = take_if_some (some meta.network) raw.network;
  concurrent_safe = take_if_some (some meta.concurrent_safe) raw.concurrent_safe;
}

unfoldable pub lower_target_dir : Option String → ToolPathScope
lower_target_dir none = ToolPathScope.per_worktree
lower_target_dir (some dir) =
    if str_eq dir "per-worktree" then ToolPathScope.per_worktree else ToolPathScope.path dir

-- `a.priority.cmp(&b.priority).then(a.name.cmp(&b.name))`
unfoldable pub compare_jobs : Job → Job → Ordering
compare_jobs a b = then_compare (compare_ℕ a.priority b.priority) (compare a.name b.name)

unfoldable pub job_leb : Job → Job → Bool
job_leb a b = elim (compare_jobs a b) [
  | Ordering.lt ↦ true
  | Ordering.eq ↦ true
  | Ordering.gt ↦ false
]

abbrev pub make_job :
    String → String → Option IsolateSpec → Option ℕ → ℕ → Option String → RawJob → Job
make_job name run isolate timeout priority builtin raw = record {
  name = name;
  run = run;
  fix = raw.fix;
  glob = raw.glob;
  exclude = raw.exclude;
  tags = raw.tags;
  skip = raw.skip;
  only = raw.only;
  env = raw.env;
  root = raw.root;
  stage_fixed = Option.get_or raw.stage_fixed false;
  isolate = isolate;
  timeout = timeout;
  interactive = Option.get_or raw.interactive false;
  fail_text = raw.fail_text;
  priority = priority;
  reads = raw.reads;
  writes = raw.writes;
  network = Option.get_or raw.network false;
  concurrent_safe = Option.get_or raw.concurrent_safe false;
  builtin = builtin;
}

-- The place of each name in `priority`; the last one counts for a name that stands there twice.
unfoldable pub index_from : ℕ → List String → BTreeMap ℕ → BTreeMap ℕ
index_from i [] index = index
index_from i (n ∷ names) index = index_from (suc i) names (insert n (to_u32 i) index)

unfoldable pub priority_index : List String → BTreeMap ℕ
priority_index names = index_from 0 names empty

unfoldable pub priority_for : List String → String → ℕ
priority_for names job_name =
    Option.get_or (get job_name (priority_index names)) (to_u32 (length names))

module _ (globset : Globset) (crates : Crates) where
  abbrev pub Outcome : Type 0 → Type 0
  Outcome A = Result (ConfigError crates) A

  unfoldable pub fill_from : String → String → Option BuiltinMeta → RawJob → Outcome RawJob
  fill_from name id none raw = err (
      invalid (
        then_text "job '" (
          then_text name (
            then_text "' references unknown builtin '"
              (then_text id "'; run `betterhook builtins list` for available builtins")))))
  fill_from name id (some meta) raw = ok (fill meta raw)

  unfoldable pub complete : String → Option String → RawJob → Outcome RawJob
  complete name none raw = ok raw
  complete name (some id) raw = fill_from name id (get_builtin id) raw

  unfoldable pub require_run : String → Option String → Outcome String
  require_run name none =
      err (invalid (then_text "job '" (then_text name "' is missing a 'run' command")))
  require_run name (some run) = ok run

  unfoldable pub lower_timeout : String → Option String → Outcome (Option ℕ)
  lower_timeout name none = ok none
  lower_timeout name (some input) = do
    time ← map_err (duration name input) (crates.parse_duration input)
    ok (some time)

  unfoldable pub lower_sharded : String → String → Option ℕ → Outcome IsolateSpec
  lower_sharded job name none = ok (IsolateSpec.tool name)
  lower_sharded job name (some zero) =
      err (invalid (then_text "job '" (then_text job "' isolate.slots must be > 0")))
  lower_sharded job name (some (suc n)) = ok (IsolateSpec.sharded name (suc n))

  unfoldable pub lower_named : String → Option String → Option ℕ → Outcome IsolateSpec
  lower_named job none slots =
      err (invalid (then_text "job '" (then_text job "' isolate must set either 'name' or 'tool'")))
  lower_named job (some name) slots = lower_sharded job name slots

  unfoldable pub lower_table : String → Option String → RawIsolateTable → Outcome IsolateSpec
  lower_table job (some tool) table =
      ok (IsolateSpec.tool_path tool (lower_target_dir table.target_dir))
  lower_table job none table = lower_named job table.name table.slots

  unfoldable pub lower_isolate : String → RawIsolate → Outcome IsolateSpec
  lower_isolate job (RawIsolate.name name) = ok (IsolateSpec.tool name)
  lower_isolate job (RawIsolate.table table) = lower_table job table.tool table

  unfoldable pub lower_isolates : String → Option RawIsolate → Outcome (Option IsolateSpec)
  lower_isolates job none = ok none
  lower_isolates job (some raw) = do isolate ← lower_isolate job raw; ok (some isolate)

  unfoldable pub check_globs : String → List String → Outcome (Unit {0})
  check_globs name [] = ok tt
  check_globs name (pat ∷ pats) = do
    glob ←
        map_err
          (λ e. invalid (
            then_text "job '" (
              then_text name (
                then_text "' has an invalid capability glob '"
                  (then_text pat (then_text "': " (globset.message e)))))))
          (globset.new pat)
    check_globs name pats

  unfoldable pub lower_job : String → RawJob → ℕ → Outcome Job
  lower_job name given priority = do
    raw ← complete name given.builtin given
    run ← require_run name raw.run
    timeout ← lower_timeout name raw.timeout
    isolate ← lower_isolates name raw.isolate
    checked ← check_globs name (raw.reads ++ raw.writes)
    ok (make_job name run isolate timeout priority given.builtin raw)

  -- The jobs in the order of their names; the first that fails ends it.
  unfoldable pub lower_jobs : List String → List (String × RawJob) → Outcome (List Job)
  lower_jobs priority [] = ok []
  lower_jobs priority ((job_name, raw) ∷ jobs) = do
    job ← lower_job job_name raw (priority_for priority job_name)
    rest ← lower_jobs priority jobs
    ok (job ∷ rest)

  unfoldable pub lower_hook : String → RawHook → Outcome Hook
  lower_hook name raw = do
    jobs ← lower_jobs raw.priority raw.jobs.0
    ok (record {
      name = name;
      parallel = Option.get_or raw.parallel false;
      parallel_explicit = is_some raw.parallel;
      fail_fast = Option.get_or raw.fail_fast false;
      fail_fast_explicit = is_some raw.fail_fast;
      parallel_limit = raw.parallel_limit;
      stash_untracked = Option.get_or raw.stash_untracked (str_eq name "pre-commit");
      stash_untracked_explicit = is_some raw.stash_untracked;
      jobs = sort_by job_leb jobs;
    })

  unfoldable pub lower_hooks : List (String × RawHook) → BTreeMap Hook → Outcome (BTreeMap Hook)
  lower_hooks [] hooks = ok hooks
  lower_hooks ((hook_name, raw) ∷ raws) hooks = do
    hook ← lower_hook hook_name raw
    lower_hooks raws (insert hook_name hook hooks)

  unfoldable pub lower_packages :
      List (String × RawPackage) → BTreeMap Package → Outcome (BTreeMap Package)
  lower_packages [] packages = ok packages
  lower_packages ((pkg_name, raw) ∷ raws) packages = do
    hooks ← lower_hooks raw.hooks.0 empty
    lower_packages raws
        (insert pkg_name (record { name = pkg_name; path = raw.path; hooks = hooks }) packages)

  unfoldable pub lower_version_req : Option String → Outcome (Option crates.VersionReq)
  lower_version_req none = ok none
  lower_version_req (some text) = do
    req ←
        map_err (λ e. invalid (then_text "meta.min_betterhook is not a valid semver req: " e))
          (crates.parse_version_req text)
    ok (some req)

  unfoldable pub lower_meta : Option RawMeta → Outcome (Meta crates.VersionReq)
  lower_meta none = ok (record { version = 1; min_betterhook = none })
  lower_meta (some m) = do
    req ← lower_version_req m.min_betterhook
    ok (record { version = Option.get_or m.version 1; min_betterhook = req })

  unfoldable pub lower : RawConfig → Outcome (Config crates.VersionReq)
  lower raw = do
    meta ← lower_meta raw.meta
    hooks ← lower_hooks raw.hooks.0 empty
    packages ← lower_packages raw.packages.0 empty
    ok (record { meta = meta; hooks = hooks; packages = packages })

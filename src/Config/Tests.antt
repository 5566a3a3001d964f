-- ===== src/Config/Tests.antt =====
-- Small configurations, and what the functions of the configuration make of them.
pub mod Instances
mod Extending
use Prim.Native.String
use betterhook.Base.{
  ℕ, String, ◌≡◌, refl, List, [], ◌∷◌, Option, none, some, Result, ok, err, BTreeMap, empty, get,
  true,
}
use betterhook.Config.Crates.{Crates, invalid}
use betterhook.Config.Schema.{IsolateSpec}
use betterhook.Config.Raw.{
  RawIsolate, RawIsolateTable, RawJob, RawHook, RawConfig, merge_config, merge_hook, merge_job,
  take_if_some, take_unless_empty,
}
use betterhook.Config.Lower.{lower_isolate, lower_table, lower_named, lower_sharded}
use betterhook.Runner.Tests.{literal}

-- No requirement and no duration is understood.
abbrev pub strict : Crates
strict = record {
  VersionReq = String;
  parse_version_req = λ text. err "no version";
  DurationError = String;
  parse_duration = λ text. err "no duration";
  FileError = String;
}

abbrev pub bare_job : RawJob
bare_job = record {
  run = none;
  fix = none;
  glob = [];
  exclude = [];
  tags = [];
  skip = none;
  only = none;
  env = empty;
  root = none;
  stage_fixed = none;
  isolate = none;
  timeout = none;
  interactive = none;
  fail_text = none;
  reads = [];
  writes = [];
  network = none;
  concurrent_safe = none;
  builtin = none;
}

abbrev pub lint_job : RawJob
lint_job = record bare_job { run = some "eslint ."; writes = "a.ts" ∷ [] }

abbrev pub fmt_job : RawJob
fmt_job = record bare_job { builtin = some "rustfmt" }

abbrev pub pre_commit : RawHook
pre_commit = record {
  parallel = some true;
  fail_fast = none;
  priority = "lint" ∷ [];
  stash_untracked = none;
  parallel_limit = none;
  jobs = (("fmt", fmt_job) ∷ ("lint", lint_job) ∷ [], refl);
}

abbrev pub with_hook : RawHook → RawConfig
with_hook hook = record {
  meta = none;
  extends = [];
  hooks = (("pre-commit", hook) ∷ [], refl);
  packages = empty;
}

-- An overlay that gives `lint` another command and nothing else.
abbrev pub override : RawConfig
override = with_hook (record {
  parallel = none;
  fail_fast = none;
  priority = [];
  stash_untracked = none;
  parallel_limit = none;
  jobs = (("lint", record bare_job { run = some "eslint --fix ." }) ∷ [], refl);
})

-- A sharded mutex without a permit is refused.
no_permits :
    lower_isolate literal strict "lint" (
      RawIsolate.table
        (record { name = some "db"; tool = none; slots = some 0; target_dir = none }))
    ≡ err (invalid "job 'lint' isolate.slots must be > 0")
unfolding lower_isolate lower_table lower_named lower_sharded
no_permits = refl

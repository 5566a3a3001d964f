-- ===== src/Config/Raw.antt =====
-- apps/betterhook/src/config/schema.rs: the configuration as it stands in a file, and how one file is
-- laid over another.
pub mod Laws
use betterhook.Base.{
  ℕ, String, Bool, true, false, List, [], ◌∷◌, Option, none, some, BTreeMap, empty, insert,
  merge_maps, is_empty, if◌then◌else◌,
}
use betterhook.Config.Schema.{FilePath}

pub record RawIsolateTable : Type 0 where
  pub name : Option String
  pub tool : Option String
  pub slots : Option ℕ
  pub target_dir : Option String

pub data RawIsolate : Type 0 where
  name : String → RawIsolate
  table : RawIsolateTable → RawIsolate

pub record RawJob : Type 0 where
  pub run : Option String
  pub fix : Option String
  pub glob : List String
  pub exclude : List String
  pub tags : List String
  pub skip : Option String
  pub only : Option String
  pub env : BTreeMap String
  pub root : Option FilePath
  pub stage_fixed : Option Bool
  pub isolate : Option RawIsolate
  pub timeout : Option String
  pub interactive : Option Bool
  pub fail_text : Option String
  pub reads : List String
  pub writes : List String
  pub network : Option Bool
  pub concurrent_safe : Option Bool
  pub builtin : Option String

pub record RawHook : Type 0 where
  pub parallel : Option Bool
  pub fail_fast : Option Bool
  pub priority : List String
  pub stash_untracked : Option Bool
  pub parallel_limit : Option ℕ
  pub jobs : BTreeMap RawJob

pub record RawMeta : Type 0 where
  pub version : Option ℕ
  pub min_betterhook : Option String

pub record RawPackage : Type 0 where
  pub path : FilePath
  pub hooks : BTreeMap RawHook

pub record RawConfig : Type 0 where
  pub meta : Option RawMeta
  pub extends : List FilePath
  pub hooks : BTreeMap RawHook
  pub packages : BTreeMap RawPackage

-- `RawConfig::default()`
abbrev pub default_config : RawConfig
default_config = record { meta = none; extends = []; hooks = empty; packages = empty }

abbrev pub v1_from_hooks : BTreeMap RawHook → RawConfig
v1_from_hooks hooks = record {
  meta = some (record { version = some 1; min_betterhook = none });
  extends = [];
  hooks = hooks;
  packages = empty;
}

-- `if overlay.field.is_some() { self.field = overlay.field; }`
unfoldable pub take_if_some {ℓ} : {A : Type ℓ} → Option A → Option A → Option A
take_if_some base none = base
take_if_some base (some x) = some x

-- `if !overlay.field.is_empty() { self.field = overlay.field; }`
unfoldable pub take_unless_empty {ℓ} : {A : Type ℓ} → List A → List A → List A
take_unless_empty base [] = base
take_unless_empty base (x ∷ xs) = x ∷ xs

-- `RawJob::merge_overlay`
unfoldable pub merge_job : RawJob → RawJob → RawJob
merge_job base overlay = record {
  run = take_if_some base.run overlay.run;
  fix = take_if_some base.fix overlay.fix;
  glob = take_unless_empty base.glob overlay.glob;
  exclude = take_unless_empty base.exclude overlay.exclude;
  tags = take_unless_empty base.tags overlay.tags;
  skip = take_if_some base.skip overlay.skip;
  only = take_if_some base.only overlay.only;
  env = merge_maps (λ _ v. v) base.env overlay.env;
  root = take_if_some base.root overlay.root;
  stage_fixed = take_if_some base.stage_fixed overlay.stage_fixed;
  isolate = take_if_some base.isolate overlay.isolate;
  timeout = take_if_some base.timeout overlay.timeout;
  interactive = take_if_some base.interactive overlay.interactive;
  fail_text = take_if_some base.fail_text overlay.fail_text;
  reads = take_unless_empty base.reads overlay.reads;
  writes = take_unless_empty base.writes overlay.writes;
  network = take_if_some base.network overlay.network;
  concurrent_safe = take_if_some base.concurrent_safe overlay.concurrent_safe;
  builtin = take_if_some base.builtin overlay.builtin;
}

-- `RawHook::merge_overlay`
unfoldable pub merge_hook : RawHook → RawHook → RawHook
merge_hook base overlay = record {
  parallel = take_if_some base.parallel overlay.parallel;
  fail_fast = take_if_some base.fail_fast overlay.fail_fast;
  priority = take_unless_empty base.priority overlay.priority;
  stash_untracked = take_if_some base.stash_untracked overlay.stash_untracked;
  parallel_limit = take_if_some base.parallel_limit overlay.parallel_limit;
  jobs = merge_maps merge_job base.jobs overlay.jobs;
}

-- `RawMeta::merge_overlay`
unfoldable pub merge_meta : RawMeta → RawMeta → RawMeta
merge_meta base overlay = record {
  version = take_if_some base.version overlay.version;
  min_betterhook = take_if_some base.min_betterhook overlay.min_betterhook;
}

unfoldable pub merge_metas : Option RawMeta → Option RawMeta → Option RawMeta
merge_metas base none = base
merge_metas none (some overlay) = some overlay
merge_metas (some base) (some overlay) = some (merge_meta base overlay)

-- The package's path is replaced; its hooks merge recursively.
unfoldable pub merge_package : RawPackage → RawPackage → RawPackage
merge_package base overlay = record {
  path = overlay.path;
  hooks = merge_maps merge_hook base.hooks overlay.hooks;
}

-- `RawConfig::merge_overlay`: the overlay's `extends` is ignored.
unfoldable pub merge_config : RawConfig → RawConfig → RawConfig
merge_config base overlay = record {
  meta = merge_metas base.meta overlay.meta;
  extends = base.extends;
  hooks = merge_maps merge_hook base.hooks overlay.hooks;
  packages = merge_maps merge_package base.packages overlay.packages;
}

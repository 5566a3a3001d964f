-- ===== src/Config/Schema.antt =====
-- apps/betterhook/src/config/schema.rs: the canonical configuration. A `PathBuf` is its text, and a
-- `Duration` its number of nanoseconds.
use betterhook.Base.{ℕ, String, Bool, List, Option, BTreeMap}

abbrev pub FilePath : Type 0
FilePath = String

pub data ToolPathScope : Type 0 where
  per_worktree : ToolPathScope
  path : FilePath → ToolPathScope

pub data IsolateSpec : Type 0 where
  tool : (name : String) → IsolateSpec
  sharded : (name : String) (slots : ℕ) → IsolateSpec
  tool_path : (tool : String) (target_dir : ToolPathScope) → IsolateSpec

pub record Job : Type 0 where
  pub name : String
  pub run : String
  pub fix : Option String
  pub glob : List String
  pub exclude : List String
  pub tags : List String
  pub skip : Option String
  pub only : Option String
  pub env : BTreeMap String
  pub root : Option FilePath
  pub stage_fixed : Bool
  pub isolate : Option IsolateSpec
  pub timeout : Option ℕ
  pub interactive : Bool
  pub fail_text : Option String
  pub priority : ℕ
  pub reads : List String
  pub writes : List String
  pub network : Bool
  pub concurrent_safe : Bool
  pub builtin : Option String

pub record Hook : Type 0 where
  pub name : String
  pub parallel : Bool
  pub parallel_explicit : Bool
  pub fail_fast : Bool
  pub fail_fast_explicit : Bool
  pub parallel_limit : Option ℕ
  pub stash_untracked : Bool
  pub stash_untracked_explicit : Bool
  pub jobs : List Job

-- `VersionReq` is the type of the `semver` crate.
pub record Meta (VersionReq : Type 0) : Type 0 where
  pub version : ℕ
  pub min_betterhook : Option VersionReq

pub record Package : Type 0 where
  pub name : String
  pub path : FilePath
  pub hooks : BTreeMap Hook

pub record Config (VersionReq : Type 0) : Type 0 where
  pub meta : Meta VersionReq
  pub hooks : BTreeMap Hook
  pub packages : BTreeMap Package

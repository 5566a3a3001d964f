-- ===== src/Config/Extends.antt =====
-- apps/betterhook/src/config/extends.rs and config/mod.rs: a configuration with what it extends and
-- with its local override. What is read from files is a parameter.
pub mod Ends
use text.Mathlib.Text.{◌==◌ as str_eq}
use betterhook.Base.{
  ℕ, zero, suc, String, List, [], ◌∷◌, Bool, true, false, ◌||◌, Option, none, some, Result, ok, err,
  ◌>>=◌, if◌then◌else◌,
}
use mathlib.Core.Option
use betterhook.Base.Search.{then_text}
use betterhook.Base.Paths.{is_absolute, join_path, parent_or_dot}
use betterhook.Config.Schema.{FilePath, Config}
use betterhook.Config.Raw.{RawConfig, default_config, merge_config}
use betterhook.Config.Crates.{Crates, ConfigError, invalid}
use betterhook.Config.Lower.{lower}
use betterhook.Globset.{Globset}

-- `fs::canonicalize`, `none` for an error; `Path::is_file`; `parse_file` of config/parse.rs.
pub record ConfigFiles (crates : Crates) : Type 0 where
  pub canonicalize : FilePath → Option FilePath
  pub is_file : FilePath → Bool
  pub parse_file : FilePath → Result (ConfigError crates) RawConfig

abbrev pub local_candidate_extensions : List String
local_candidate_extensions = "toml" ∷ "yml" ∷ "yaml" ∷ "json" ∷ "kdl" ∷ []

abbrev pub config_candidates : List String
config_candidates =
    "betterhook.toml" ∷ "betterhook.yml" ∷ "betterhook.yaml" ∷ "betterhook.json" ∷ "betterhook.kdl"
    ∷ []

-- The set of visited paths is the list of them.
abbrev pub Seen : Type 0
Seen = List FilePath

unfoldable pub is_seen : FilePath → Seen → Bool
is_seen p [] = false
is_seen p (q ∷ seen) = str_eq q p || is_seen p seen

-- `seen.remove(path)`
unfoldable pub remove_seen : FilePath → Seen → Seen
remove_seen p [] = []
remove_seen p (q ∷ seen) = let rest = remove_seen p seen in if str_eq q p then rest else q ∷ rest

module _ (crates : Crates) (files : ConfigFiles crates) where
  abbrev pub Outcome : Type 0 → Type 0
  Outcome A = Result (ConfigError crates) A

  -- `none` would mean that the fuel ran out.
  abbrev pub Visit : Type 0
  Visit = Option (Outcome (RawConfig × Seen))

  unfoldable pub canonical_of : FilePath → FilePath
  canonical_of path = Option.get_or (files.canonicalize path) path

  unfoldable pub circular : FilePath → ConfigError crates
  circular path = invalid (
      then_text "circular extends detected at "
        (then_text path (then_text " (visited via " (then_text (canonical_of path) ")"))))

  unfoldable pub multiple_found : FilePath → FilePath → ConfigError crates
  multiple_found prev candidate = invalid (
      then_text "multiple betterhook.local.* files found: "
        (then_text prev (then_text " and " candidate)))

  -- The loop of `find_local_override`.
  unfoldable pub find_override :
      FilePath → List String → Option FilePath → Outcome (Option FilePath)
  find_override dir [] found = ok found
  find_override dir (ext ∷ exts) found =
      let candidate = join_path dir (then_text "betterhook.local." ext) in
      if files.is_file candidate
      then elim found [
        | some prev ↦ err (multiple_found prev candidate)
        | none ↦ find_override dir exts (some candidate)
      ]
      else find_override dir exts found

  unfoldable pub find_local_override : FilePath → Outcome (Option FilePath)
  find_local_override main_path =
      find_override (parent_or_dot main_path) local_candidate_extensions none

  unfoldable pub merge_local : RawConfig → Option FilePath → Outcome RawConfig
  merge_local merged none = ok merged
  merge_local merged (some local_path) = do
    local ← files.parse_file local_path
    ok (merge_config merged local)

  unfoldable pub apply_override : Bool → FilePath → RawConfig → Outcome RawConfig
  apply_override apply_local path merged =
      if apply_local
      then (find_local_override path >>= λ found. merge_local merged found)
      else ok merged

  unfoldable pub absolute_from : FilePath → FilePath → FilePath
  absolute_from base_dir ext = if is_absolute ext then ext else join_path base_dir ext

  -- What follows the loop over the extends: the file's own content, the override, `seen.remove`.
  unfoldable pub finish_file : Bool → FilePath → RawConfig → RawConfig × Seen → Visit
  finish_file apply_local path main (merged, seen) = some (
      apply_override apply_local path (merge_config merged (record main { extends = [] }))
      >>= λ done. ok (done, remove_seen (canonical_of path) seen))

  -- What follows a recursive call, or the loop.
  unfoldable pub continue : (RawConfig × Seen → Visit) → Visit → Visit
  continue next none = none
  continue next (some (err e)) = some (err e)
  continue next (some (ok visited)) = next visited

  -- The loop over the extends.
  unfoldable pub visit_each :
      (FilePath → Seen → Visit) → FilePath → List FilePath → RawConfig × Seen → Visit
  visit_each visit base_dir [] (merged, seen) = some (ok (merged, seen))
  visit_each visit base_dir (ext ∷ exts) (merged, seen) =
      continue
        (λ visited. visit_each visit base_dir exts (merge_config merged visited.0, visited.1))
        (visit (absolute_from base_dir ext) seen)

  unfoldable pub visit_parsed :
      (FilePath → Seen → Visit) → Bool → FilePath → Seen → Outcome RawConfig → Visit
  visit_parsed visit apply_local path seen (err e) = some (err e)
  visit_parsed visit apply_local path seen (ok main) =
      continue (finish_file apply_local path main)
        (visit_each visit (parent_or_dot path) main.extends (default_config, seen))

  unfoldable pub resolve_impl : ℕ → Bool → FilePath → Seen → Visit
  resolve_impl zero apply_local path seen = none
  resolve_impl (suc fuel) apply_local path seen =
      let visit = resolve_impl fuel false in
      if is_seen (canonical_of path) seen
      then some (err (circular path))
      else visit_parsed visit apply_local path (canonical_of path ∷ seen) (files.parse_file path)

  unfoldable pub config_of : Visit → Option (Outcome RawConfig)
  config_of none = none
  config_of (some (err e)) = some (err e)
  config_of (some (ok visited)) = some (ok visited.0)

  unfoldable pub resolve : ℕ → FilePath → Option (Outcome RawConfig)
  resolve fuel path = config_of (resolve_impl fuel true path [])

  unfoldable pub first_file : FilePath → List String → Option FilePath
  first_file worktree [] = none
  first_file worktree (name ∷ names) =
      let rest = first_file worktree names in
      if files.is_file (join_path worktree name) then some (join_path worktree name) else rest

  unfoldable pub find_config_path : FilePath → Option FilePath
  find_config_path worktree = first_file worktree config_candidates

module _ (globset : Globset) (crates : Crates) (files : ConfigFiles crates) where
  unfoldable pub lower_resolved :
      Option (Result (ConfigError crates) RawConfig)
      → Option (Result (ConfigError crates) (Config crates.VersionReq))
  lower_resolved none = none
  lower_resolved (some r) = some (r >>= λ raw. lower globset crates raw)

  unfoldable pub load :
      ℕ → FilePath → Option (Result (ConfigError crates) (Config crates.VersionReq))
  load fuel path = lower_resolved (resolve crates files fuel path)

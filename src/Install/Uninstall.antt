-- ===== src/Install/Uninstall.antt =====
-- apps/betterhook/src/install/mod.rs, `uninstall_blocking`, with `uninstall_unit` of
-- daemon/lifecycle.rs.
pub mod Untouched
use betterhook.Base.{
  String, List, [], ◌∷◌, ◌++◌, Bool, true, false, Option, none, some, Result, ok, err, map_err,
  if◌then◌else◌,
}
use text.Mathlib.Text.{◌==◌ as str_eq}
use betterhook.Base.Paths.{join_path}
use betterhook.Base.Actions.{Action, pure, fail, ◌>>=◌, ◌>>◌}
use betterhook.Config.Schema.{FilePath}
use betterhook.Install.System.{
  System, InstalledManifest, InstallError, manifest_filename, Error, sha256_hex, on_path,
}
use betterhook.Install.Write.{InstallAction}

pub record UninstallReport : Type 0 where
  pub removed : List String
  pub skipped : List (String × String)

module _ (system : System) where
  unfoldable pub parse_manifest : FilePath → String → Result (Error system) InstalledManifest
  parse_manifest path bytes = map_err (λ e. InstallError.manifest path e) (system.from_slice bytes)

  -- `read_manifest`, where a missing file means that nothing is installed.
  unfoldable pub manifest_from :
      FilePath → FilePath → Result system.IoError String → Result (Error system) InstalledManifest
  manifest_from common_dir path (ok bytes) = parse_manifest path bytes
  manifest_from common_dir path (err source) =
      if system.is_not_found source
      then err (InstallError.not_installed common_dir manifest_filename)
      else err (InstallError.io path source)

  unfoldable pub add_removed : String → UninstallReport → UninstallReport
  add_removed hook_name report = record report { removed = hook_name ∷ report.removed }

  unfoldable pub add_skipped : String → String → UninstallReport → UninstallReport
  add_skipped hook_name why report = record report { skipped = (hook_name, why) ∷ report.skipped }

  -- The `match` on what is read at the target of a hook: what is added to the report.
  unfoldable pub remove_hook :
      FilePath
      → String
      → String
      → Result system.IoError String
      → InstallAction system (UninstallReport → UninstallReport)
  remove_hook target hook_name expected_sha (ok bytes) =
      if str_eq (sha256_hex system bytes) expected_sha
      then (on_path system target (system.remove_file target) >> pure (add_removed hook_name))
      else pure (add_skipped hook_name "hook was modified after install — leaving in place")
  remove_hook target hook_name expected_sha (err source) =
      if system.is_not_found source
      then pure (add_skipped hook_name "already removed")
      else fail (InstallError.io target source)

  -- The loop over the hooks of the manifest.
  unfoldable pub remove_hooks :
      FilePath → List (String × String) → InstallAction system UninstallReport
  remove_hooks hooks_dir [] s = pure (record { removed = []; skipped = [] }) s
  remove_hooks hooks_dir ((hook_name, expected_sha) ∷ hooks) s =
      let target = join_path hooks_dir hook_name in
      (remove_hook target hook_name expected_sha (system.read target s) >>= λ add.
      remove_hooks hooks_dir hooks >>= λ report. pure (add report))
        s

  -- The `match` of `lifecycle::uninstall_unit` on what `remove_file` gives.
  unfoldable pub unit_removed :
      Result system.IoError (Unit {0}) × system.S → Result system.IoError Bool × system.S
  unit_removed (ok done, s) = (ok true, s)
  unit_removed (err e, s) = if system.is_not_found e then (ok false, s) else (err e, s)

  -- `lifecycle::uninstall_unit`
  unfoldable pub uninstall_unit : FilePath → Action system.S system.IoError Bool
  uninstall_unit path s = unit_removed (system.remove_file path s)

  unfoldable pub remove_unit : Option FilePath → InstallAction system (Unit {0})
  remove_unit none = pure tt
  remove_unit (some unit_path) = on_path system unit_path (uninstall_unit unit_path) >> pure tt

  unfoldable pub uninstall_manifest :
      FilePath → FilePath → InstalledManifest → InstallAction system UninstallReport
  uninstall_manifest common_dir manifest_path m =
      remove_hooks (join_path common_dir "hooks") m.hooks.0 >>= λ report.
      remove_unit m.unit_path
      >> (on_path system manifest_path (system.remove_file manifest_path) >> pure report)

  unfoldable pub manifest_path_of : FilePath → FilePath
  manifest_path_of common_dir = join_path (join_path common_dir "betterhook") manifest_filename

  unfoldable pub with_manifest :
      FilePath
      → FilePath
      → Result (Error system) InstalledManifest
      → InstallAction system UninstallReport
  with_manifest common_dir manifest_path (err e) = fail e
  with_manifest common_dir manifest_path (ok m) = uninstall_manifest common_dir manifest_path m

  unfoldable pub uninstall_blocking : FilePath → InstallAction system UninstallReport
  uninstall_blocking common_dir s =
      let path = manifest_path_of common_dir in
      with_manifest common_dir path (manifest_from common_dir path (system.read path s)) s

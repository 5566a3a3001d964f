-- ===== src/Install/Write.antt =====
-- apps/betterhook/src/install/mod.rs: what an installation writes.
use betterhook.Base.{
  String, List, [], ◌∷◌, ◌++◌, Bool, Option, none, BTreeMap, empty, insert, map_err, if◌then◌else◌,
}
use betterhook.Base.Search.{then_text}
use betterhook.Base.Paths.{join_path}
use betterhook.Base.Actions.{Action, pure, ◌>>=◌, ◌>>◌}
use betterhook.Config.Schema.{FilePath}
use betterhook.Install.System
use betterhook.Install.System.{
  System, InstalledManifest, InstallError, manifest_filename, Error, sha256_hex, on_path,
}

-- install/wrapper.rs
unfoldable pub render_wrapper : String → String
render_wrapper betterhook_bin =
    then_text
      "#!/usr/bin/env sh\n# betterhook wrapper v1 — DO NOT EDIT\n# Managed by betterhook. If a commit is triggering this from an\n# unexpected place, run `betterhook status` to see which worktree\n# and which config is in play.\nset -e\nhook_name=\"$(basename \"$0\")\"\nworktree_root=\"$(git rev-parse --show-toplevel 2>/dev/null)\" || exit 0\nif [ -n \"${GIT_DIR:-}\" ]; then\n  exec \""
      (then_text betterhook_bin (
        then_text
          "\" __dispatch \\\n    --hook \"$hook_name\" \\\n    --worktree \"$worktree_root\" \\\n    --git-dir \"$GIT_DIR\" \\\n    -- \"$@\"\nfi\nexec \""
          (then_text betterhook_bin
            "\" __dispatch \\\n  --hook \"$hook_name\" \\\n  --worktree \"$worktree_root\" \\\n  -- \"$@\"\n")))

module _ (system : System) where
  abbrev pub InstallAction : Type 0 → Type 0
  InstallAction A = Action system.S (Error system) A

  unfoldable pub ensure_dir : FilePath → InstallAction (Unit {0})
  ensure_dir p = on_path system p (system.create_dir_all p)

  unfoldable pub write_executable : FilePath → String → InstallAction (Unit {0})
  write_executable path content =
      on_path system path (system.write path content)
      >> on_path system path (system.make_executable path)

  -- The loop of `write_wrappers`, with what it has collected.
  unfoldable pub write_each :
      FilePath
      → String
      → List String
      → BTreeMap String × List String
      → InstallAction (BTreeMap String × List String)
  write_each hooks_dir wrapper [] done = pure done
  write_each hooks_dir wrapper (hook_name ∷ hook_types) (installed_shas, installed_order) =
      write_executable (join_path hooks_dir hook_name) wrapper
      >> write_each hooks_dir wrapper hook_types (
        insert hook_name (sha256_hex system wrapper) installed_shas,
        installed_order ++ (hook_name ∷ []),
      )

  unfoldable pub write_wrappers :
      FilePath → String → List String → InstallAction (BTreeMap String × List String)
  write_wrappers hooks_dir bin_str hook_types =
      write_each hooks_dir (render_wrapper bin_str) hook_types (empty, [])

  unfoldable pub encode_manifest : FilePath → InstalledManifest → InstallAction String
  encode_manifest path m s =
      (map_err (λ e. InstallError.manifest path e) (system.to_vec_pretty m), s)

  unfoldable pub write_manifest : FilePath → InstalledManifest → InstallAction (Unit {0})
  write_manifest path m =
      encode_manifest path m >>= λ bytes. on_path system path (system.write path bytes)

  unfoldable pub unit_if_wanted : Bool → FilePath → InstallAction (Option FilePath)
  unit_if_wanted skip_unit socket_path =
      if skip_unit then pure none else on_path system socket_path (system.install_unit socket_path)

  unfoldable pub manifest_of : String → BTreeMap String → Option FilePath → InstalledManifest
  manifest_of bin_str installed_shas unit = record {
    wrapper_version = System.wrapper_version;
    betterhook_version = system.version;
    betterhook_bin = bin_str;
    hooks = installed_shas;
    previous_core_hooks_path = none;
    unit_path = unit;
  }

  unfoldable pub write_installation_metadata :
      FilePath → String → Bool → BTreeMap String → InstallAction (FilePath × Option FilePath)
  write_installation_metadata common_dir bin_str skip_unit installed_shas =
      let manifest_dir = join_path common_dir "betterhook" in
      let manifest_path = join_path manifest_dir manifest_filename in
      ensure_dir manifest_dir
      >> (unit_if_wanted skip_unit (join_path manifest_dir "sock") >>= λ unit.
          write_manifest manifest_path (manifest_of bin_str installed_shas unit)
          >> pure (manifest_path, unit))

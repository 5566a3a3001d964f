-- ===== src/Install/Tests.antt =====
-- An uninstallation in a small file system, where one of two hooks was edited.
use text.Mathlib.Text.{◌==◌ as str_eq}
use text.Mathlib.TextEquality.{eq_iff}
use betterhook.Base.{
  String, List, [], ◌∷◌, true, none, Result, ok, err, ◌≡◌, ◌≢◌, refl, arith, All, if◌then◌else◌,
}
use betterhook.Base.Paths.{join_path}
use betterhook.Config.Schema.{FilePath}
use betterhook.Install.System.{System, InstalledManifest, sha256_hex, hex_of, on_path}
use betterhook.Install.Uninstall.{
  parse_manifest, manifest_from, add_removed, add_skipped, remove_hook, remove_hooks, remove_unit,
  uninstall_manifest, manifest_path_of, with_manifest, uninstall_blocking,
}
use betterhook.Install.Uninstall.Untouched.{Laws, IsOther, uninstall_blocking_untouched}

abbrev Files : Type 0
Files = List (FilePath × String)

abbrev find_file : FilePath → Files → Result String String
find_file path [] = err "not found"
find_file path ((p, bytes) ∷ files) =
    let rest = find_file path files in if str_eq p path then ok bytes else rest

abbrev drop_file : FilePath → Files → Files
drop_file path [] = []
drop_file path ((p, bytes) ∷ files) =
    let rest = drop_file path files in if str_eq p path then rest else (p, bytes) ∷ rest

abbrev installed : InstalledManifest
installed = record {
  wrapper_version = 1;
  betterhook_version = "0.1";
  betterhook_bin = "/bin/betterhook";
  hooks = (("commit-msg", "sha256:ff") ∷ ("pre-commit", "sha256:ff") ∷ [], refl);
  previous_core_hooks_path = none;
  unit_path = none;
}

abbrev small : System
small = record {
  S = Files;
  IoError = String;
  JsonError = String;
  is_not_found = λ e. true;
  read = find_file;
  write = λ path bytes files. (ok tt, (path, bytes) ∷ files);
  make_executable = λ path files. (ok tt, files);
  create_dir_all = λ path files. (ok tt, files);
  remove_file = λ path files. (ok tt, drop_file path files);
  install_unit = λ path files. (ok none, files);
  digest = λ bytes. if str_eq bytes "wrapper" then 255 ∷ [] else 0 ∷ [];
  to_vec_pretty = λ m. ok "{}";
  from_slice = λ bytes. ok installed;
  version = "0.1";
}

find_file-drop_file :
    (path q : FilePath) (files : Files)
    → q ≢ path
    → find_file q (drop_file path files) ≡ find_file q files
find_file-drop_file path q [] d = refl
find_file-drop_file path q ((p, bytes) ∷ files) d =
    ground (arith, eq_iff p path, eq_iff p q, d, find_file-drop_file path q files d)

small-Laws : Laws small
small-Laws = record { read-remove_file = find_file-drop_file }

abbrev before : Files
before =
    ("/r/hooks/commit-msg", "wrapper")
    ∷ ("/r/hooks/pre-commit", "edited")
    ∷ ("/r/betterhook/installed.json", "{}")
    ∷ []

code : Unit {0}
unfolding sha256_hex hex_of on_path parse_manifest manifest_from add_removed add_skipped remove_hook
    remove_hooks remove_unit uninstall_manifest manifest_path_of with_manifest uninstall_blocking
    join_path
code = tt

uninstall_edited : uninstall_blocking small "/r" before ≡ (
  ok (record {
    removed = "commit-msg" ∷ [];
    skipped = ("pre-commit", "hook was modified after install — leaving in place") ∷ [];
  }),
  ("/r/hooks/pre-commit", "edited") ∷ [],
)
unfolding code
uninstall_edited = refl

manifest_read : find_file (manifest_path_of small "/r") before ≡ ok "{}"
unfolding code
manifest_read = refl

others :
    All
      (IsOther small (join_path "/r" "hooks") "/r/hooks/pre-commit" "edited")
      (("commit-msg", "sha256:ff") ∷ ("pre-commit", "sha256:ff") ∷ [])
unfolding code
others = (
  λ e. absurd (ground (arith, e, eq_iff "/r/hooks/commit-msg" "/r/hooks/pre-commit")),
  ((λ e s. absurd (ground (arith, s, eq_iff "sha256:00" "sha256:ff"))), tt),
)

not_manifest : "/r/hooks/pre-commit" ≢ manifest_path_of small "/r"
unfolding code
not_manifest = λ e. ground (arith, e, eq_iff "/r/hooks/pre-commit" "/r/betterhook/installed.json")

uninstall_blocking_untouched_example :
    find_file "/r/hooks/pre-commit" (uninstall_blocking small "/r" before).1 ≡ ok "edited"
uninstall_blocking_untouched_example =
    uninstall_blocking_untouched small small-Laws "/r/hooks/pre-commit" "edited" "/r" "{}" installed
      before manifest_read refl others not_manifest (λ e. cc e) refl

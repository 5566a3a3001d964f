-- ===== src/Install/Uninstall/Untouched.antt =====
-- An uninstallation leaves alone what it has not installed (install/mod.rs).
use text.Mathlib.Text.{◌==◌ as str_eq}
use text.Mathlib.TextEquality.{eq_iff}
use mathlib.Core.Path.{subst}
use betterhook.Base.{
  String, List, [], ◌∷◌, Bool, true, false, Option, none, some, Result, ok, err, ◌≡◌, ◌≢◌, refl,
  sym, ap, ◌∙◌, arith, All, Bool-cases, inl, inr, if◌then◌else◌,
}
use betterhook.Base.Paths.{join_path}
use betterhook.Base.Actions.{Action, and_then_keeps}
use betterhook.Config.Schema.{FilePath}
use betterhook.Install.System.{System, InstalledManifest, sha256_hex, on_path, Error}
use betterhook.Install.Uninstall.{
  parse_manifest, manifest_from, remove_hook, remove_hooks, unit_removed, uninstall_unit,
  remove_unit, uninstall_manifest, manifest_path_of, with_manifest, uninstall_blocking,
}

-- To remove a file changes no other file.
pub record Laws (system : System) : Type 0 where
  pub read-remove_file :
      (path q : FilePath) (s : system.S)
      → q ≢ path
      → system.read q (system.remove_file path s).1 ≡ system.read q s

-- The hook is not at the path, or the digest in the manifest is not that of these bytes.
abbrev pub IsOther : System → FilePath → FilePath → String → String × String → Type 0
IsOther system hooks_dir q bytes (hook_name, expected_sha) =
    join_path hooks_dir hook_name ≡ q → sha256_hex system bytes ≢ expected_sha

module _ (system : System) (laws : Laws system) (q : FilePath) (bytes : String) where
  abbrev Has : system.S → Type 0
  Has s = system.read q s ≡ ok bytes

  on_path-Has :
      {A : Type 0} (path : FilePath) (action : Action system.S system.IoError A) (s : system.S)
      → Has (action s).1
      → Has (on_path system path action s).1
  unfolding on_path
  on_path-Has path action s h = h

  remove_file-Has :
      (path : FilePath) (s : system.S) → q ≢ path → Has s → Has (system.remove_file path s).1
  remove_file-Has path s d h = laws.read-remove_file path q s d ∙ h

  if-Has :
      {A : Type 0} (b : Bool) (m n : Action system.S (Error system) A) (s : system.S)
      → (b ≡ true → Has (m s).1)
      → (b ≡ false → Has (n s).1)
      → Has ((if b then m else n) s).1
  if-Has true m n s h k = h refl
  if-Has false m n s h k = k refl

  remove_hook-Has :
      (target hook_name expected_sha : String) (r : Result system.IoError String) (s : system.S)
      → system.read target s ≡ r
      → (target ≡ q → sha256_hex system bytes ≢ expected_sha)
      → Has s
      → Has (remove_hook system target hook_name expected_sha r s).1
  unfolding remove_hook
  remove_hook-Has target hook_name expected_sha (ok b) s e other h =
      if-Has (str_eq (sha256_hex system b) expected_sha) _ _ s
        (λ t.
          let sha : sha256_hex system b ≡ expected_sha =
            ground (arith, t, eq_iff (sha256_hex system b) expected_sha) in
          let apart : q ≢ target = λ same.
            let read : system.read target s ≡ ok bytes = ap (λ p. system.read p s) (sym same) ∙ h in
            let equal : b ≡ bytes = cc (e, read) in
            other (sym same) (ap (sha256_hex system) (sym equal) ∙ sha) in
          and_then_keeps Has (on_path system target (system.remove_file target) s) _
            (on_path-Has target (system.remove_file target) s (remove_file-Has target s apart h))
            (λ a u k. k))
        (λ f. h)
  remove_hook-Has target hook_name expected_sha (err source) s e other h =
      if-Has (system.is_not_found source) _ _ s (λ t. h) (λ f. h)

  remove_hooks-Has :
      (hooks_dir : FilePath) (hooks : List (String × String)) (s : system.S)
      → All (IsOther system hooks_dir q bytes) hooks
      → Has s
      → Has (remove_hooks system hooks_dir hooks s).1
  unfolding remove_hooks
  remove_hooks-Has hooks_dir [] s others h = h
  remove_hooks-Has hooks_dir ((hook_name, expected_sha) ∷ hooks) s (other, others) h =
      let target = join_path hooks_dir hook_name in
      and_then_keeps Has (remove_hook system target hook_name expected_sha (system.read target s) s)
        _ (remove_hook-Has target hook_name expected_sha (system.read target s) s refl other h)
        (λ add t k.
          and_then_keeps Has (remove_hooks system hooks_dir hooks t) _
            (remove_hooks-Has hooks_dir hooks t others k) (λ report u l. l))

  unit_removed-Has :
      (p : Result system.IoError (Unit {0}) × system.S) → Has p.1 → Has (unit_removed system p).1
  unfolding unit_removed
  unit_removed-Has (ok done, s) h = h
  unit_removed-Has (err e, s) h = elim (Bool-cases (system.is_not_found e)) [
    | inl missing ↦ rw missing h
    | inr other ↦ rw other h
  ]

  remove_unit-Has :
      (unit : Option FilePath) (s : system.S)
      → unit ≢ some q
      → Has s
      → Has (remove_unit system unit s).1
  unfolding remove_unit uninstall_unit
  remove_unit-Has none s d h = h
  remove_unit-Has (some unit_path) s d h =
      and_then_keeps Has (on_path system unit_path (uninstall_unit system unit_path) s) _
        (on_path-Has unit_path (uninstall_unit system unit_path) s (
          unit_removed-Has (system.remove_file unit_path s)
            (laws.read-remove_file unit_path q s (λ e. d (ap some (sym e))) ∙ h)))
        (λ done t k. k)

  uninstall_manifest-Has :
      (common_dir path : FilePath) (m : InstalledManifest) (s : system.S)
      → All (IsOther system (join_path common_dir "hooks") q bytes) m.hooks.0
      → q ≢ path
      → m.unit_path ≢ some q
      → Has s
      → Has (uninstall_manifest system common_dir path m s).1
  unfolding uninstall_manifest
  uninstall_manifest-Has common_dir path m s others d u h =
      and_then_keeps Has (remove_hooks system (join_path common_dir "hooks") m.hooks.0 s) _
        (remove_hooks-Has (join_path common_dir "hooks") m.hooks.0 s others h)
        (λ report t k.
          and_then_keeps Has (remove_unit system m.unit_path t) _
            (remove_unit-Has m.unit_path t u k)
            (λ done v l.
              and_then_keeps Has (on_path system path (system.remove_file path) v) _
                (on_path-Has path (system.remove_file path) v (remove_file-Has path v d l))
                (λ gone w x. x)))

  -- A file is left as it is by an uninstallation, whatever becomes of that, if it is not the manifest
  -- or the unit of the daemon, and is no hook of the manifest whose recorded digest is that of its
  -- bytes: also a hook that was edited or replaced after the installation is left.
  pub uninstall_blocking_untouched :
      (common_dir : FilePath) (text : String) (m : InstalledManifest) (s : system.S)
      → system.read (manifest_path_of system common_dir) s ≡ ok text
      → system.from_slice text ≡ ok m
      → All (IsOther system (join_path common_dir "hooks") q bytes) m.hooks.0
      → q ≢ manifest_path_of system common_dir
      → m.unit_path ≢ some q
      → system.read q s ≡ ok bytes
      → system.read q (uninstall_blocking system common_dir s).1 ≡ ok bytes
  unfolding uninstall_blocking with_manifest manifest_from parse_manifest
  uninstall_blocking_untouched common_dir text m s r p others d u h =
      let path = manifest_path_of system common_dir in
      let found : manifest_from system common_dir path (system.read path s) ≡ ok m = cc (r, p) in
      subst (λ o. Has (with_manifest system common_dir path o s).1) (sym found)
        (uninstall_manifest-Has common_dir path m s others d u h)

-- ===== src/Install/System.antt =====
-- What the installer uses of the file system and of the sha2 and serde_json crates, with
-- `install_unit` of daemon/lifecycle.rs. `S` is the state of the file system. With it, install/manifest.rs,
-- install/wrapper.rs and the errors of install/mod.rs.
use Prim.Native.Nat.{◌/◌}
use betterhook.Base.{ℕ, ◌%◌, String, List, [], ◌∷◌, Bool, Option, Result, BTreeMap, map_err, get_or}
use betterhook.Base.Search.{then_text}
use betterhook.Base.Actions.{Action}
use betterhook.Config.Schema.{FilePath}

abbrev pub wrapper_version : ℕ
wrapper_version = 1

abbrev pub manifest_filename : String
manifest_filename = "installed.json"

pub record InstalledManifest : Type 0 where
  pub wrapper_version : ℕ
  pub betterhook_version : String
  pub betterhook_bin : String
  pub hooks : BTreeMap String
  pub previous_core_hooks_path : Option FilePath
  pub unit_path : Option FilePath

pub record System : Type 1 where
  pub S : Type 0
  pub IoError : Type 0
  pub JsonError : Type 0
  pub is_not_found : IoError → Bool
  pub read : FilePath → S → Result IoError String
  pub write : FilePath → String → S → Result IoError (Unit {0}) × S
  -- the permissions 0o755, after the file's own have been read
  pub make_executable : FilePath → S → Result IoError (Unit {0}) × S
  pub create_dir_all : FilePath → S → Result IoError (Unit {0}) × S
  pub remove_file : FilePath → S → Result IoError (Unit {0}) × S
  -- `lifecycle::install_unit` with the path of the socket
  pub install_unit : FilePath → S → Result IoError (Option FilePath) × S
  -- `Sha256::digest`: its bytes
  pub digest : String → List ℕ
  pub to_vec_pretty : InstalledManifest → Result JsonError String
  pub from_slice : String → Result JsonError InstalledManifest
  -- `crate::VERSION`
  pub version : String

-- `ConfigMissing`, `Git` and `ForeignCoreHooksPath` belong to `install`.
pub data InstallError (IoError JsonError : Type 0) : Type 0 where
  io : (path : FilePath) (source : IoError) → InstallError IoError JsonError
  not_installed : (common_dir : FilePath) (manifest : String) → InstallError IoError JsonError
  manifest : (path : FilePath) (source : JsonError) → InstallError IoError JsonError

abbrev hex_digits : List String
hex_digits =
    "0" ∷ "1" ∷ "2" ∷ "3" ∷ "4" ∷ "5" ∷ "6" ∷ "7" ∷ "8" ∷ "9" ∷ "a" ∷ "b" ∷ "c" ∷ "d" ∷ "e" ∷ "f"
    ∷ []

-- `{byte:02x}` of each byte
unfoldable pub hex_of : List ℕ → String
hex_of [] = ""
hex_of (byte ∷ bytes) =
    then_text (get_or "" hex_digits (byte / 16))
      (then_text (get_or "" hex_digits (byte % 16)) (hex_of bytes))

module _ (system : System) where
  abbrev pub Error : Type 0
  Error = InstallError system.IoError system.JsonError

  unfoldable pub sha256_hex : String → String
  sha256_hex bytes = then_text "sha256:" (hex_of (system.digest bytes))

  -- `map_err(|source| InstallError::Io { path, source })`
  unfoldable pub on_path :
      {A : Type 0} → FilePath → Action system.S system.IoError A → Action system.S Error A
  on_path path action s = let (r, s') = action s in (map_err (λ e. InstallError.io path e) r, s')

-- ===== src/Cache/Disk.antt =====
-- What the cache uses of the file system, of the blake3, serde_json, tempfile and which crates, and of
-- the environment. `S` is the state of the file system.
use betterhook.Base.{ℕ, String, List, Bool, Option, Result}
use betterhook.Config.Schema.{FilePath}

-- A `SystemTime`: before the epoch, or a number of nanoseconds since.
pub data SystemTime : Type 0 where
  before_epoch : SystemTime
  since_epoch : (nanos : ℕ) → SystemTime

pub record CachedInput : Type 0 where
  pub path : FilePath
  pub modified_at : Option SystemTime

-- An exit code is the bit pattern of the `i32`; events are of the type `Event`.
pub record CachedResult (Event : Type 0) : Type 0 where
  pub exit : ℕ
  pub events : List Event
  pub created_at : SystemTime
  pub inputs : List CachedInput

pub record Disk : Type 1 where
  pub S : Type 0
  pub IoError : Type 0
  pub JsonError : Type 0
  pub Event : Type 0
  -- `blake3::hash(data).to_hex()`, and the same of a file's bytes
  pub blake3 : String → String
  pub hash_contents : FilePath → S → Result IoError String
  pub read : FilePath → S → Result IoError String
  -- whether an error's kind is `NotFound`
  pub is_not_found : IoError → Bool
  pub is_file : FilePath → S → Bool
  -- `fs::metadata(path).and_then(|m| m.modified()).ok()`
  pub modified : FilePath → S → Option SystemTime
  pub create_dir_all : FilePath → S → Result IoError (Unit {0}) × S
  -- `NamedTempFile::new_in`: the path of the file
  pub new_temp_in : FilePath → S → Result IoError FilePath × S
  pub write : FilePath → String → S → Result IoError (Unit {0}) × S
  pub persist : FilePath → FilePath → S → Result IoError (Unit {0}) × S
  pub remove_file : FilePath → S → Result IoError (Unit {0}) × S
  pub to_vec : CachedResult Event → Result JsonError String
  pub from_slice : String → Result JsonError (CachedResult Event)
  -- `which::which(cmd).ok()`, `fs::canonicalize`, `$MISE_SHIMS_DIR`, and what `mise which` prints if it
  -- succeeds
  pub which : String → S → Option FilePath
  pub canonicalize : FilePath → S → Option FilePath
  pub mise_shims_dir : Option FilePath
  pub mise_which : String → S → Option String

-- ===== src/Cache/Store.antt =====
-- apps/betterhook/src/cache/store.rs: the entries on disk.
pub mod Laws
use mathlib.Core.Option
use Prim.Native.Nat.{◌/◌, ◌*◌}
use betterhook.Base.{
  String, map, Option, none, some, Bool, true, false, Result, ok, err, if◌then◌else◌, map_err,
}
use betterhook.Base.Paths.{join_path, parent_or_dot}
use betterhook.Base.Actions.{Action, pure, fail, ◌>>=◌, ◌>>◌}
use betterhook.Config.Schema.{FilePath}
use betterhook.Cache.Disk.{Disk, SystemTime, before_epoch, since_epoch, CachedInput, CachedResult}
use betterhook.Cache.Hash.{CacheKey, relative_path}

unfoldable pub cache_dir : FilePath → FilePath
cache_dir common_dir = join_path (join_path common_dir "betterhook") "cache"

pub data StoreError (IoError JsonError : Type 0) : Type 0 where
  io : (path : FilePath) (source : IoError) → StoreError IoError JsonError
  json : (path : FilePath) (source : JsonError) → StoreError IoError JsonError

-- A `Store` is its root.
pub record Store : Type 0 where
  pub root : FilePath

unfoldable pub new : FilePath → Store
new common_dir = record { root = cache_dir common_dir }

unfoldable pub entry_path : Store → CacheKey → FilePath
entry_path store key = join_path store.root (relative_path key)

-- `systemtime_as_secs` and `systemtime_opt_secs`: what a time is after it was written and read. A time
-- before the epoch becomes the epoch.
unfoldable pub in_secs : SystemTime → SystemTime
in_secs before_epoch = since_epoch 0
in_secs (since_epoch nanos) = since_epoch (nanos / 1000000000 * 1000000000)

unfoldable pub input_in_secs : CachedInput → CachedInput
input_in_secs input = record input { modified_at = Option.map in_secs input.modified_at }

unfoldable pub result_in_secs : {Event : Type 0} → CachedResult Event → CachedResult Event
result_in_secs r = record r {
  created_at = in_secs r.created_at;
  inputs = map input_in_secs r.inputs;
}

module _ (disk : Disk) where
  abbrev pub Error : Type 0
  Error = StoreError disk.IoError disk.JsonError

  abbrev pub Entry : Type 0
  Entry = CachedResult disk.Event

  unfoldable pub decode : FilePath → Result disk.JsonError Entry → Result Error (Option Entry)
  decode path (err source) = err (StoreError.json path source)
  decode path (ok result) = ok (some result)

  unfoldable pub get_bytes : FilePath → Result disk.IoError String → Result Error (Option Entry)
  get_bytes path (ok bytes) = decode path (disk.from_slice bytes)
  get_bytes path (err source) =
      if disk.is_not_found source then ok none else err (StoreError.io path source)

  unfoldable pub get : Store → CacheKey → disk.S → Result Error (Option Entry)
  get store key s = get_bytes (entry_path store key) (disk.read (entry_path store key) s)

  -- `?` on an input or output operation on a path.
  unfoldable pub on_path :
      {A : Type 0} → FilePath → Action disk.S disk.IoError A → Action disk.S Error A
  on_path path action s = let (r, s') = action s in (map_err (λ e. StoreError.io path e) r, s')

  unfoldable pub encode : FilePath → Entry → Action disk.S Error String
  encode path result s = (map_err (λ e. StoreError.json path e) (disk.to_vec result), s)

  -- The temporary file is written and put in the place of the entry.
  unfoldable pub replace_with : FilePath → String → FilePath → Action disk.S Error (Unit {0})
  replace_with path bytes tmp =
      on_path tmp (disk.write tmp bytes) >> on_path path (disk.persist tmp path)

  unfoldable pub put : Store → CacheKey → Entry → Action disk.S Error (Unit {0})
  put store key result =
      let path = entry_path store key in
      let parent = parent_or_dot path in
      on_path parent (disk.create_dir_all parent)
      >> (encode path result >>= λ bytes.
          on_path parent (disk.new_temp_in parent) >>= λ tmp. replace_with path bytes tmp)

  unfoldable pub removed : FilePath → Result disk.IoError (Unit {0}) → Result Error Bool
  removed path (ok done) = ok true
  removed path (err source) =
      if disk.is_not_found source then ok false else err (StoreError.io path source)

  unfoldable pub remove : Store → CacheKey → Action disk.S Error Bool
  remove store key s =
      let path = entry_path store key in
      let (r, s') = disk.remove_file path s in (removed path r, s')

-- ===== src/Cache/Lookup.antt =====
-- apps/betterhook/src/cache/lookup.rs: the key of a job on its files, and the freshness of an entry.
pub mod Laws
use Prim.Native.Nat.{◌/◌, Ordering}
use Prim.Native.String.{compare}
use text.Mathlib.Text.{◌==◌ as str_eq}
use betterhook.Base.{
  ℕ, String, List, [], ◌∷◌, ◌++◌, Bool, true, false, not, ◌&&◌, ◌||◌, Option, none, some, Result,
  ok, err, ◌>>=◌, map_err, ltb, ◌==◌, if◌then◌else◌, is_empty,
}
use betterhook.Base.Search.{then_text}
use betterhook.Base.Sorting.{sort_by}
use betterhook.Base.Paths.{components}
use betterhook.Base.Actions.{Action}
use betterhook.Config.Schema.{FilePath, Job}
use betterhook.Cache.Disk.{Disk, SystemTime, before_epoch, since_epoch, CachedInput, CachedResult}
use betterhook.Cache.Hash.{CacheKey, hash_bytes, hash_file, args_hash_from_fields}
use betterhook.Cache.ToolHash.{Memo, resolve_tool_hash}
use betterhook.Cache.Store.{StoreError, Error, Entry, new, get, put}

-- The order of `Component`: the root, `.`, `..`, then the names.
abbrev rank : String → ℕ
rank part =
    if str_eq part "/" then 0 else if str_eq part "." then 1 else if str_eq part ".." then 2 else 3

abbrev part_compare : String → String → Ordering
part_compare a b =
    if rank a == rank b
    then compare a b
    else if ltb (rank a) (rank b)
    then Ordering.lt
    else Ordering.gt

abbrev parts_leb : List String → List String → Bool
parts_leb [] bs = true
parts_leb (a ∷ rest) [] = false
parts_leb (a ∷ rest) (b ∷ bs) = elim (part_compare a b) [
  | Ordering.lt ↦ true
  | Ordering.eq ↦ parts_leb rest bs
  | Ordering.gt ↦ false
]

-- `a <= b` of paths, by their components
unfoldable pub path_leb : FilePath → FilePath → Bool
path_leb a b = parts_leb (components a) (components b)

-- `duration_since(UNIX_EPOCH)` in whole seconds
unfoldable pub as_secs : SystemTime → Option ℕ
as_secs before_epoch = none
as_secs (since_epoch nanos) = some (nanos / 1000000000)

abbrev pub same_secs : Option ℕ → Option ℕ → Bool
same_secs (some current) (some snapshot) = current == snapshot
same_secs (some current) none = false
same_secs none snapshot = false

abbrev pub same_time : Option SystemTime → Option SystemTime → Bool
same_time (some current) (some snapshot) = same_secs (as_secs current) (as_secs snapshot)
same_time (some current) none = false
same_time none snapshot = false

module _ (disk : Disk) where
  unfoldable pub contents_or_missing : FilePath → disk.S → Result disk.IoError String
  contents_or_missing path s = if disk.is_file path s then hash_file disk path s else ok "<missing>"

  -- The loop over the sorted paths: the bytes that the hasher is fed.
  unfoldable pub fed_files : List FilePath → disk.S → Result disk.IoError String
  fed_files [] s = ok ""
  fed_files (path ∷ paths) s = contents_or_missing path s >>= λ contents.
      fed_files paths s >>= λ rest.
      ok (then_text path (then_text "\0" (then_text contents (then_text "\0" rest))))

  unfoldable pub hash_file_set : List FilePath → disk.S → Result disk.IoError String
  hash_file_set files s = fed_files (sort_by path_leb files) s >>= λ bytes. ok (disk.blake3 bytes)

  unfoldable pub tool_hash_proxy : String → String
  tool_hash_proxy run = hash_bytes disk run

  unfoldable pub args_hash_from_job : Job → String
  args_hash_from_job job = args_hash_from_fields disk job

  -- The key, by the tool hashes known so far.
  unfoldable pub derive_key : Job → List FilePath → disk.S → Memo → Result disk.IoError CacheKey
  derive_key job files s memo = hash_file_set files s >>= λ content. ok (record {
    content = content;
    tool = (resolve_tool_hash disk job.run s memo).0;
    args = args_hash_from_job job;
  })

  unfoldable pub snapshot_inputs : List FilePath → disk.S → List CachedInput
  snapshot_inputs [] s = []
  snapshot_inputs (p ∷ files) s =
      record { path = p; modified_at = disk.modified p s } ∷ snapshot_inputs files s

  unfoldable pub inputs_fresh : List CachedInput → disk.S → Bool
  inputs_fresh [] s = true
  inputs_fresh (input ∷ cached) s =
      same_time (disk.modified input.path s) input.modified_at && inputs_fresh cached s

  unfoldable pub if_fresh : Entry disk → disk.S → Option (Entry disk)
  if_fresh result s =
      if not (is_empty result.inputs) && not (inputs_fresh result.inputs s)
      then none
      else some result

  unfoldable pub fresh_entry : Option (Entry disk) → disk.S → Option (Entry disk)
  fresh_entry none s = none
  fresh_entry (some result) s = if_fresh result s

  unfoldable pub lookup_blocking :
      FilePath → Job → List FilePath → disk.S → Memo → Result (Error disk) (Option (Entry disk))
  lookup_blocking common_dir job files s memo =
      map_err (λ e. StoreError.io common_dir e) (derive_key job files s memo) >>= λ key.
      get disk (new common_dir) key s >>= λ found. ok (fresh_entry found s)

  unfoldable pub put_at :
      FilePath
      → Result disk.IoError CacheKey
      → Entry disk
      → disk.S
      → Result (Error disk) (Unit {0}) × disk.S
  put_at common_dir (err e) result s = (err (StoreError.io common_dir e), s)
  put_at common_dir (ok key) result s = put disk (new common_dir) key result s

  unfoldable pub store_blocking :
      FilePath
      → Job
      → List FilePath
      → Entry disk
      → disk.S
      → Memo
      → Result (Error disk) (Unit {0}) × disk.S
  store_blocking common_dir job files result s memo =
      put_at common_dir (derive_key job files s memo) result s

-- ===== src/Cache/Store/Laws.antt =====
-- What is put in the store is found there (cache/store.rs).
use betterhook.Base.{String, some, Result, ok, err, map_err, ◌≡◌, ap, ◌∙◌}
use betterhook.Base.Paths.{parent_or_dot}
use betterhook.Base.Actions.{Action, ◌>>=◌, and_then-eq-ok}
use betterhook.Config.Schema.{FilePath}
use betterhook.Cache.Disk.{Disk, CachedResult}
use betterhook.Cache.Hash.{CacheKey}
use betterhook.Cache.Store.{
  Store, StoreError, Entry, entry_path, decode, get_bytes, get, on_path, encode, replace_with, put,
  result_in_secs,
}

-- What is documented of files and of serde_json: a file that was written and then moved over a path is
-- what is read there, and an entry is read back as it was written, its times in seconds.
pub record Laws (disk : Disk) : Type 0 where
  pub read-persist :
      (tmp path : FilePath) (bytes : String) (s t u : disk.S)
      → disk.write tmp bytes s ≡ (ok tt, t)
      → disk.persist tmp path t ≡ (ok tt, u)
      → disk.read path u ≡ ok bytes
  pub from_slice-to_vec :
      (r : CachedResult disk.Event) (bytes : String)
      → disk.to_vec r ≡ ok bytes
      → disk.from_slice bytes ≡ ok (result_in_secs r)

map_err-ok : {E F A : Type 0} (f : E → F) (r : Result E A) (a : A) → map_err f r ≡ ok a → r ≡ ok a
map_err-ok f (err e) a h = cc h
map_err-ok f (ok b) a h = cc h

module _ (disk : Disk) where
  on_path-ok :
      {A : Type 0} (path : FilePath) (action : Action disk.S disk.IoError A) (s t : disk.S) (a : A)
      → on_path disk path action s ≡ (ok a, t)
      → action s ≡ (ok a, t)
  unfolding on_path
  on_path-ok path action s t a h = λ i. (
    map_err-ok (λ e. StoreError.io path e) (action s).0 a (ap (λ p. p.0) h) i,
    (ap (λ p. p.1) h) i,
  )

  module _ (laws : Laws disk) where
    replace_with-get :
        (path tmp : FilePath) (bytes : String) (r : Entry disk) (s u : disk.S)
        → replace_with disk path bytes tmp s ≡ (ok tt, u)
        → disk.to_vec r ≡ ok bytes
        → get_bytes disk path (disk.read path u) ≡ ok (some (result_in_secs r))
    unfolding replace_with get_bytes decode
    replace_with-get path tmp bytes r s u h e =
        let persisted = λ (_ : Unit {0}). on_path disk path (disk.persist tmp path) in
        let (w, t, wrote, moved) =
          and_then-eq-ok (on_path disk tmp (disk.write tmp bytes) s) persisted tt u h in
        let read =
          laws.read-persist tmp path bytes s t u
            (on_path-ok tmp (disk.write tmp bytes) s t tt wrote)
            (on_path-ok path (disk.persist tmp path) t u tt moved) in
        ap (get_bytes disk path) read ∙ ap (decode disk path) (laws.from_slice-to_vec r bytes e)

    -- An entry that was put in the store without an error is got from it, with its times in seconds.
    pub get-put :
        (store : Store) (key : CacheKey) (r : Entry disk) (s u : disk.S)
        → put disk store key r s ≡ (ok tt, u)
        → get disk store key u ≡ ok (some (result_in_secs r))
    unfolding put get encode
    get-put store key r s u h =
        let path = entry_path store key in
        let parent = parent_or_dot path in
        let moved = λ (bytes : String) (tmp : FilePath). replace_with disk path bytes tmp in
        let named =
          λ (bytes : String). on_path disk parent (disk.new_temp_in parent) >>= moved bytes in
        let encoded = encode disk path r >>= named in
        let (d, s1, e1, h1) =
          and_then-eq-ok (on_path disk parent (disk.create_dir_all parent) s) (λ _. encoded) tt u
            h in
        let (bytes, s2, e2, h2) = and_then-eq-ok (encode disk path r s1) named tt u h1 in
        let (tmp, s3, e3, h3) =
          and_then-eq-ok (on_path disk parent (disk.new_temp_in parent) s2) (moved bytes) tt u h2 in
        replace_with-get path tmp bytes r s3 u h3
          (map_err-ok (λ e. StoreError.json path e) (disk.to_vec r) bytes (ap (λ p. p.0) e2))

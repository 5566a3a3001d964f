-- ===== src/Cache/Lookup/Laws.antt =====
-- What a lookup finds after a store, and that it finds no stale entry (cache/lookup.rs).
use Prim.Native.Nat.{◌/◌}
use mathlib.Core.Path.{subst}
use betterhook.Base.{
  ℕ, ◌⊎◌, List, [], ◌∷◌, true, not, ◌&&◌, Option, none, some, Result, ok, map_err, ◌>>=◌, >>=-eq-ok,
  ◌≡◌, refl, inl, inr, arith, is_empty, All, &&-true, Bool-cases,
}
use betterhook.Config.Schema.{FilePath, Job}
use betterhook.Cache.Disk.{Disk, SystemTime, before_epoch, since_epoch, CachedInput}
use betterhook.Cache.Hash.{CacheKey}
use betterhook.Cache.ToolHash.{Memo}
use betterhook.Cache.Store.{StoreError, Error, Entry, new, get, put, result_in_secs}
use betterhook.Cache.Store.Laws.{Laws, get-put}
use betterhook.Cache.Lookup.{
  as_secs, same_time, derive_key, inputs_fresh, if_fresh, fresh_entry, lookup_blocking, put_at,
  store_blocking,
}

same_time-true :
    (current snapshot : Option SystemTime)
    → same_time current snapshot ≡ true
    → (now : ℕ) × (before : ℕ) × (current ≡ some (since_epoch now))
      × (snapshot ≡ some (since_epoch before))
      × (now / 1000000000 ≡ before / 1000000000)
unfolding as_secs
same_time-true none snapshot h = cc h
same_time-true (some before_epoch) none h = cc h
same_time-true (some (since_epoch a)) none h = cc h
same_time-true (some before_epoch) (some b) h = cc h
same_time-true (some (since_epoch a)) (some before_epoch) h = cc h
same_time-true (some (since_epoch a)) (some (since_epoch b)) h =
    (a, b, refl, refl, ground (arith, h))

module _ (disk : Disk) where
  -- The file was changed in the same second as the snapshot says, after the epoch.
  abbrev pub IsFresh : disk.S → CachedInput → Type 0
  IsFresh s input =
      (now : ℕ) × (then_ : ℕ) × (disk.modified input.path s ≡ some (since_epoch now))
      × (input.modified_at ≡ some (since_epoch then_))
      × (now / 1000000000 ≡ then_ / 1000000000)

  inputs_fresh-IsFresh :
      (cached : List CachedInput) (s : disk.S)
      → inputs_fresh disk cached s ≡ true
      → All (IsFresh s) cached
  unfolding inputs_fresh
  inputs_fresh-IsFresh [] s h = tt
  inputs_fresh-IsFresh (input ∷ cached) s h =
      let (now, rest) =
        &&-true (same_time (disk.modified input.path s) input.modified_at)
          (inputs_fresh disk cached s) h in
      (
        same_time-true (disk.modified input.path s) input.modified_at now,
        inputs_fresh-IsFresh cached s rest,
      )

  stale_test :
      (inputs : List CachedInput) (s : disk.S)
      → not (is_empty inputs) && not (inputs_fresh disk inputs s) ≡ not (inputs_fresh disk inputs s)
  unfolding inputs_fresh
  stale_test [] s = refl
  stale_test (input ∷ inputs) s = refl

  if_fresh-some :
      (result r : Entry disk) (s : disk.S)
      → if_fresh disk result s ≡ some r
      → (result ≡ r) × (inputs_fresh disk result.inputs s ≡ true)
  unfolding if_fresh
  if_fresh-some result r s h = elim (Bool-cases (inputs_fresh disk result.inputs s)) [
    | inl fresh ↦ (cc (h, fresh, stale_test result.inputs s), fresh)
    | inr stale ↦ absurd (cc (h, stale, stale_test result.inputs s))
  ]

  fresh_entry-IsFresh :
      (found : Option (Entry disk)) (r : Entry disk) (s : disk.S)
      → fresh_entry disk found s ≡ some r
      → All (IsFresh s) r.inputs
  unfolding fresh_entry
  fresh_entry-IsFresh none r s h = cc h
  fresh_entry-IsFresh (some result) r s h =
      let (same, fresh) = if_fresh-some result r s h in
      subst (λ q. All (IsFresh s) q.inputs) same (inputs_fresh-IsFresh result.inputs s fresh)

  -- A lookup finds no stale entry: each file that an entry found by it has recorded was changed, now and
  -- when it was recorded, in the same second, and is there.
  pub lookup_blocking-IsFresh :
      (common_dir : FilePath) (job : Job) (files : List FilePath) (s : disk.S) (memo : Memo)
      (r : Entry disk)
      → lookup_blocking disk common_dir job files s memo ≡ ok (some r)
      → All (IsFresh s) r.inputs
  unfolding lookup_blocking
  lookup_blocking-IsFresh common_dir job files s memo r h =
      let answer : Option (Entry disk) → Result (Error disk) (Option (Entry disk)) =
        λ found. ok (fresh_entry disk found s) in
      let found_at = λ (key : CacheKey). get disk (new common_dir) key s >>= answer in
      let keyed : Result (Error disk) CacheKey =
        map_err (λ e. StoreError.io common_dir e) (derive_key disk job files s memo) in
      let (key, k, h1) = >>=-eq-ok keyed found_at h in
      let (found, g, h2) = >>=-eq-ok (get disk (new common_dir) key s) answer h1 in
      fresh_entry-IsFresh found r s (cc h2)

  same_time-IsFresh :
      (current snapshot : Option SystemTime) (now before : ℕ)
      → current ≡ some (since_epoch now)
      → snapshot ≡ some (since_epoch before)
      → now / 1000000000 ≡ before / 1000000000
      → same_time current snapshot ≡ true
  unfolding as_secs
  same_time-IsFresh current snapshot now before e f h = rw (e, f) (ground (arith, h))

  IsFresh-inputs_fresh :
      (cached : List CachedInput) (s : disk.S)
      → All (IsFresh s) cached
      → inputs_fresh disk cached s ≡ true
  unfolding inputs_fresh
  IsFresh-inputs_fresh [] s h = refl
  IsFresh-inputs_fresh (input ∷ cached) s ((now, before, e, f, g), h) = cc (
    same_time-IsFresh (disk.modified input.path s) input.modified_at now before e f g,
    IsFresh-inputs_fresh cached s h,
  )

  if_fresh-cases :
      (result : Entry disk) (s : disk.S)
      → All (IsFresh s) result.inputs × (if_fresh disk result s ≡ some result)
        ⊎ (¬ All (IsFresh s) result.inputs) × (if_fresh disk result s ≡ none)
  unfolding if_fresh
  if_fresh-cases result s = elim (Bool-cases (inputs_fresh disk result.inputs s)) [
    | inl fresh ↦
        inl (inputs_fresh-IsFresh result.inputs s fresh, cc (fresh, stale_test result.inputs s))
    | inr stale ↦ inr (
      λ all. absurd (cc (stale, IsFresh-inputs_fresh result.inputs s all)),
      cc (stale, stale_test result.inputs s),
    )
  ]

  -- What was stored without an error, under the key that the job has at the lookup too: if each file
  -- that the entry has recorded was changed in the second that the entry says, the lookup finds the
  -- entry with its times in seconds; otherwise it finds none.
  pub lookup_blocking-store_blocking :
      (laws : Laws disk) (common_dir : FilePath) (job : Job) (files : List FilePath) (s u : disk.S)
      (memo memo' : Memo) (r : Entry disk) (key : CacheKey)
      → derive_key disk job files s memo ≡ ok key
      → store_blocking disk common_dir job files r s memo ≡ (ok tt, u)
      → derive_key disk job files u memo' ≡ ok key
      → All (IsFresh u) (result_in_secs r).inputs
          × (lookup_blocking disk common_dir job files u memo' ≡ ok (some (result_in_secs r)))
        ⊎ (¬ All (IsFresh u) (result_in_secs r).inputs)
          × (lookup_blocking disk common_dir job files u memo' ≡ ok none)
  unfolding lookup_blocking store_blocking put_at fresh_entry
  lookup_blocking-store_blocking laws common_dir job files s u memo memo' r key k h k' =
      let stored : put disk (new common_dir) key r s ≡ (ok tt, u) = cc (k, h) in
      let found = get-put disk laws (new common_dir) key r s u stored in
      elim (if_fresh-cases (result_in_secs r) u) [
        | inl (fresh, e) ↦ inl (fresh, cc (k', found, e))
        | inr (stale, e) ↦ inr (stale, cc (k', found, e))
      ]

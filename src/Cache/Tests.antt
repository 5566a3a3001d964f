-- ===== src/Cache/Tests.antt =====
-- The cache over a small file system: a list of files, the newest first.
use text.Mathlib.Text.{◌==◌ as str_eq}
use text.Mathlib.TextEquality.{eq_iff}
use text.Mathlib.TextPositions.{eq_refl}
use betterhook.Base.{
  ◌⊎◌, String, List, [], ◌∷◌, map, Bool, true, false, ◌&&◌, Option, none, some, Result, ok, err,
  ◌≡◌, refl, sym, ap, ◌∙◌, arith, ◌==◌, if◌then◌else◌, is_empty, All, &&-true,
}
use betterhook.Base.Search.{then_text, contains_text, strip_prefix, is_free_of}
use betterhook.Base.Sorting.{sort_by, insert_by}
use betterhook.Base.Paths.{join_path, components, parent_or_dot}
use betterhook.Config.Schema.{FilePath, Job}
use betterhook.Cache.Disk.{Disk, SystemTime, before_epoch, since_epoch, CachedInput, CachedResult}
use betterhook.Cache.Hash.{
  CacheKey, fed, fields, fix_field, env_field, hash_bytes, hash_file, args_hash_from_fields,
  relative_path, first_and_rest,
}
use betterhook.Cache.Hash.Fields.{IsNulFree, env_text, fed-fields}
use betterhook.Cache.ToolHash.{
  resolve_tool_hash, first_token, word_at, memo_get, hash_of_tool, compute_tool_hash,
  resolve_on_path, fallback, remember,
}
use betterhook.Cache.Store.{
  new, cache_dir, entry_path, get, get_bytes, decode, put, on_path, encode, replace_with, in_secs,
  input_in_secs, result_in_secs,
}
use betterhook.Cache.Store.Laws.{Laws}
use betterhook.Cache.Lookup.{
  path_leb, as_secs, contents_or_missing, fed_files, hash_file_set, derive_key, inputs_fresh,
  if_fresh, fresh_entry, lookup_blocking, put_at, store_blocking, args_hash_from_job,
}
use betterhook.Cache.Lookup.Laws.{IsFresh, lookup_blocking-IsFresh, lookup_blocking-store_blocking}
use betterhook.Runner.Tests.{stub}

abbrev Files : Type 0
Files = List (FilePath × String)

abbrev find_file : FilePath → Files → Option String
find_file path [] = none
find_file path ((p, bytes) ∷ files) = if str_eq p path then some bytes else find_file path files

abbrev or_not_found : Option String → Result String String
or_not_found none = err "not found"
or_not_found (some bytes) = ok bytes

abbrev found : Option String → Bool
found none = false
found (some bytes) = true

abbrev persisted : FilePath → Option String → Files → Result String (Unit {0}) × Files
persisted path none files = (err "not found", files)
persisted path (some bytes) files = (ok tt, (path, bytes) ∷ files)

abbrev sample_inputs : List CachedInput
sample_inputs = record { path = "a.ts"; modified_at = some (since_epoch 5000000000) } ∷ []

abbrev sample : CachedResult String
sample = record { exit = 0; events = []; created_at = since_epoch 0; inputs = sample_inputs }

abbrev is_five : Option SystemTime → Bool
is_five none = false
is_five (some before_epoch) = false
is_five (some (since_epoch n)) = n == 5000000000

abbrev are_sample : List CachedInput → Bool
are_sample [] = false
are_sample (i ∷ []) = str_eq i.path "a.ts" && is_five i.modified_at
are_sample (i ∷ j ∷ is_) = false

abbrev is_zero : SystemTime → Bool
is_zero before_epoch = false
is_zero (since_epoch n) = n == 0

-- Only the one entry is written.
abbrev written : CachedResult String → Result String String
written r =
    if r.exit == 0 && (is_empty r.events && (is_zero r.created_at && are_sample r.inputs))
    then ok "{}"
    else err "another entry"

abbrev files_disk : Disk
files_disk = record {
  S = Files;
  IoError = String;
  JsonError = String;
  Event = String;
  blake3 = λ bytes. bytes;
  hash_contents = λ path files. or_not_found (find_file path files);
  read = λ path files. or_not_found (find_file path files);
  is_not_found = λ e. true;
  is_file = λ path files. found (find_file path files);
  modified = λ path files. if str_eq path "a.ts" then some (since_epoch 5000000009) else none;
  create_dir_all = λ path files. (ok tt, files);
  new_temp_in = λ path files. (ok (then_text path "/.tmp"), files);
  write = λ path bytes files. (ok tt, (path, bytes) ∷ files);
  persist = λ tmp path files. persisted path (find_file tmp files) files;
  remove_file = λ path files. (ok tt, files);
  to_vec = written;
  from_slice = λ bytes. ok sample;
  which = λ cmd files. none;
  canonicalize = λ path files. none;
  mise_shims_dir = none;
  mise_which = λ tool files. none;
}

is_five-true : (t : Option SystemTime) → is_five t ≡ true → t ≡ some (since_epoch 5000000000)
is_five-true none h = cc h
is_five-true (some before_epoch) h = cc h
is_five-true (some (since_epoch n)) h = ap (λ k. some (since_epoch k)) (ground (arith, h))

are_sample-true : (inputs : List CachedInput) → are_sample inputs ≡ true → inputs ≡ sample_inputs
are_sample-true [] h = cc h
are_sample-true (i ∷ []) h =
    let (p, t) = &&-true (str_eq i.path "a.ts") (is_five i.modified_at) h in
    let path : i.path ≡ "a.ts" = ground (arith, p, eq_iff i.path "a.ts") in
    let time = is_five-true i.modified_at t in
    λ k. record { path = path k; modified_at = time k } ∷ []
are_sample-true (i ∷ j ∷ is_) h = cc h

is_zero-true : (t : SystemTime) → is_zero t ≡ true → t ≡ since_epoch 0
is_zero-true before_epoch h = cc h
is_zero-true (since_epoch n) h = ap since_epoch (ground (arith, h))

is_empty-true : (events : List String) → is_empty events ≡ true → events ≡ []
is_empty-true [] h = refl
is_empty-true (e ∷ events) h = cc h

sample_in_secs : result_in_secs sample ≡ sample
unfolding result_in_secs in_secs input_in_secs
sample_in_secs = refl

written-sample : (r : CachedResult String) (bytes : String) → written r ≡ ok bytes → r ≡ sample
written-sample r bytes h =
    let test =
      r.exit == 0 && (is_empty r.events && (is_zero r.created_at && are_sample r.inputs)) in
    let holds : test ≡ true = ground (arith, h) in
    let (x, more) = &&-true (r.exit == 0) _ holds in
    let (v, times) = &&-true (is_empty r.events) _ more in
    let (c, i) = &&-true (is_zero r.created_at) (are_sample r.inputs) times in
    let exit : r.exit ≡ 0 = ground (arith, x) in
    let events = is_empty-true r.events v in
    let created = is_zero-true r.created_at c in
    let inputs = are_sample-true r.inputs i in
    λ k. record { exit = exit k; events = events k; created_at = created k; inputs = inputs k }

find_file_first :
    (path bytes : String) (files : Files) → find_file path ((path, bytes) ∷ files) ≡ some bytes
find_file_first path bytes files = cc (eq_refl path)

read-persist_lem :
    (tmp path : FilePath) (bytes : String) (s t u : Files)
    → files_disk.write tmp bytes s ≡ (ok tt, t)
    → files_disk.persist tmp path t ≡ (ok tt, u)
    → files_disk.read path u ≡ ok bytes
read-persist_lem tmp path bytes s t u h k =
    let wrote : (tmp, bytes) ∷ s ≡ t = ap (λ p. p.1) h in
    let here : find_file tmp t ≡ some bytes =
      ap (find_file tmp) (sym wrote) ∙ find_file_first tmp bytes s in
    let moved : (path, bytes) ∷ t ≡ u =
      ap (λ p. p.1) (sym (ap (λ o. persisted path o t) here) ∙ k) in
    ap or_not_found (ap (find_file path) (sym moved) ∙ find_file_first path bytes t)

files_disk-Laws : Laws files_disk
files_disk-Laws = record {
  read-persist = read-persist_lem;
  from_slice-to_vec =
      λ r bytes h. ap ok (sym sample_in_secs ∙ ap result_in_secs (sym (written-sample r bytes h)));
}

abbrev eslint : Job
eslint = record (stub "eslint" [] [] 0) { run = "eslint a.ts"; glob = "*.ts" ∷ [] }

abbrev before_store : Files
before_store = ("a.ts", "const a") ∷ []

code : Unit {0}
unfolding fed fields fix_field env_field hash_bytes hash_file args_hash_from_fields relative_path
    first_and_rest resolve_tool_hash first_token word_at memo_get hash_of_tool compute_tool_hash
    resolve_on_path fallback remember new cache_dir entry_path get get_bytes decode put on_path
    encode replace_with in_secs input_in_secs result_in_secs path_leb as_secs contents_or_missing
    fed_files hash_file_set derive_key inputs_fresh if_fresh fresh_entry lookup_blocking put_at
    store_blocking args_hash_from_job sort_by insert_by components join_path parent_or_dot
    contains_text strip_prefix is_free_of
code = tt

abbrev eslint_key : CacheKey
eslint_key = record {
  content = "a.ts\0const a\0";
  tool = "eslint a.ts";
  args = "run:eslint a.ts\0glob:*.ts\0";
}

abbrev entry_file : FilePath
entry_file = "/r/betterhook/cache/es/lint a.ts__a.ts\0const a\0__run:eslint a.ts\0glob:*.ts\0.json"

abbrev after_store : Files
after_store = (entry_file, "{}") ∷ ("/r/betterhook/cache/es/.tmp", "{}") ∷ before_store

stored :
    (derive_key files_disk eslint ("a.ts" ∷ []) before_store [] ≡ ok eslint_key)
    × (store_blocking files_disk "/r" eslint ("a.ts" ∷ []) sample before_store []
        ≡ (ok tt, after_store))
    × (derive_key files_disk eslint ("a.ts" ∷ []) after_store [] ≡ ok eslint_key)
    × (put files_disk (new "/r") eslint_key sample before_store ≡ (ok tt, after_store))
unfolding code
stored = (refl, refl, refl, refl)

lookup_blocking-store_blocking_example :
    All (IsFresh files_disk after_store) (result_in_secs sample).inputs
      × (lookup_blocking files_disk "/r" eslint ("a.ts" ∷ []) after_store []
          ≡ ok (some (result_in_secs sample)))
    ⊎ (¬ All (IsFresh files_disk after_store) (result_in_secs sample).inputs)
      × (lookup_blocking files_disk "/r" eslint ("a.ts" ∷ []) after_store [] ≡ ok none)
lookup_blocking-store_blocking_example =
    lookup_blocking-store_blocking files_disk files_disk-Laws "/r" eslint ("a.ts" ∷ []) before_store
      after_store [] [] sample eslint_key stored.0 stored.1 stored.2

lookup_eslint :
    lookup_blocking files_disk "/r" eslint ("a.ts" ∷ []) after_store [] ≡ ok (some sample)
unfolding code
lookup_eslint = refl

lookup_blocking-IsFresh_example : All (IsFresh files_disk after_store) sample_inputs
lookup_blocking-IsFresh_example =
    lookup_blocking-IsFresh files_disk "/r" eslint ("a.ts" ∷ []) after_store [] sample lookup_eslint

eslint-IsNulFree : All IsNulFree (fields eslint)
unfolding code
eslint-IsNulFree = (refl, (refl, tt))

abbrev later : Job
later = record eslint { priority = 7 }

same_fed : fed (fields eslint) ≡ fed (fields later)
unfolding code
same_fed = refl

later-IsNulFree : All IsNulFree (fields later)
unfolding code
later-IsNulFree = (refl, (refl, tt))

fed-fields_example :
    (eslint.run ≡ later.run)
    × (eslint.fix ≡ later.fix)
    × (eslint.glob ≡ later.glob)
    × (eslint.exclude ≡ later.exclude)
    × (map env_text eslint.env.0 ≡ map env_text later.env.0)
fed-fields_example = fed-fields eslint later eslint-IsNulFree later-IsNulFree same_fed

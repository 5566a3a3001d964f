-- ===== src/Cache/Hash.antt =====
-- apps/betterhook/src/cache/hash.rs. The newtypes of digests are their texts.
pub mod Fields
use betterhook.Base.{
  ℕ, zero, suc, String, List, [], ◌∷◌, ◌++◌, map, Option, none, some, Result, BTreeMap,
}
use betterhook.Base.Search.{then_text}
use betterhook.Base.Paths.{join_path}
use betterhook.Config.Schema.{FilePath, Job}
use betterhook.Cache.Disk.{Disk}

pub record CacheKey : Type 0 where
  pub content : String
  pub tool : String
  pub args : String

-- `s.split_at(n)`, where the code panics on a text that is shorter, which no digest is.
unfoldable pub first_and_rest : ℕ → String → String × String
first_and_rest zero s = ("", s)
first_and_rest (suc n) String.[] = ("", "")
first_and_rest (suc n) (String.◌∷◌ c cs) =
    let (head, tail) = first_and_rest n cs in (String.◌∷◌ c head, tail)

unfoldable pub relative_path : CacheKey → FilePath
relative_path key =
    let (head, tail) = first_and_rest 2 key.tool in
    let file_name =
      then_text tail
        (then_text "__" (then_text key.content (then_text "__" (then_text key.args ".json")))) in
    join_path head file_name

-- The bytes that a `Hasher` is fed: each text, and a NUL after it.
unfoldable pub fed : List String → String
fed [] = ""
fed (s ∷ ss) = then_text s (then_text "\0" (fed ss))

unfoldable pub fix_field : Option String → List String
fix_field none = []
fix_field (some fix) = then_text "fix:" fix ∷ []

unfoldable pub env_field : String × String → String
env_field (k, v) = then_text "env:" (then_text k (then_text "=" v))

-- The fields that `args_hash_from_fields` feeds to the hasher, in order.
unfoldable pub fields : Job → List String
fields job =
    then_text "run:" job.run
    ∷ (fix_field job.fix
        ++ (map (then_text "glob:") job.glob
            ++ (map (then_text "exclude:") job.exclude ++ map env_field job.env.0)))

module _ (disk : Disk) where
  unfoldable pub hash_bytes : String → String
  hash_bytes bytes = disk.blake3 bytes

  unfoldable pub hash_file : FilePath → disk.S → Result disk.IoError String
  hash_file path s = disk.hash_contents path s

  unfoldable pub args_hash : List String → String
  args_hash args = hash_bytes (fed args)

  unfoldable pub args_hash_from_fields : Job → String
  args_hash_from_fields job = disk.blake3 (fed (fields job))

unfoldable pub combine_key : String → String → String → CacheKey
combine_key content tool args = record { content = content; tool = tool; args = args }

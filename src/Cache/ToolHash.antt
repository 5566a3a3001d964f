-- ===== src/Cache/ToolHash.antt =====
-- apps/betterhook/src/cache/tool_hash.rs. The memo of the process is passed from call to call.
use text.Mathlib.Text.{◌==◌ as str_eq}
use mathlib.Core.Option
use Prim.Native.Char.{code}
use betterhook.Base.{String, List, [], ◌∷◌, Option, none, some, ok, err, if◌then◌else◌, not}
use betterhook.Base.Search.{contains_text, is_whitespace, trim}
use betterhook.Base.Paths.{starts_with}
use betterhook.Config.Schema.{FilePath}
use betterhook.Cache.Disk.{Disk}
use betterhook.Cache.Hash.{hash_bytes, hash_file}

abbrev pub Memo : Type 0
Memo = List (String × String)

-- The text up to the next whitespace.
unfoldable pub word_at : String → String
word_at String.[] = ""
word_at (String.◌∷◌ c cs) =
    let rest = word_at cs in if is_whitespace (code c) then "" else String.◌∷◌ c rest

-- `run.split_whitespace().next()`
unfoldable pub first_token : String → Option String
first_token String.[] = none
first_token (String.◌∷◌ c cs) =
    let rest = first_token cs in
    if is_whitespace (code c) then rest else some (word_at (String.◌∷◌ c cs))

unfoldable pub memo_get : String → Memo → Option String
memo_get tool [] = none
memo_get tool ((t, hash) ∷ memo) =
    let rest = memo_get tool memo in if str_eq t tool then some hash else rest

module _ (disk : Disk) where
  unfoldable pub fallback : String → String
  fallback run_cmd = hash_bytes disk run_cmd

  unfoldable pub resolve_on_path : String → disk.S → Option FilePath
  resolve_on_path cmd s = if contains_text cmd "/" then some cmd else disk.which cmd s

  unfoldable pub shim_target : Option String → Option FilePath
  shim_target none = none
  shim_target (some s) = if str_eq (trim s) "" then none else some (trim s)

  unfoldable pub follow_mise_shim : FilePath → String → disk.S → Option FilePath
  follow_mise_shim candidate tool s = elim disk.mise_shims_dir [
    | none ↦ none
    | some shims ↦
        if not (starts_with candidate shims) then none else shim_target (disk.mise_which tool s)
  ]

  unfoldable pub hash_canonical : FilePath → disk.S → Option String
  hash_canonical concrete s =
      let canonical = Option.get_or (disk.canonicalize concrete s) concrete in
      elim (hash_file disk canonical s) [ err e ↦ none | ok h ↦ some h ]

  unfoldable pub compute_tool_hash : String → disk.S → Option String
  compute_tool_hash tool s = elim (resolve_on_path tool s) [
    | none ↦ none
    | some resolved ↦
        let concrete = Option.get_or (follow_mise_shim resolved tool s) resolved in
        hash_canonical concrete s
  ]

  unfoldable pub remember : String → String → Memo → String × Memo
  remember tool hash memo = (hash, (tool, hash) ∷ memo)

  unfoldable pub hash_of_tool : String → String → disk.S → Memo → String × Memo
  hash_of_tool run_cmd tool s memo = elim (memo_get tool memo) [
    | some hit ↦ (hit, memo)
    | none ↦ remember tool (Option.get_or (compute_tool_hash tool s) (fallback run_cmd)) memo
  ]

  -- The hash, and the memo after it.
  unfoldable pub resolve_tool_hash : String → disk.S → Memo → String × Memo
  resolve_tool_hash run_cmd s memo = elim (first_token run_cmd) [
    | none ↦ (fallback run_cmd, memo)
    | some tool ↦ hash_of_tool run_cmd tool s memo
  ]

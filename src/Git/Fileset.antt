-- ===== src/Git/Fileset.antt =====
-- apps/betterhook/src/git/fileset.rs: lists of files and the expansion of templates over them. What
-- git prints is a text, in which the character 0 ends a path.
pub mod Shell
pub mod Groups
pub mod Expand
pub mod Bytes
pub mod Select
pub mod Names
use Prim.Native.Char.{code}
use text.Mathlib.Text.{◌==◌ as str_eq}
use betterhook.Base.{
  ℕ, ◌+◌, ◌*◌, String, List, [], ◌∷◌, ◌++◌, Bool, true, false, not, ◌&&◌, ◌||◌, Option, none, some,
  Result, ok, ◌>>=◌, ltb, ◌==◌, if◌then◌else◌, is_empty,
}
use betterhook.Base.Search.{then_text, contains_text, replace, join, split_at, byte_len}
use betterhook.Config.Schema.{FilePath}
use betterhook.Globset.{Globset}

abbrev pub max_arg_bytes : ℕ
max_arg_bytes = 128 * 1024

unfoldable pub drop_empty : List String → List String
drop_empty [] = []
drop_empty (s ∷ ss) = let rest = drop_empty ss in if str_eq s "" then rest else s ∷ rest

unfoldable pub parse_nul_delimited : String → List FilePath
parse_nul_delimited out = drop_empty (split_at 0 out)

module _ (globset : Globset) where
  -- The loop `for pat in patterns { b.add(Glob::new(pat)?) }`.
  unfoldable pub add_all : List String → Result globset.Error (List globset.Glob)
  add_all [] = ok []
  add_all (pat ∷ patterns) = do glob ← globset.new pat; globs ← add_all patterns; ok (glob ∷ globs)

  unfoldable pub build_globset : List String → Result globset.Error (Option globset.GlobSet)
  build_globset patterns =
      if is_empty patterns
      then ok none
      else do globs ← add_all patterns; set ← globset.build globs; ok (some set)

  -- `include.is_none_or(|g| g.is_match(p))`
  unfoldable pub is_included : Option globset.GlobSet → FilePath → Bool
  is_included none p = true
  is_included (some g) p = globset.is_match g p

  -- `exclude.is_none_or(|g| !g.is_match(p))`
  unfoldable pub is_kept : Option globset.GlobSet → FilePath → Bool
  is_kept none p = true
  is_kept (some g) p = not (globset.is_match g p)

  unfoldable pub filter_files :
      List FilePath → Option globset.GlobSet → Option globset.GlobSet → List FilePath
  filter_files [] include exclude = []
  filter_files (p ∷ files) include exclude =
      let rest = filter_files files include exclude in
      if is_included include p && is_kept exclude p then p ∷ rest else rest

abbrev in_range : ℕ → ℕ → ℕ → Bool
in_range lo hi n = not (ltb n lo) && not (ltb hi n)

-- The characters that need no quoting.
unfoldable pub is_safe : ℕ → Bool
is_safe c =
    in_range b'a' b'z' c
    || in_range b'A' b'Z' c
    || in_range b'0' b'9' c
    || c == b'.'
    || c == b'/'
    || c == b'_'
    || c == b'-'
    || c == b':'
    || c == b'@'
    || c == b'+'

unfoldable pub all_safe : String → Bool
all_safe String.[] = true
all_safe (String.◌∷◌ c cs) = is_safe (code c) && all_safe cs

-- The loop `for c in s.chars()`, with the closing quote.
unfoldable pub quote_rest : String → String
quote_rest String.[] = "'"
quote_rest (String.◌∷◌ c cs) =
    let rest = quote_rest cs in
    if code c == b'\'' then then_text "'\\''" rest else String.◌∷◌ c rest

unfoldable pub shell_escape : String → String
shell_escape s = if all_safe s && not (str_eq s "") then s else then_text "'" (quote_rest s)

abbrev pub template_vars : List String
template_vars = "{staged_files}" ∷ "{push_files}" ∷ "{all_files}" ∷ "{files}" ∷ []

unfoldable pub contains_any : String → List String → Bool
contains_any command [] = false
contains_any command (v ∷ vs) = contains_text command v || contains_any command vs

unfoldable pub has_template : String → Bool
has_template command = contains_any command template_vars

-- The loop `for v in TEMPLATE_VARS`.
unfoldable pub replace_each : String → List String → String → String
replace_each out [] expansion = out
replace_each out (v ∷ vs) expansion =
    replace_each (if contains_text out v then replace out v expansion else out) vs expansion

unfoldable pub substitute_once : String → String → String
substitute_once command expansion = replace_each command template_vars expansion

-- The locals of the loop in `expand_template`.
pub record Chunks : Type 0 where
  pub chunks : List String
  pub current : List String
  pub current_bytes : ℕ

unfoldable pub flush : String → Chunks → Chunks
flush command s = record {
  chunks = s.chunks ++ (substitute_once command (join " " s.current) ∷ []);
  current = [];
  current_bytes = 0;
}

unfoldable pub is_full : String → ℕ → Chunks → Bool
is_full command delta s =
    not (is_empty s.current) && ltb max_arg_bytes (byte_len command + s.current_bytes + delta)

unfoldable pub push_argument : String → Chunks → Chunks
push_argument escaped s = record s {
  current = s.current ++ (escaped ∷ []);
  current_bytes = s.current_bytes + (byte_len escaped + 1);
}

-- The body of the loop.
unfoldable pub add_file : String → FilePath → Chunks → Chunks
add_file command f s =
    let escaped = shell_escape f in
    push_argument escaped (if is_full command (byte_len escaped + 1) s then flush command s else s)

unfoldable pub add_files : String → List FilePath → Chunks → Chunks
add_files command [] s = s
add_files command (f ∷ files) s = add_files command files (add_file command f s)

-- What follows the loop.
unfoldable pub last_chunk : String → Chunks → List String
last_chunk command s = if is_empty s.current then s.chunks else (flush command s).chunks

unfoldable pub expand_template : String → List FilePath → List String
expand_template command files =
    if not (has_template command)
    then command ∷ []
    else if is_empty files
    then substitute_once command "" ∷ []
    else last_chunk command
        (add_files command files (record { chunks = []; current = []; current_bytes = 0 }))

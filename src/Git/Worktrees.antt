-- ===== src/Git/Worktrees.antt =====
-- apps/betterhook/src/git/rev_parse.rs: `git worktree list --porcelain`.
pub mod Print
use text.Mathlib.Text.{◌==◌ as str_eq}
use betterhook.Base.{
  String, List, [], ◌∷◌, ◌++◌, Bool, true, false, Option, none, some, Result, ok, err, ◌>>=◌,
  if◌then◌else◌,
}
use betterhook.Base.Search.{then_text, lines, split_once}
use betterhook.Base.Actions.{Action}
use betterhook.Config.Schema.{FilePath}
use betterhook.Git.RevParse.{Git, GitError, GitAction, run_git}

pub record WorktreeFlags : Type 0 where
  pub bare : Bool
  pub detached : Bool
  pub locked : Bool
  pub prunable : Bool

pub record WorktreeInfo : Type 0 where
  pub path : FilePath
  pub head : Option String
  pub branch : Option String
  pub flags : WorktreeFlags

-- The locals `out` and `current`.
pub record Parsed : Type 0 where
  pub out : List WorktreeInfo
  pub current : Option WorktreeInfo

-- `if let Some(wt) = current.take() { out.push(wt) }`
unfoldable pub flush : Parsed → Parsed
flush s = elim s.current [
  | none ↦ s
  | some wt ↦ record { out = s.out ++ (wt ∷ []); current = none }
]

unfoldable pub begin : String → Parsed → Parsed
begin value s = record (flush s) {
  current = some (record {
    path = value;
    head = none;
    branch = none;
    flags = record { bare = false; detached = false; locked = false; prunable = false };
  });
}

-- `line.split_once(' ')`, with the whole line as the key where there is no space.
unfoldable pub key_and_value : String → String × String
key_and_value line = elim (split_once b' ' line) [ none ↦ (line, "") | some kv ↦ kv ]

module _ (IoError : Type 0) where
  -- `current.as_mut().ok_or_else(…)?` and an assignment to it.
  unfoldable pub set_current :
      String → (WorktreeInfo → WorktreeInfo) → Parsed → Result (GitError IoError) Parsed
  set_current message f s = elim s.current [
    | none ↦ err (GitError.porcelain message)
    | some wt ↦ ok (record s { current = some (f wt) })
  ]

  -- `if let Some(wt) = current.as_mut() { … }`
  unfoldable pub set_flag :
      (WorktreeFlags → WorktreeFlags) → Parsed → Result (GitError IoError) Parsed
  set_flag f s = elim s.current [
    | none ↦ ok s
    | some wt ↦ ok (record s { current = some (record wt { flags = f wt.flags }) })
  ]

  -- The `match` on the key.
  unfoldable pub parse_key : String → String × String → Parsed → Result (GitError IoError) Parsed
  parse_key line (key, value) s =
      if str_eq key "worktree"
      then ok (begin value s)
      else if str_eq key "HEAD"
      then set_current (then_text "HEAD without worktree: " line)
          (λ wt. record wt { head = some value }) s
      else if str_eq key "branch"
      then set_current (then_text "branch without worktree: " line)
          (λ wt. record wt { branch = some value }) s
      else if str_eq key "bare"
      then set_flag (λ f. record f { bare = true }) s
      else if str_eq key "detached"
      then set_flag (λ f. record f { detached = true }) s
      else if str_eq key "locked"
      then set_flag (λ f. record f { locked = true }) s
      else if str_eq key "prunable"
      then set_flag (λ f. record f { prunable = true }) s
      else ok s

  -- The body of the loop over the lines.
  unfoldable pub parse_line : String → Parsed → Result (GitError IoError) Parsed
  parse_line line s = if str_eq line "" then ok (flush s) else parse_key line (key_and_value line) s

  unfoldable pub parse_lines : List String → Parsed → Result (GitError IoError) Parsed
  parse_lines [] s = ok s
  parse_lines (line ∷ rest) s = parse_line line s >>= λ s'. parse_lines rest s'

  unfoldable pub parse_worktree_porcelain : String → Result (GitError IoError) (List WorktreeInfo)
  parse_worktree_porcelain text =
      parse_lines (lines text) (record { out = []; current = none }) >>= λ s. ok (flush s).out

module _ (git : Git) where
  unfoldable pub parse_stdout :
      Result (GitError git.IoError) String → Result (GitError git.IoError) (List WorktreeInfo)
  parse_stdout out = out >>= λ text. parse_worktree_porcelain git.IoError text

  unfoldable pub worktrees : FilePath → GitAction git (List WorktreeInfo)
  worktrees cwd repo =
      let (out, repo') = run_git git cwd ("worktree" ∷ "list" ∷ "--porcelain" ∷ []) repo in
      (parse_stdout out, repo')

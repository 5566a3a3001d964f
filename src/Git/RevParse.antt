-- ===== src/Git/RevParse.antt =====
-- apps/betterhook/src/git/rev_parse.rs, and the queries of git/fileset.rs that call it. The git
-- program is a parameter: it is run in a directory with arguments, on a state of the repository and
-- the working tree. What it prints is a text.
use betterhook.Base.{
  ℕ, String, List, [], ◌∷◌, Bool, false, Option, none, some, Result, ok, err, ◌==◌, if◌then◌else◌,
}
use betterhook.Base.Search.{join, then_text, trim_end}
use betterhook.Base.Paths.{is_absolute, join_path}
use betterhook.Base.Actions.{Action, pure, ◌>>=◌}
use betterhook.Config.Schema.{FilePath}
use betterhook.Git.Fileset.{parse_nul_delimited}

-- `std::process::Output`; a process that a signal ended has no exit code. Codes are the bit patterns
-- of the `i32`s.
pub record Output : Type 0 where
  pub status : Option ℕ
  pub stdout : String
  pub stderr : String

pub record Git : Type 1 where
  pub Repo : Type 0
  pub IoError : Type 0
  -- `Command::new("git").current_dir(cwd).args(args).output()`
  pub output : FilePath → List String → Repo → Result IoError Output × Repo
  -- `std::fs::canonicalize`, `none` for an error
  pub canonicalize : FilePath → Repo → Option FilePath

pub data GitError (IoError : Type 0) : Type 0 where
  spawn : (cwd : FilePath) → IoError → GitError IoError
  non_zero : (args : String) (cwd : FilePath) (status : ℕ) (stderr : String) → GitError IoError
  porcelain : String → GitError IoError

unfoldable pub success : Output → Bool
success out = elim out.status [ none ↦ false | some code ↦ code == 0 ]

unfoldable pub code_or_minus_one : Output → ℕ
code_or_minus_one out = elim out.status [ none ↦ 4294967295 | some code ↦ code ]

module _ (git : Git) where
  abbrev pub GitAction : Type 0 → Type 0
  GitAction A = Action git.Repo (GitError git.IoError) A

  unfoldable pub stdout_of :
      FilePath → List String → Result git.IoError Output → Result (GitError git.IoError) String
  stdout_of cwd args (err source) = err (GitError.spawn cwd source)
  stdout_of cwd args (ok out) =
      if success out
      then ok out.stdout
      else err (GitError.non_zero (join " " args) cwd (code_or_minus_one out) out.stderr)

  unfoldable pub run_git : FilePath → List String → GitAction String
  run_git cwd args repo =
      let (out, repo') = git.output cwd args repo in (stdout_of cwd args out, repo')

  unfoldable pub git_stdout_line : FilePath → List String → GitAction String
  git_stdout_line cwd args = run_git cwd args >>= λ text. pure (trim_end text)

  unfoldable pub git_dir : FilePath → GitAction FilePath
  git_dir cwd = git_stdout_line cwd ("rev-parse" ∷ "--absolute-git-dir" ∷ [])

  unfoldable pub canonical_or : FilePath → git.Repo → FilePath
  canonical_or path repo = elim (git.canonicalize path repo) [ none ↦ path | some p ↦ p ]

  unfoldable pub git_common_dir : FilePath → GitAction FilePath
  git_common_dir cwd = git_stdout_line cwd ("rev-parse" ∷ "--git-common-dir" ∷ []) >>= λ raw repo.
      (ok (canonical_or (if is_absolute raw then raw else join_path cwd raw) repo), repo)

  unfoldable pub show_toplevel : FilePath → GitAction FilePath
  show_toplevel cwd = git_stdout_line cwd ("rev-parse" ∷ "--show-toplevel" ∷ [])

  unfoldable pub staged_files : FilePath → GitAction (List FilePath)
  staged_files cwd = run_git cwd ("diff" ∷ "--name-only" ∷ "--cached" ∷ "-z" ∷ []) >>= λ out.
      pure (parse_nul_delimited out)

  unfoldable pub all_files : FilePath → GitAction (List FilePath)
  all_files cwd = run_git cwd ("ls-files" ∷ "-z" ∷ []) >>= λ out. pure (parse_nul_delimited out)

  unfoldable pub push_files : FilePath → String → GitAction (List FilePath)
  push_files cwd base_ref =
      run_git cwd ("diff" ∷ "--name-only" ∷ "-z" ∷ then_text base_ref "...HEAD" ∷ []) >>= λ out.
      pure (parse_nul_delimited out)

  unfoldable pub unstaged_files : FilePath → GitAction (List FilePath)
  unstaged_files cwd =
      run_git cwd ("diff" ∷ "--name-only" ∷ "-z" ∷ []) >>= λ out. pure (parse_nul_delimited out)

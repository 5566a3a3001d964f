-- ===== src/Git/Stash.antt =====
-- apps/betterhook/src/git/stash.rs. The message of a stash, made of the process and the time, is an
-- argument of `push`.
pub mod Laws
use betterhook.Base.{
  ℕ, zero, suc, String, List, [], ◌∷◌, Bool, true, false, not, ◌||◌, Option, none, some, Result, ok,
  err, ◌==◌, if◌then◌else◌, is_empty,
}
use text.Mathlib.Text.{◌==◌ as str_eq}
use betterhook.Base.Search.{then_text, contains_text, lines, decimal}
use betterhook.Base.Actions.{pure, fail, ◌>>=◌}
use betterhook.Config.Schema.{FilePath}
use betterhook.Git.RevParse.{Git, GitError, GitAction, run_git, staged_files, unstaged_files}

pub record StashGuard : Type 0 where
  pub worktree : FilePath
  pub message : String
  pub created : Bool

-- `unstaged.contains(path)`
unfoldable pub contains_path : List FilePath → FilePath → Bool
contains_path [] p = false
contains_path (q ∷ ps) p = str_eq q p || contains_path ps p

-- `staged.iter().any(|path| unstaged.contains(path))`
unfoldable pub any_contained : List FilePath → List FilePath → Bool
any_contained [] unstaged = false
any_contained (p ∷ staged) unstaged = contains_path unstaged p || any_contained staged unstaged

-- The loop of `find_stash_index`, from line `i` on.
unfoldable pub find_line : ℕ → String → List String → Option ℕ
find_line i needle [] = none
find_line i needle (line ∷ ls) =
    let rest = find_line (suc i) needle ls in if contains_text line needle then some i else rest

module _ (git : Git) where
  unfoldable pub has_dirty_or_untracked : FilePath → GitAction git Bool
  has_dirty_or_untracked worktree =
      run_git git worktree ("status" ∷ "--porcelain" ∷ "-uall" ∷ []) >>= λ out.
      pure (not (str_eq out ""))

  unfoldable pub has_partially_staged_tracked_files : FilePath → GitAction git Bool
  has_partially_staged_tracked_files worktree = staged_files git worktree >>= λ staged.
      if is_empty staged
      then pure false
      else unstaged_files git worktree >>= λ unstaged. pure (any_contained staged unstaged)

  unfoldable pub find_stash_index : FilePath → String → GitAction git (Option ℕ)
  find_stash_index worktree needle =
      run_git git worktree ("stash" ∷ "list" ∷ []) >>= λ out. pure (find_line 0 needle (lines out))

  unfoldable pub push_stash : FilePath → String → GitAction git StashGuard
  push_stash worktree message =
      run_git git worktree
        ("stash" ∷ "push" ∷ "--keep-index" ∷ "--include-untracked" ∷ "--message" ∷ message ∷ [])
      >>= λ out. pure (record { worktree = worktree; message = message; created = true })

  unfoldable pub push : FilePath → String → GitAction git StashGuard
  push worktree message = has_dirty_or_untracked worktree >>= λ dirty.
      if not dirty
      then pure (record { worktree = worktree; message = ""; created = false })
      else has_partially_staged_tracked_files worktree >>= λ partial.
          if partial
          then fail (
              GitError.porcelain
                "stash_untracked cannot safely run with partially staged tracked files; commit or unstage the extra edits first")
          else push_stash worktree message

  -- The rest of `pop`, given where the entry was found.
  unfoldable pub pop_at : StashGuard → Option ℕ → GitAction git (Unit {0})
  pop_at guard none = fail (
      GitError.porcelain
        (then_text "stash entry '" (then_text guard.message "' disappeared — refusing to pop")))
  pop_at guard (some zero) =
      run_git git guard.worktree ("stash" ∷ "pop" ∷ "stash@{0}" ∷ []) >>= λ out. pure tt
  pop_at guard (some (suc i)) = fail (
      GitError.porcelain (
        then_text "our stash '" (
          then_text guard.message (
            then_text "' is at stash@{"
              (then_text (decimal (suc i)) "} (expected top); refusing to pop")))))

  unfoldable pub pop : StashGuard → GitAction git (Unit {0})
  pop guard =
      if not guard.created
      then pure tt
      else find_stash_index guard.worktree guard.message >>= λ index. pop_at guard index

-- ===== src/Runner/Plan/Listed.antt =====
-- The files that git lists for a job (runner/plan.rs, the beginning of `resolve_job_plan`).
use text.Mathlib.Text.{◌==◌ as str_eq}
use text.Mathlib.TextEquality.{eq_iff}
use betterhook.Base.{List, true, false, Result, ok, err, ◌≡◌, ◌≢◌, refl, ◌⊎◌, inl, inr, Bool-cases}
use betterhook.Base.Search.{contains_text}
use betterhook.Globset.{Globset}
use betterhook.Config.Schema.{FilePath, Job, Hook}
use betterhook.Git.RevParse.{Git, GitError, GitAction, all_files, push_files, staged_files}
use betterhook.Runner.Plan.{from_git, or_all_files, push_or_all_files, raw_files}

module _ (globset : Globset) (git : Git) (X : Type 0) (hook : Hook) (job : Job)
    (worktree : FilePath) where
  -- The files that git lists for the job: all files for a command with `{all_files}`; else, for one
  -- with `{push_files}` or in a `pre-push` hook, those since `HEAD~1`, and all files where git has an
  -- error; else the staged files.
  pub data IsListed (repo : git.Repo) (raw : List FilePath) : Type 0 where
    every :
        (after : git.Repo)
        → contains_text job.run "{all_files}" ≡ true
        → all_files git worktree repo ≡ (ok raw, after)
        → IsListed repo raw
    pushed :
        (after : git.Repo)
        → contains_text job.run "{all_files}" ≡ false
        → (contains_text job.run "{push_files}" ≡ true) ⊎ (hook.name ≡ "pre-push")
        → push_files git worktree "HEAD~1" repo ≡ (ok raw, after)
        → IsListed repo raw
    no_base :
        (e : GitError git.IoError) (failed after : git.Repo)
        → contains_text job.run "{all_files}" ≡ false
        → (contains_text job.run "{push_files}" ≡ true) ⊎ (hook.name ≡ "pre-push")
        → push_files git worktree "HEAD~1" repo ≡ (err e, failed)
        → all_files git worktree failed ≡ (ok raw, after)
        → IsListed repo raw
    staged :
        (after : git.Repo)
        → contains_text job.run "{all_files}" ≡ false
        → contains_text job.run "{push_files}" ≡ false
        → hook.name ≢ "pre-push"
        → staged_files git worktree repo ≡ (ok raw, after)
        → IsListed repo raw

  from_git-ok :
      {A : Type 0} (action : GitAction git A) (a : A) (s t : git.Repo)
      → from_git globset git X action s ≡ (ok a, t)
      → action s ≡ (ok a, t)
  unfolding from_git
  from_git-ok {A = A} action a s t h = go (action s) refl
    where
      go : (p : Result (GitError git.IoError) A × git.Repo) → action s ≡ p → action s ≡ (ok a, t)
      go (ok b, u) e = cc (h, e)
      go (err x, u) e = absurd (cc (h, e))

  push_or_all_files-IsListed :
      (raw : List FilePath) (repo after : git.Repo)
      → contains_text job.run "{all_files}" ≡ false
      → (contains_text job.run "{push_files}" ≡ true) ⊎ (hook.name ≡ "pre-push")
      → push_or_all_files globset git X worktree repo ≡ (ok raw, after)
      → IsListed repo raw
  unfolding push_or_all_files or_all_files
  push_or_all_files-IsListed raw repo after a w h = go (push_files git worktree "HEAD~1" repo) refl
    where
      go :
          (p : Result (GitError git.IoError) (List FilePath) × git.Repo)
          → push_files git worktree "HEAD~1" repo ≡ p
          → IsListed repo raw
      go (ok files, s) e = pushed after a w (cc (h, e))
      go (err x, s) e =
          no_base x s after a w e (from_git-ok (all_files git worktree) raw s after (cc (h, e)))

  pub raw_files-IsListed :
      (raw : List FilePath) (repo after : git.Repo)
      → raw_files globset git X hook job worktree repo ≡ (ok raw, after)
      → IsListed repo raw
  unfolding raw_files
  raw_files-IsListed raw repo after h = elim (Bool-cases (contains_text job.run "{all_files}")) [
    | inl a ↦ every after a (from_git-ok (all_files git worktree) raw repo after (cc (h, a)))
    | inr a ↦ elim (Bool-cases (contains_text job.run "{push_files}")) [
      | inl p ↦ push_or_all_files-IsListed raw repo after a (inl p) (cc (h, a, p))
      | inr p ↦ elim (Bool-cases (str_eq hook.name "pre-push")) [
        | inl q ↦
            push_or_all_files-IsListed raw repo after a (inr ((eq_iff hook.name "pre-push").0 q))
              (cc (h, a, p, q))
        | inr q ↦
            staged after a p (λ e. absurd (cc (q, (eq_iff hook.name "pre-push").1 e)))
              (from_git-ok (staged_files git worktree) raw repo after (cc (h, a, p, q)))
      ]
    ]
  ]

-- ===== src/Runner/Plan.antt =====
-- apps/betterhook/src/runner/plan.rs: what a job is to run.
pub mod Listed
pub mod Resolve
use mathlib.Core.Logic.{◌⊎◌, inl}
use betterhook.Base.{
  String, List, [], ◌∷◌, map, Bool, true, false, not, ◌&&◌, ◌||◌, Option, none, some, Result, ok,
  err, map_err, if◌then◌else◌, is_empty,
}
use text.Mathlib.Text.{◌==◌ as str_eq}
use betterhook.Base.Search.{contains_text}
use betterhook.Base.Paths.{is_absolute, join_path}
use betterhook.Base.Actions.{Action, pure, ◌>>=◌}
use betterhook.Globset.{Globset}
use betterhook.Config.Schema.{FilePath, Job, Hook}
use betterhook.Git.Fileset.{build_globset, has_template, expand_template, filter_files}
use betterhook.Git.RevParse.{Git, GitError, GitAction, all_files, push_files, staged_files}
use betterhook.Runner.Summary.{RunError}

pub record JobPlan : Type 0 where
  pub commands : List String
  pub cwd : FilePath
  pub files : List FilePath

-- `none` for a job with a template that no file matched: it is skipped.
pub record ResolvedJob : Type 0 where
  pub job : Job
  pub plan : Option JobPlan

-- `job.root.map_or_else(|| worktree.to_path_buf(), |r| worktree.join(r))`
unfoldable pub cwd_of : Job → FilePath → FilePath
cwd_of job worktree = elim job.root [ none ↦ worktree | some r ↦ join_path worktree r ]

unfoldable pub absolute_in : FilePath → FilePath → FilePath
absolute_in worktree p = if is_absolute p then p else join_path worktree p

-- The rest of `resolve_job_plan`, once the files are filtered.
unfoldable pub plan_of : Job → FilePath → List FilePath → Option JobPlan
plan_of job worktree files =
    if has_template job.run && is_empty files
    then none
    else some (record {
      commands = if has_template job.run then expand_template job.run files else job.run ∷ [];
      cwd = cwd_of job worktree;
      files = map (absolute_in worktree) files;
    })

-- The errors of a run: git's, and those (of type `X`) of what else is outside.
abbrev pub HookError : Globset → Git → Type 0 → Type 0
HookError globset git X = RunError globset.Error (GitError git.IoError ⊎ X)

module _ (globset : Globset) (git : Git) (X : Type 0) where
  abbrev pub HookAction : Type 0 → Type 0
  HookAction A = Action git.Repo (HookError globset git X) A

  -- `?` on what git returns.
  unfoldable pub from_git : {A : Type 0} → GitAction git A → HookAction A
  from_git action repo =
      let (r, repo') = action repo in (map_err (λ e. RunError.external (inl e)) r, repo')

  -- `?` on what globset returns.
  unfoldable pub from_globset : {A : Type 0} → Result globset.Error A → HookAction A
  from_globset r repo = (map_err (λ e. RunError.glob e) r, repo)

  unfoldable pub or_all_files :
      FilePath
      → Result (GitError git.IoError) (List FilePath) × git.Repo
      → Result (HookError globset git X) (List FilePath) × git.Repo
  or_all_files worktree (ok files, repo) = (ok files, repo)
  or_all_files worktree (err e, repo) = from_git (all_files git worktree) repo

  -- `push_files`, and `all_files` where that fails.
  unfoldable pub push_or_all_files : FilePath → HookAction (List FilePath)
  push_or_all_files worktree repo = or_all_files worktree (push_files git worktree "HEAD~1" repo)

  unfoldable pub raw_files : Hook → Job → FilePath → HookAction (List FilePath)
  raw_files hook job worktree =
      if contains_text job.run "{all_files}"
      then from_git (all_files git worktree)
      else if contains_text job.run "{push_files}" || str_eq hook.name "pre-push"
      then push_or_all_files worktree
      else from_git (staged_files git worktree)

  unfoldable pub resolve_over_files : Hook → Job → FilePath → HookAction (Option JobPlan)
  resolve_over_files hook job worktree = raw_files hook job worktree >>= λ raw.
      from_globset (build_globset globset job.glob) >>= λ include.
      from_globset (build_globset globset job.exclude) >>= λ exclude.
      pure (plan_of job worktree (filter_files globset raw include exclude))

  unfoldable pub resolve_job_plan : Hook → Job → FilePath → HookAction (Option JobPlan)
  resolve_job_plan hook job worktree =
      if not (has_template job.run) && is_empty job.glob && is_empty job.exclude
      then pure (some (record { commands = job.run ∷ []; cwd = cwd_of job worktree; files = [] }))
      else resolve_over_files hook job worktree

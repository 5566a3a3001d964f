-- ===== src/Runner/Hook/Stashing.antt =====
-- What a hook's run does with the stash (runner/executor.rs, `run_hook_with_options`).
use betterhook.Base.{String, List, ◌∷◌, true, none, some, Result, ok, ◌≡◌}
use betterhook.Base.Search.{contains_text, lines}
use betterhook.Globset.{Globset}
use betterhook.Config.Schema.{FilePath, Hook}
use betterhook.Git.RevParse.{Git}
use betterhook.Git.Stash.{StashGuard}
use betterhook.Git.Stash.Laws.{list_entries, pop_top, pop_on_top}
use betterhook.Runner.Plan.{HookError}
use betterhook.Runner.Summary.{RunSummary}
use betterhook.Runner.Hook.{
  RunOptions, Resolved, Surroundings, run_jobs, pop_stash, report_of, finish, execute, prepare,
  run_hook_with_options,
}

module _ (globset : Globset) (git : Git) (X : Type 0) (around : Surroundings globset git X)
    (hook : Hook) (worktree : FilePath) (options : RunOptions) where
  -- Once the jobs have been run, the stash is popped, whatever became of them: where an entry was
  -- pushed, is on top after the jobs, and git pops it without an error, the repository is left as git
  -- leaves it, and the result is the report of the jobs' outcome or the error of the jobs, with no
  -- error of the stash.
  pub run_hook_with_options-pop :
      (repo ready listed popped : git.Repo) (guard : StashGuard) (resolved : Resolved)
      (ended : Result (HookError globset git X) RunSummary) (list out top : String)
      (rest : List String)
      → prepare globset git X around hook worktree options repo ≡ (ok (some guard, resolved), ready)
      → run_jobs globset git X around hook worktree resolved.jobs ready ≡ some ended
      → guard.created ≡ true
      → list_entries git guard (around.after_jobs resolved.jobs ready) ≡ (ok list, listed)
      → lines list ≡ top ∷ rest
      → contains_text top guard.message ≡ true
      → pop_top git guard listed ≡ (ok out, popped)
      → run_hook_with_options globset git X around hook worktree options repo ≡ (
        some (report_of globset git X around hook worktree resolved.filtered_out ended none),
        popped,
      )
  unfolding run_hook_with_options execute finish pop_stash
  run_hook_with_options-pop repo ready listed popped guard resolved ended list out top rest p j c l
        t m q =
      let restored =
        pop_on_top git guard (around.after_jobs resolved.jobs ready) listed popped list out top rest
          c l t m q in
      cc (p, j, restored)

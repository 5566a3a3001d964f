-- ===== src/Runner/Plan/Resolve.antt =====
-- What `resolve_job_plan` (runner/plan.rs) plans.
use betterhook.Base.{
  ◌<◌, ◌⊎◌, String, List, [], ◌∷◌, map, true, false, Option, none, some, ok, ◌≡◌, ap, arith, length,
  Bool-cases, inl, inr,
}
use betterhook.Globset.{Globset}
use betterhook.Config.Schema.{FilePath, Job, Hook}
use betterhook.Git.Fileset.{build_globset, has_template, substitute_once, expand_template}
use betterhook.Git.Fileset.Groups.{expand_template_chunks, arguments, concat}
use betterhook.Git.RevParse.{Git}
use betterhook.Git.Fileset.Select.{Selects}
use betterhook.Runner.Plan.Listed.{IsListed}
use betterhook.Runner.Plan.{JobPlan, absolute_in}

length-map_some :
    {A B : Type 0} (g : List A → B) (gs : List (List A)) (x : A) (xs : List A)
    → concat gs ≡ x ∷ xs
    → 0 < length (map g gs)
length-map_some g [] x xs e = cc e
length-map_some g (ys ∷ gs) x xs e = omega arith

expand_none : (command : String) → 0 < length (expand_template command [])
unfolding expand_template
expand_none command = ground arith

expand_plain :
    (command : String) (files : List FilePath)
    → has_template command ≡ false
    → 0 < length (expand_template command files)
unfolding expand_template
expand_plain command files n = ground (arith, n)

pub some_command :
    (command : String) (files : List FilePath) → 0 < length (expand_template command files)
some_command command [] = expand_none command
some_command command (f ∷ files) = elim (Bool-cases (has_template command)) [
  | inl t ↦
      let (gs, e, c, sizes, words) = expand_template_chunks command f files t in
      let l = length-map_some (λ g. substitute_once command (arguments g)) gs f files c in
      omega (arith, ap length e)
  | inr n ↦ expand_plain command (f ∷ files) n
]

module _ (globset : Globset) (git : Git) (X : Type 0) (hook : Hook) (job : Job)
    (worktree : FilePath) where
  -- The commands over the files: the job's own, or those of the template.
  abbrev pub IsCommands : List FilePath → List String → Type 0
  IsCommands files commands =
      (0 < length commands)
      × ((has_template job.run ≡ false) × (commands ≡ job.run ∷ [])
          ⊎ (has_template job.run ≡ true) × (commands ≡ expand_template job.run files))

  -- What is planned for a job over the files that the globs let through.
  abbrev pub Planned : List FilePath → Option JobPlan → Type 0
  Planned files none = (has_template job.run ≡ true) × (files ≡ [])
  Planned files (some plan) =
      IsCommands files plan.commands × (plan.files ≡ map (absolute_in worktree) files)

  abbrev pub IsPlanned : git.Repo → Option JobPlan → Type 0
  IsPlanned repo p =
      (raw : List FilePath) × (chosen : List FilePath) × (include : Option globset.GlobSet)
      × (exclude : Option globset.GlobSet) × IsListed globset git X hook job worktree repo raw
      × (build_globset globset job.glob ≡ ok include)
      × (build_globset globset job.exclude ≡ ok exclude)
      × Selects globset include exclude raw chosen
      × Planned chosen p

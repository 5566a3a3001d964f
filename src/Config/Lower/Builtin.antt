-- ===== src/Config/Lower/Builtin.antt =====
-- Where the command of a lowered job comes from.
use betterhook.Base.{ℕ, ◌≡◌, refl, ap, ◌∙◌, ◌⊎◌, inl, inr, String, Option, none, some, ok}
use betterhook.Globset.{Globset}
use betterhook.Builtins.{BuiltinMeta, get_builtin}
use betterhook.Config.Crates.{Crates}
use betterhook.Config.Schema.{Job}
use betterhook.Config.Raw.{RawJob, take_if_some}
use betterhook.Config.Lower.{fill, fill_from, complete, lower_job}
use betterhook.Config.Lower.Jobs.{lower_job-LoweredFrom}

-- The command is the user's, or the user gave none and it is that of the builtin.
abbrev pub IsCommandOf : RawJob → String → Type 0
IsCommandOf given run =
    (given.run ≡ some run)
    ⊎ ((given.run ≡ none)
        × (id : String) × (meta : BuiltinMeta) × (given.builtin ≡ some id)
        × (get_builtin id ≡ some meta)
        × (run ≡ meta.run))

module _ (given : RawJob) (command : String) where
  by_run :
      (id : String) (meta : BuiltinMeta) (run : Option String)
      → given.run ≡ run
      → given.builtin ≡ some id
      → get_builtin id ≡ some meta
      → take_if_some (some meta.run) run ≡ some command
      → IsCommandOf given command
  unfolding take_if_some
  by_run id meta none e b g f = inr (e, id, meta, b, g, cc f)
  by_run id meta (some run) e b g f = inl (e ∙ f)

  module _ (globset : Globset) (crates : Crates) (name : String) (raw : RawJob)
      (found : raw.run ≡ some command) where
    by_meta :
        (id : String) (meta : Option BuiltinMeta)
        → given.builtin ≡ some id
        → get_builtin id ≡ meta
        → fill_from globset crates name id meta given ≡ ok raw
        → IsCommandOf given command
    unfolding fill_from fill
    by_meta id none b g c = cc
    by_meta id (some meta) b g c =
        let same : fill meta given ≡ raw = cc c in
        by_run id meta given.run refl b g (ap (λ (x : RawJob). x.run) same ∙ found)

    by_builtin :
        (builtin : Option String)
        → given.builtin ≡ builtin
        → complete globset crates name builtin given ≡ ok raw
        → IsCommandOf given command
    unfolding complete
    by_builtin none b c =
        let same : given ≡ raw = cc c in inl (ap (λ (x : RawJob). x.run) same ∙ found)
    by_builtin (some id) b c = by_meta id (get_builtin id) b refl c

-- What the user wrote wins: a job that is lowered runs the user's command, and only where there is
-- none that of the builtin that the job names, which is in the table.
pub lower_job-IsCommandOf :
    (globset : Globset) (crates : Crates) (name : String) (given : RawJob) (priority : ℕ)
    (job : Job)
    → lower_job globset crates name given priority ≡ ok job
    → IsCommandOf given job.run
lower_job-IsCommandOf globset crates name given priority job h =
    let l = lower_job-LoweredFrom globset crates name given priority job h in
    by_builtin given job.run globset crates name l.raw l.run_given given.builtin refl l.completed

-- ===== src/Runner/Summary.antt =====
-- apps/betterhook/src/runner: the errors of a run (`RunError` in mod.rs) and what a scheduler reports
-- (`RunSummary` in executor.rs).
use betterhook.Base.{ℕ, Bool}
use betterhook.Runner.Dag.{DagError}

-- `dag` and `glob` come from the code; `external` stands for `Git`, `Spawn`, `Wait` and `Io`, which
-- come from outside it.
pub data RunError (GlobError External : Type 0) : Type 0 where
  dag : DagError GlobError → RunError GlobError External
  glob : GlobError → RunError GlobError External
  external : External → RunError GlobError External

pub record RunSummary : Type 0 where
  pub ok : Bool
  pub jobs_run : ℕ
  pub jobs_skipped : ℕ

-- ===== src/Config/Lower/Jobs.antt =====
-- What a job that is lowered holds.
use betterhook.Base.{
  ℕ, zero, suc, ◌<◌, ◌≡◌, refl, String, List, [], ◌∷◌, ◌++◌, Option, none, some, Result, ok, err,
  map_err, >>=-eq-ok, arith, All, All-append,
}
use mathlib.Core.Path.{subst}
use betterhook.Globset.{Globset}
use betterhook.Config.Crates.{Crates}
use betterhook.Config.Schema.{IsolateSpec, Job}
use betterhook.Config.Raw.{RawIsolate, RawIsolateTable, RawJob}
use betterhook.Config.Lower.{
  complete, require_run, lower_timeout, lower_sharded, lower_named, lower_table, lower_isolate,
  lower_isolates, check_globs, lower_job, make_job,
}

-- `Glob::new` accepts the pattern.
abbrev pub Compiles : Globset → String → Type 0
Compiles globset pat = (glob : globset.Glob) × (globset.new pat ≡ ok glob)

-- A sharded mutex has at least one permit.
abbrev pub HasPermit : Option IsolateSpec → Type 0
HasPermit isolate =
    (name : String) (slots : ℕ) → isolate ≡ some (IsolateSpec.sharded name slots) → 0 < slots

-- A job that can be scheduled: its capability globs compile, and its isolation has a permit.
pub record IsValidJob (globset : Globset) (job : Job) : Type 0 where
  pub reads : All (Compiles globset) job.reads
  pub writes : All (Compiles globset) job.writes
  pub permit : HasPermit job.isolate

map_err-eq-ok {ℓ κ μ} :
    {E : Type ℓ} {F : Type κ} {A : Type μ} (f : E → F) (r : Result E A) (a : A)
    → map_err f r ≡ ok a
    → r ≡ ok a
map_err-eq-ok f (ok b) a h = cc
map_err-eq-ok f (err e) a h = cc

module _ (globset : Globset) (crates : Crates) where
  check_globs-All :
      (name : String) (pats : List String)
      → check_globs globset crates name pats ≡ ok tt
      → All (Compiles globset) pats
  unfolding check_globs
  check_globs-All name [] h = tt
  check_globs-All name (pat ∷ pats) h =
      let (glob, e, k) = >>=-eq-ok (map_err _ (globset.new pat)) _ h in
      ((glob, map_err-eq-ok _ (globset.new pat) glob e), check_globs-All name pats k)

  lower_sharded-HasPermit :
      (job name : String) (slots : Option ℕ) (spec : IsolateSpec)
      → lower_sharded globset crates job name slots ≡ ok spec
      → HasPermit (some spec)
  unfolding lower_sharded
  lower_sharded-HasPermit job name none spec h n s e = ground arith
  lower_sharded-HasPermit job name (some zero) spec h n s e = cc
  lower_sharded-HasPermit job name (some (suc k)) spec h n s e = ground arith

  lower_table-HasPermit :
      (job : String) (tool : Option String) (table : RawIsolateTable) (spec : IsolateSpec)
      → lower_table globset crates job tool table ≡ ok spec
      → HasPermit (some spec)
  unfolding lower_table lower_named
  lower_table-HasPermit job (some tool) table spec h = λ n s e. ground arith
  lower_table-HasPermit job none table spec h = named table.name h
    where
      named :
          (name : Option String)
          → lower_named globset crates job name table.slots ≡ ok spec
          → HasPermit (some spec)
      named none k = cc
      named (some name) k = lower_sharded-HasPermit job name table.slots spec k

  lower_isolates-HasPermit :
      (job : String) (raw : Option RawIsolate) (isolate : Option IsolateSpec)
      → lower_isolates globset crates job raw ≡ ok isolate
      → HasPermit isolate
  unfolding lower_isolates lower_isolate
  lower_isolates-HasPermit job none isolate h n s e = ground arith
  lower_isolates-HasPermit job (some (RawIsolate.name name)) isolate h n s e = ground arith
  lower_isolates-HasPermit job (some (RawIsolate.table table)) isolate h n s e =
      let (spec, k, j) = >>=-eq-ok (lower_table globset crates job table.tool table) _ h in
      lower_table-HasPermit job table.tool table spec k n s cc

  -- The parts that a lowered job is made from.
  pub record LoweredFrom (name : String) (given : RawJob) (priority : ℕ) (job : Job) : Type 0 where
    pub raw : RawJob
    pub completed : complete globset crates name given.builtin given ≡ ok raw
    pub run_given : raw.run ≡ some job.run
    pub name_kept : job.name ≡ name
    pub priority_kept : job.priority ≡ priority
    pub reads_kept : job.reads ≡ raw.reads
    pub writes_kept : job.writes ≡ raw.writes
    pub valid : IsValidJob globset job

  require_run-eq-ok :
      (name : String) (run : Option String) (r : String)
      → require_run globset crates name run ≡ ok r
      → run ≡ some r
  unfolding require_run
  require_run-eq-ok name none r h = cc
  require_run-eq-ok name (some run) r h = cc

  pub lower_job-LoweredFrom :
      (name : String) (given : RawJob) (priority : ℕ) (job : Job)
      → lower_job globset crates name given priority ≡ ok job
      → LoweredFrom name given priority job
  unfolding lower_job
  lower_job-LoweredFrom name given priority job h =
      let (raw, completed, h1) = >>=-eq-ok (complete globset crates name given.builtin given) _ h in
      let (run, run_found, h2) = >>=-eq-ok (require_run globset crates name raw.run) _ h1 in
      let (timeout, _, h3) = >>=-eq-ok (lower_timeout globset crates name raw.timeout) _ h2 in
      let (isolate, isolated, h4) =
        >>=-eq-ok (lower_isolates globset crates name raw.isolate) _ h3 in
      let (_, checked, h5) =
        >>=-eq-ok (check_globs globset crates name (raw.reads ++ raw.writes)) _ h4 in
      let globs =
        All-append (Compiles globset) raw.reads raw.writes (check_globs-All name _ checked) in
      let permit = lower_isolates-HasPermit name raw.isolate isolate isolated in
      let built : make_job name run isolate timeout priority given.builtin raw ≡ job = cc h5 in
      subst (LoweredFrom name given priority) built (record {
        raw = raw;
        completed = completed;
        run_given = require_run-eq-ok name raw.run run run_found;
        name_kept = refl;
        priority_kept = refl;
        reads_kept = refl;
        writes_kept = refl;
        valid = record { reads = globs.0; writes = globs.1; permit = permit };
      })

-- ===== src/Config/Lower/Graphs.antt =====
-- How the jobs of a configuration that is lowered can fail to have a graph.
use betterhook.Base.{
  ◌≡◌, refl, String, List, [], ◌∷◌, ◌++◌, Result, ok, err, inl, inr, All, All-append_intro,
  >>=-eq-err,
}
use betterhook.Globset.{Globset}
use betterhook.Config.Crates.{Crates}
use betterhook.Config.Schema.{Job, Hook}
use betterhook.Config.Raw.{RawHook}
use betterhook.Config.Lower.{lower_hook}
use betterhook.Config.Lower.Jobs.{Compiles, IsValidJob}
use betterhook.Config.Lower.Hooks.{lower_hook-valid}
use betterhook.Runner.GlobUtil
use betterhook.Runner.Dag.{DagError, build_globset, compile_sets, build_dag}

module _ (globset : Globset) where
  -- The error is that of a `GlobSetBuilder::build` over globs that were all compiled.
  abbrev pub IsRefusal : DagError globset.Error → Type 0
  IsRefusal e = (globs : List globset.Glob) × (globset.build globs ≡ err e.source)

  add_all-ok :
      (pats : List String)
      → All (Compiles globset) pats
      → (globs : List globset.Glob) × (GlobUtil.add_all globset pats ≡ ok globs)
  unfolding GlobUtil.add_all
  add_all-ok [] all = ([], refl)
  add_all-ok (pat ∷ pats) ((glob, e), all) =
      let (globs, f) = add_all-ok pats all in (glob ∷ globs, rw (e, f) refl)

  build_globset-IsRefusal :
      (name : String) (pats : List String) (e : DagError globset.Error)
      → All (Compiles globset) pats
      → build_globset globset name pats ≡ err e
      → IsRefusal e
  unfolding build_globset GlobUtil.build_globset
  build_globset-IsRefusal name [] e all h = absurd (cc h)
  build_globset-IsRefusal name (pat ∷ pats) e all h =
      let (globs, f) = add_all-ok (pat ∷ pats) all in built globs f (globset.build globs) refl
    where
      built :
          (globs : List globset.Glob)
          → GlobUtil.add_all globset (pat ∷ pats) ≡ ok globs
          → (r : Result globset.Error globset.GlobSet) → globset.build globs ≡ r
          → IsRefusal e
      built globs f (ok set) b = absurd (cc (h, f, b))
      built globs f (err source) b = (globs, cc (h, f, b))

  compile_sets-IsRefusal :
      (jobs : List Job) (e : DagError globset.Error)
      → All (IsValidJob globset) jobs
      → compile_sets globset jobs ≡ err e
      → IsRefusal e
  unfolding compile_sets
  compile_sets-IsRefusal [] e all h = absurd (cc h)
  compile_sets-IsRefusal (job ∷ jobs) e (valid, all) h =
      elim (>>=-eq-err (build_globset globset job.name job.writes) _ h) [
        | inl w ↦ build_globset-IsRefusal job.name job.writes e valid.writes w
        | inr (writes, _, h1) ↦
            elim (>>=-eq-err (build_globset globset job.name (job.reads ++ job.writes)) _ h1) [
              | inl c ↦
                  build_globset-IsRefusal job.name (job.reads ++ job.writes) e
                    (All-append_intro (Compiles globset) job.reads job.writes valid.reads
                      valid.writes)
                    c
              | inr (combined, _, h2) ↦ elim (>>=-eq-err (compile_sets globset jobs) _ h2) [
                | inl rest ↦ compile_sets-IsRefusal jobs e all rest
                | inr (rest, _, h3) ↦ absurd (cc h3)
              ]
            ]
      ]

  -- If the graph of a lowered hook's jobs cannot be built, then only because the builder of glob sets
  -- refuses globs that were all compiled: no capability glob fails to compile, since lowering has
  -- checked them.
  pub lower_hook-build_dag :
      (crates : Crates) (name : String) (raw : RawHook) (hook : Hook) (e : DagError globset.Error)
      → lower_hook globset crates name raw ≡ ok hook
      → build_dag globset hook.jobs ≡ err e
      → IsRefusal e
  unfolding build_dag
  lower_hook-build_dag crates name raw hook e h b =
      elim (>>=-eq-err (compile_sets globset hook.jobs) _ b) [
        | inl s ↦
            compile_sets-IsRefusal hook.jobs e (lower_hook-valid globset crates name raw hook h) s
        | inr (sets, _, k) ↦ absurd (cc k)
      ]

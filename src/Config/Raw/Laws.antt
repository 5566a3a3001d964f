-- ===== src/Config/Raw/Laws.antt =====
-- Files that are laid over one another (config/schema.rs, `merge_overlay`).
use betterhook.Base.{
  ◌≡◌, refl, sym, ap, ◌∙◌, List, [], ◌∷◌, Option, none, some, String, both, get, get-merge_maps,
  merge_maps_assoc,
}
use betterhook.Config.Raw.{
  RawJob, RawHook, RawMeta, RawPackage, RawConfig, take_if_some, take_unless_empty, merge_job,
  merge_hook, merge_meta, merge_metas, merge_package, merge_config,
}

take_if_some_assoc {ℓ} :
    {A : Type ℓ} (x y z : Option A)
    → take_if_some (take_if_some x y) z ≡ take_if_some x (take_if_some y z)
unfolding take_if_some
take_if_some_assoc x y none = refl
take_if_some_assoc x y (some c) = refl

take_unless_empty_assoc {ℓ} :
    {A : Type ℓ} (x y z : List A)
    → take_unless_empty (take_unless_empty x y) z ≡ take_unless_empty x (take_unless_empty y z)
unfolding take_unless_empty
take_unless_empty_assoc x y [] = refl
take_unless_empty_assoc x y (c ∷ z) = refl

merge_job_assoc : (a b c : RawJob) → merge_job (merge_job a b) c ≡ merge_job a (merge_job b c)
unfolding merge_job
merge_job_assoc a b c = λ i. record {
  run = take_if_some_assoc a.run b.run c.run i;
  fix = take_if_some_assoc a.fix b.fix c.fix i;
  glob = take_unless_empty_assoc a.glob b.glob c.glob i;
  exclude = take_unless_empty_assoc a.exclude b.exclude c.exclude i;
  tags = take_unless_empty_assoc a.tags b.tags c.tags i;
  skip = take_if_some_assoc a.skip b.skip c.skip i;
  only = take_if_some_assoc a.only b.only c.only i;
  env = merge_maps_assoc (λ _ v. v) (λ _ _ _. refl) a.env b.env c.env i;
  root = take_if_some_assoc a.root b.root c.root i;
  stage_fixed = take_if_some_assoc a.stage_fixed b.stage_fixed c.stage_fixed i;
  isolate = take_if_some_assoc a.isolate b.isolate c.isolate i;
  timeout = take_if_some_assoc a.timeout b.timeout c.timeout i;
  interactive = take_if_some_assoc a.interactive b.interactive c.interactive i;
  fail_text = take_if_some_assoc a.fail_text b.fail_text c.fail_text i;
  reads = take_unless_empty_assoc a.reads b.reads c.reads i;
  writes = take_unless_empty_assoc a.writes b.writes c.writes i;
  network = take_if_some_assoc a.network b.network c.network i;
  concurrent_safe = take_if_some_assoc a.concurrent_safe b.concurrent_safe c.concurrent_safe i;
  builtin = take_if_some_assoc a.builtin b.builtin c.builtin i;
}

merge_hook_assoc : (a b c : RawHook) → merge_hook (merge_hook a b) c ≡ merge_hook a (merge_hook b c)
unfolding merge_hook
merge_hook_assoc a b c = λ i. record {
  parallel = take_if_some_assoc a.parallel b.parallel c.parallel i;
  fail_fast = take_if_some_assoc a.fail_fast b.fail_fast c.fail_fast i;
  priority = take_unless_empty_assoc a.priority b.priority c.priority i;
  stash_untracked = take_if_some_assoc a.stash_untracked b.stash_untracked c.stash_untracked i;
  parallel_limit = take_if_some_assoc a.parallel_limit b.parallel_limit c.parallel_limit i;
  jobs = merge_maps_assoc merge_job merge_job_assoc a.jobs b.jobs c.jobs i;
}

merge_metas_assoc :
    (a b c : Option RawMeta) → merge_metas (merge_metas a b) c ≡ merge_metas a (merge_metas b c)
unfolding merge_metas merge_meta
merge_metas_assoc a b none = refl
merge_metas_assoc a none (some z) = refl
merge_metas_assoc none (some y) (some z) = refl
merge_metas_assoc (some x) (some y) (some z) = λ i. some (record {
  version = take_if_some_assoc x.version y.version z.version i;
  min_betterhook = take_if_some_assoc x.min_betterhook y.min_betterhook z.min_betterhook i;
})

merge_package_assoc :
    (a b c : RawPackage) → merge_package (merge_package a b) c ≡ merge_package a (merge_package b c)
unfolding merge_package
merge_package_assoc a b c = λ i. record {
  path = c.path;
  hooks = merge_maps_assoc merge_hook merge_hook_assoc a.hooks b.hooks c.hooks i;
}

-- Three configurations that are laid over one another in their order give the same however they are
-- grouped: the last over the merge of the first two, or the merge of the last two over the first.
pub merge_config_assoc :
    (a b c : RawConfig) → merge_config (merge_config a b) c ≡ merge_config a (merge_config b c)
unfolding merge_config
merge_config_assoc a b c = λ i. record {
  meta = merge_metas_assoc a.meta b.meta c.meta i;
  extends = a.extends;
  hooks = merge_maps_assoc merge_hook merge_hook_assoc a.hooks b.hooks c.hooks i;
  packages = merge_maps_assoc merge_package merge_package_assoc a.packages b.packages c.packages i;
}

-- What a hook that is there or not says of a job.
abbrev pub job_in : String → Option RawHook → Option RawJob
job_in job none = none
job_in job (some h) = get job h.jobs

both-none {ℓ} : {A : Type ℓ} (f : A → A → A) (x : Option A) → both f x none ≡ x
both-none f none = refl
both-none f (some x) = refl

job_in-both :
    (job : String) (x y : Option RawHook)
    → job_in job (both merge_hook x y) ≡ both merge_job (job_in job x) (job_in job y)
unfolding merge_hook
job_in-both job none y = refl
job_in-both job (some b) none = sym (both-none merge_job (get job b.jobs))
job_in-both job (some b) (some o) = get-merge_maps merge_job b.jobs o.jobs job

-- A job of a merged configuration is the job of both, laid over one another, where both have it, and
-- else the job of the one that has it. Nothing else is in the merged configuration.
pub merge_config-job_in :
    (hook job : String) (base overlay : RawConfig)
    → job_in job (get hook (merge_config base overlay).hooks)
      ≡ both merge_job (job_in job (get hook base.hooks)) (job_in job (get hook overlay.hooks))
unfolding merge_config
merge_config-job_in hook job base overlay =
    ap (job_in job) (get-merge_maps merge_hook base.hooks overlay.hooks hook)
    ∙ job_in-both job (get hook base.hooks) (get hook overlay.hooks)

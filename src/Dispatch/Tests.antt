-- ===== src/Dispatch/Tests.antt =====
-- The theorems about dispatch at small inputs.
use betterhook.Base.{
  ◌≡◌, ◌≤◌, refl, String, true, false, List, [], ◌∷◌, ◌++◌, none, some, All, empty, get, get_elem?,
}
use Prim.Native.String.{len}
use mathlib.Core.List.{Perm}
use betterhook.Base.Paths.{starts_with, components}
use betterhook.Base.Sorting.{sort_by, insert_by}
use betterhook.Config.Schema.{Job, Hook, Package, Config}
use betterhook.Config.Lower.{make_job}
use mathlib.Core.Logic.{◌↔◌}
use betterhook.Config.Lower.Order.{InOrder}
use betterhook.Config.Tests.{lint_job}
use betterhook.Dispatch.{
  values, hook_not_configured, match_package, by_length, resolve_packages, is_noop, resolve_config,
  merge_hooks,
}
use betterhook.Dispatch.Packages.{match_package_longest}
use betterhook.Dispatch.Sharing.{IsBucket, resolve_packages-IsBucket}
use betterhook.Dispatch.Merge.{merge_hooks-jobs, resolve_config-is_noop, IsShared, HasNoJob}

abbrev lint : Job
lint = make_job "lint" "eslint ." none none 0 none lint_job

abbrev web_hook : Hook
web_hook = record {
  name = "pre-commit";
  parallel = false;
  parallel_explicit = false;
  fail_fast = false;
  fail_fast_explicit = false;
  parallel_limit = none;
  stash_untracked = true;
  stash_untracked_explicit = false;
  jobs = lint ∷ [];
}

abbrev apps : Package
apps = record { name = "apps"; path = "apps"; hooks = empty }

abbrev web : Package
web = record { name = "web"; path = "apps/web"; hooks = (("pre-commit", web_hook) ∷ [], refl) }

abbrev monorepo : Config String
monorepo = record {
  meta = record { version = 1; min_betterhook = none };
  hooks = empty;
  packages = (("apps", apps) ∷ ("web", web) ∷ [], refl);
}

-- By components, and not by characters.
starts_with_tests :
    (starts_with "apps/web/a.ts" "apps/web" ≡ true)
    × (starts_with "apps/website/a.ts" "apps/web" ≡ false)
    × (starts_with "apps//web/./a.ts" "apps/web/" ≡ true)
    × (starts_with "/apps/a.ts" "apps" ≡ false)
unfolding starts_with components
starts_with_tests = (refl, refl, refl, refl)

match_package-web : match_package (by_length (apps ∷ web ∷ [])) "apps/web/a.ts" ≡ some 1
unfolding match_package by_length sort_by insert_by starts_with components
match_package-web = refl

match_package_longest_example :
    ((i : _)
      → match_package (by_length (apps ∷ web ∷ [])) "apps/web/a.ts" ≡ some i
      → (p : Package) × (get_elem? (apps ∷ web ∷ []) i ≡ some p)
        × (starts_with "apps/web/a.ts" p.path ≡ true)
        × ((j : _) (q : Package)
            → get_elem? (apps ∷ web ∷ []) j ≡ some q
            → starts_with "apps/web/a.ts" q.path ≡ true
            → len q.path ≤ len p.path))
    × (match_package (by_length (apps ∷ web ∷ [])) "apps/web/a.ts" ≡ none
        → (j : _) (q : Package) → get_elem? (apps ∷ web ∷ []) j ≡ some q
        → starts_with "apps/web/a.ts" q.path ≡ false)
match_package_longest_example = match_package_longest (apps ∷ web ∷ []) "apps/web/a.ts"

resolve_packages-IsBucket_example :
    All
      (IsBucket (values monorepo.packages.0) ("apps/web/a.ts" ∷ "README.md" ∷ []))
      (resolve_packages monorepo ("apps/web/a.ts" ∷ "README.md" ∷ []))
resolve_packages-IsBucket_example =
    resolve_packages-IsBucket monorepo ("apps/web/a.ts" ∷ "README.md" ∷ [])

merge_hooks-jobs_example :
    InOrder (merge_hooks web_hook web_hook).jobs
    × (kept : List Job) × (dropped : List Job) × IsShared web_hook.jobs web_hook.jobs kept dropped
    × Perm (merge_hooks web_hook web_hook).jobs (kept ++ web_hook.jobs)
merge_hooks-jobs_example = merge_hooks-jobs web_hook web_hook

resolve_config-is_noop_example :
    ((is_noop (resolve_config monorepo "commit-msg") ≡ true) ↔ (
      HasNoJob (get "commit-msg" monorepo.hooks)
      × All (λ (p : Package). HasNoJob (get "commit-msg" p.hooks)) (values monorepo.packages.0)))
    × ((resolve_config monorepo "commit-msg" ≡ hook_not_configured) ↔ (
        (get "commit-msg" monorepo.hooks ≡ none)
        × All (λ (p : Package). get "commit-msg" p.hooks ≡ none) (values monorepo.packages.0)))
resolve_config-is_noop_example = resolve_config-is_noop monorepo "commit-msg"

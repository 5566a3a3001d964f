-- ===== src/Config/Tests/Extending.antt =====
-- A configuration that extends another, and two that extend each other.
use text.Mathlib.Text.{◌==◌ as str_eq}
use betterhook.Base.{
  ◌≡◌, ◌≢◌, refl, List, [], ◌∷◌, true, false, none, some, Result, ok, err, arith, if◌then◌else◌,
}
use betterhook.Base.Paths.{join_path, parent_or_dot}
use betterhook.Config.Schema.{FilePath}
use betterhook.Config.Raw.{RawConfig, default_config, merge_config}
use betterhook.Config.Crates.{ConfigError, invalid}
use betterhook.Config.Extends.{
  ConfigFiles, is_seen, remove_seen, Outcome, canonical_of, circular, find_override,
  find_local_override, merge_local, apply_override, absolute_from, finish_file, continue,
  visit_each, visit_parsed, resolve_impl, config_of, resolve,
}
use betterhook.Config.Extends.Ends.{resolve_ends}
use betterhook.Config.Extends.Ends.Cycles.{itself, resolve_acyclic}
use betterhook.Config.Tests.{strict}

abbrev main_path : FilePath
main_path = "/r/betterhook.toml"

abbrev base_path : FilePath
base_path = "/r/base.toml"

abbrev main_config : RawConfig
main_config = record default_config { extends = "base.toml" ∷ [] }

abbrev parsed : RawConfig → FilePath → Result (ConfigError strict) RawConfig
parsed base p =
    if str_eq main_path p
    then ok main_config
    else if str_eq base_path p
    then ok base
    else err (invalid "no such file")

abbrev two_files : RawConfig → ConfigFiles strict
two_files base = record { canonicalize = λ p. none; is_file = λ p. false; parse_file = parsed base }

abbrev known : List FilePath
known = main_path ∷ base_path ∷ []

readable :
    (base : RawConfig) (p : FilePath) (main : RawConfig)
    → parsed base p ≡ ok main
    → is_seen (canonical_of strict (two_files base) p) known ≡ true
unfolding is_seen canonical_of
readable base p main h = ground (arith, h)

code : Unit {0}
unfolding is_seen remove_seen canonical_of circular find_override find_local_override merge_local
    apply_override absolute_from finish_file continue visit_each visit_parsed resolve_impl config_of
    resolve join_path parent_or_dot
code = tt

-- The base extends itself.
resolve_circle :
    resolve strict (two_files main_config) 3 main_path
    ≡ some (err (circular strict (two_files main_config) base_path))
unfolding code
resolve_circle = refl

resolve_ends_example :
    (r : Outcome strict (two_files main_config) RawConfig) × (resolve strict
        (two_files main_config)
        3
        main_path
      ≡ some r)
resolve_ends_example =
    resolve_ends strict (two_files main_config) known (readable main_config) 3 main_path
      (omega arith)

abbrev merged : RawConfig
merged =
    merge_config (merge_config default_config (merge_config default_config default_config))
      (record main_config { extends = [] })

resolve_two : resolve strict (two_files default_config) 3 main_path ≡ some (ok merged)
unfolding code
resolve_two = refl

absolute_base :
    absolute_from strict (two_files default_config) (parent_or_dot main_path) "base.toml"
    ≡ base_path
unfolding code
absolute_base = refl

resolve_acyclic_example :
    canonical_of strict
      (two_files default_config)
      (absolute_from strict (two_files default_config) (parent_or_dot main_path) "base.toml")
    ≢ canonical_of strict (two_files default_config) main_path
resolve_acyclic_example =
    resolve_acyclic strict (two_files default_config) known (readable default_config) 2 main_path
      (absolute_from strict (two_files default_config) (parent_or_dot main_path) "base.toml")
      "base.toml" 0 main_config merged (omega arith) resolve_two refl refl
      (itself
        (absolute_from strict (two_files default_config) (parent_or_dot main_path) "base.toml"))

parent_or_dot_tests :
    (parent_or_dot "/x" ≡ "/")
    × (parent_or_dot "/r/x" ≡ "/r")
    × (parent_or_dot "r/x" ≡ "r")
    × (parent_or_dot "x" ≡ "")
unfolding parent_or_dot
parent_or_dot_tests = (refl, refl, refl, refl)

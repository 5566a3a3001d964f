-- ===== src/Runner/GlobUtil.antt =====
-- apps/betterhook/src/runner/glob_util.rs
use betterhook.Base.{
  String, List, [], ◌∷◌, Option, none, some, Result, ok, ◌>>=◌, is_empty, if◌then◌else◌,
}
use betterhook.Globset.{Globset}

module _ (globset : Globset) where
  open globset use {Glob, GlobSet, Error, new, build}

  -- The loop `for pat in patterns { builder.add(Glob::new(pat)?) }`.
  unfoldable pub add_all : List String → Result Error (List Glob)
  add_all [] = ok []
  add_all (pat ∷ patterns) = do glob ← new pat; globs ← add_all patterns; ok (glob ∷ globs)

  unfoldable pub build_globset : List String → Result Error (Option GlobSet)
  build_globset patterns =
      if is_empty patterns
      then ok none
      else do globs ← add_all patterns; set ← build globs; ok (some set)

  unfoldable pub build_globset_always : List String → Result Error GlobSet
  build_globset_always patterns = do globs ← add_all patterns; build globs

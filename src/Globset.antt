-- ===== src/Globset.antt =====
-- The `globset` crate as its users see it: a pattern is compiled by `Glob::new`, patterns are
-- collected by a `GlobSetBuilder` (here the list of those added, in order), `build` makes the set,
-- and `is_match` asks it about a path.
use betterhook.Base.{String, List, Bool, Result}

pub record Globset : Type 1 where
  pub Glob : Type 0
  pub GlobSet : Type 0
  pub Error : Type 0
  pub new : String → Result Error Glob
  pub build : List Glob → Result Error GlobSet
  pub is_match : GlobSet → String → Bool
  -- the `Display` of an error
  pub message : Error → String

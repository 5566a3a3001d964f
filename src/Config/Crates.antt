-- ===== src/Config/Crates.antt =====
-- The crates that a configuration is lowered with, and the errors of doing so.
use betterhook.Base.{ℕ, String, Result}

-- `semver::VersionReq::parse`, with the text of its error, and `humantime::parse_duration`.
pub record Crates : Type 1 where
  pub VersionReq : Type 0
  pub parse_version_req : String → Result String VersionReq
  pub DurationError : Type 0
  pub parse_duration : String → Result DurationError ℕ
  -- the errors of reading and parsing a file
  pub FileError : Type 0

-- `file` stands for `Io`, `UnsupportedFormat`, `Toml`, `Yaml`, `Json` and `Kdl`.
pub data ConfigError (crates : Crates) : Type 0 where
  invalid : (message : String) → ConfigError crates
  duration : (job input : String) (source : crates.DurationError) → ConfigError crates
  file : crates.FileError → ConfigError crates

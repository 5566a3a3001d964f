-- ===== src/Builtins.antt =====
-- apps/betterhook/src/builtins: the table of builtin tools, by whose entries a job is completed.
use betterhook.Base.{
  String, List, [], ◌∷◌, Bool, true, false, Option, none, some, BTreeMap, empty, get, insert,
}

pub record BuiltinMeta : Type 0 where
  pub id : String
  pub description : String
  pub run : String
  pub fix : Option String
  pub glob : List String
  pub reads : List String
  pub writes : List String
  pub network : Bool
  pub concurrent_safe : Bool
  pub tool_binary : String

unfoldable pub rustfmt : BuiltinMeta
rustfmt = record {
  id = "rustfmt";
  description = "Check Rust formatting with `cargo fmt --check`.";
  run = "cargo fmt --all -- --check";
  fix = some "cargo fmt --all";
  glob = "*.rs" ∷ [];
  reads = "**/*.rs" ∷ [];
  writes = [];
  network = false;
  concurrent_safe = true;
  tool_binary = "cargo";
}

unfoldable pub clippy : BuiltinMeta
clippy = record {
  id = "clippy";
  description = "Rust lints via `cargo clippy --message-format=json`.";
  run = "cargo clippy --workspace --all-targets --message-format=json -- -D warnings";
  fix = some "cargo clippy --workspace --all-targets --fix --allow-dirty --allow-staged";
  glob = "*.rs" ∷ [];
  reads = "**/*.rs" ∷ "**/Cargo.toml" ∷ "**/Cargo.lock" ∷ [];
  writes = [];
  network = false;
  concurrent_safe = true;
  tool_binary = "cargo";
}

unfoldable pub prettier : BuiltinMeta
prettier = record {
  id = "prettier";
  description = "JS/TS/CSS/MD formatter via `prettier --check`.";
  run = "prettier --check {staged_files}";
  fix = some "prettier --write {files}";
  glob =
      "*.js" ∷ "*.jsx" ∷ "*.ts" ∷ "*.tsx" ∷ "*.json" ∷ "*.css" ∷ "*.scss" ∷ "*.md" ∷ "*.yml"
      ∷ "*.yaml" ∷ "*.html" ∷ [];
  reads = "**/*" ∷ [];
  writes = [];
  network = false;
  concurrent_safe = true;
  tool_binary = "prettier";
}

unfoldable pub eslint : BuiltinMeta
eslint = record {
  id = "eslint";
  description = "JS/TS linter via `eslint --format=json`.";
  run = "eslint --format=json {staged_files}";
  fix = some "eslint --fix {files}";
  glob = "*.js" ∷ "*.jsx" ∷ "*.ts" ∷ "*.tsx" ∷ "*.mjs" ∷ "*.cjs" ∷ [];
  reads = "**/*.js" ∷ "**/*.jsx" ∷ "**/*.ts" ∷ "**/*.tsx" ∷ [];
  writes = [];
  network = false;
  concurrent_safe = true;
  tool_binary = "eslint";
}

unfoldable pub ruff : BuiltinMeta
ruff = record {
  id = "ruff";
  description = "Python linter via `ruff check --output-format=json`.";
  run = "ruff check --output-format=json {staged_files}";
  fix = some "ruff check --fix {files}";
  glob = "*.py" ∷ "*.pyi" ∷ [];
  reads = "**/*.py" ∷ "**/*.pyi" ∷ "**/pyproject.toml" ∷ "**/ruff.toml" ∷ [];
  writes = [];
  network = false;
  concurrent_safe = true;
  tool_binary = "ruff";
}

unfoldable pub black : BuiltinMeta
black = record {
  id = "black";
  description = "Python formatter via `black --check`.";
  run = "black --check {staged_files}";
  fix = some "black {files}";
  glob = "*.py" ∷ "*.pyi" ∷ [];
  reads = "**/*.py" ∷ "**/*.pyi" ∷ [];
  writes = [];
  network = false;
  concurrent_safe = true;
  tool_binary = "black";
}

unfoldable pub gofmt : BuiltinMeta
gofmt = record {
  id = "gofmt";
  description = "Go formatter via `gofmt -l` (list drifted files).";
  run = "gofmt -l {staged_files}";
  fix = some "gofmt -w {files}";
  glob = "*.go" ∷ [];
  reads = "**/*.go" ∷ [];
  writes = [];
  network = false;
  concurrent_safe = true;
  tool_binary = "gofmt";
}

unfoldable pub govet : BuiltinMeta
govet = record {
  id = "govet";
  description = "Go suspicious construct check via `go vet ./...`.";
  run = "go vet ./...";
  fix = none;
  glob = "*.go" ∷ [];
  reads = "**/*.go" ∷ "**/go.mod" ∷ "**/go.sum" ∷ [];
  writes = [];
  network = false;
  concurrent_safe = true;
  tool_binary = "go";
}

unfoldable pub biome : BuiltinMeta
biome = record {
  id = "biome";
  description = "JS/TS formatter + linter via `biome check --reporter=json`.";
  run = "biome check --reporter=json {staged_files}";
  fix = some "biome check --write --reporter=json {files}";
  glob = "*.js" ∷ "*.jsx" ∷ "*.ts" ∷ "*.tsx" ∷ "*.json" ∷ [];
  reads = "**/*.js" ∷ "**/*.jsx" ∷ "**/*.ts" ∷ "**/*.tsx" ∷ "**/*.json" ∷ [];
  writes = [];
  network = false;
  concurrent_safe = true;
  tool_binary = "biome";
}

unfoldable pub oxlint : BuiltinMeta
oxlint = record {
  id = "oxlint";
  description = "Very fast JS/TS linter (Rust) via `oxlint --format=json`.";
  run = "oxlint --format=json {staged_files}";
  fix = some "oxlint --fix {files}";
  glob = "*.js" ∷ "*.jsx" ∷ "*.ts" ∷ "*.tsx" ∷ "*.mjs" ∷ "*.cjs" ∷ [];
  reads = "**/*.js" ∷ "**/*.jsx" ∷ "**/*.ts" ∷ "**/*.tsx" ∷ [];
  writes = [];
  network = false;
  concurrent_safe = true;
  tool_binary = "oxlint";
}

unfoldable pub shellcheck : BuiltinMeta
shellcheck = record {
  id = "shellcheck";
  description = "Shell lint via `shellcheck --format=json`.";
  run = "shellcheck --format=json {staged_files}";
  fix = none;
  glob = "*.sh" ∷ "*.bash" ∷ [];
  reads = "**/*.sh" ∷ "**/*.bash" ∷ [];
  writes = [];
  network = false;
  concurrent_safe = true;
  tool_binary = "shellcheck";
}

unfoldable pub gitleaks : BuiltinMeta
gitleaks = record {
  id = "gitleaks";
  description = "Secret scanner via `gitleaks protect --staged --report-format=json`.";
  run = "gitleaks protect --staged --report-format=json --redact -v";
  fix = none;
  glob = [];
  reads = "**/*" ∷ [];
  writes = [];
  network = false;
  concurrent_safe = true;
  tool_binary = "gitleaks";
}

unfoldable pub register : List BuiltinMeta → BTreeMap BuiltinMeta → BTreeMap BuiltinMeta
register [] map = map
register (m ∷ items) map = register items (insert m.id m map)

unfoldable pub items : List BuiltinMeta
items =
    rustfmt ∷ clippy ∷ prettier ∷ eslint ∷ ruff ∷ black ∷ gofmt ∷ govet ∷ biome ∷ oxlint
    ∷ shellcheck ∷ gitleaks ∷ []

unfoldable pub registry : BTreeMap BuiltinMeta
registry = register items empty

-- `builtins::get`
unfoldable pub get_builtin : String → Option BuiltinMeta
get_builtin name = get name registry

-- ===== src/Git/Tests.antt =====
-- The theorems about file sets, worktrees and the stash at small inputs.
use text.Mathlib.Text.{◌==◌ as str_eq}
use betterhook.Base.{
  String, List, [], ◌∷◌, map, true, false, none, some, Result, ok, err, if◌then◌else◌, ◌≡◌, refl,
  ◌⊎◌, All,
}
use betterhook.Base.Search.{
  then_text, contains_text, strip_prefix, is_free_of, join, replace, replace_from, byte_len,
}
use betterhook.Base.Actions.{and_then}
use betterhook.Config.Schema.{FilePath}
use betterhook.Git.Fileset.{
  is_safe, all_safe, quote_rest, shell_escape, contains_any, has_template, replace_each,
  substitute_once, flush, is_full, push_argument, add_file, add_files, last_chunk, expand_template,
  parse_nul_delimited,
}
use betterhook.Git.Fileset.Bytes.{IsBounded, expand_template-IsBounded}
use betterhook.Git.Fileset.Groups.{concat}
use betterhook.Git.Fileset.Names.{print_nul, parse_nul_delimited-print_nul}
use betterhook.Git.RevParse.{Git, GitError, Output, run_git, stdout_of, success}
use betterhook.Git.Worktrees.{WorktreeInfo}
use betterhook.Git.Stash.{StashGuard, pop}
use betterhook.Git.Stash.Laws.{IsOnTop, pop_top, pop-IsOnTop}

-- A file named like a template opens the quotes of the one before it: `$(rm)` stands unquoted.
expand_template_reopens_quotes :
    expand_template "x {staged_files}" ("$(rm)" ∷ "{files}" ∷ [])
    ≡ "x '$(rm)' ''$(rm)' '{files}''" ∷ []
unfolding expand_template has_template contains_any contains_text strip_prefix add_files add_file
    is_full push_argument last_chunk flush substitute_once replace_each replace replace_from join
    shell_escape all_safe is_safe quote_rest byte_len
expand_template_reopens_quotes = refl

no_brace : is_free_of b'{' "eslint " ≡ true
unfolding is_free_of
no_brace = refl

expand_template-IsBounded_example :
    (gs : List (List FilePath)) × (expand_template "eslint {files}" ("a b.ts" ∷ "c.ts" ∷ [])
      ≡ map (λ g. then_text "eslint " (join " " (map shell_escape g))) gs)
    × (concat gs ≡ "a b.ts" ∷ "c.ts" ∷ [])
    × All (IsBounded "eslint ") gs
expand_template-IsBounded_example =
    expand_template-IsBounded "eslint " "a b.ts" ("c.ts" ∷ []) no_brace

two_free : (is_free_of 0 "a b" ≡ true) × (is_free_of 0 "c" ≡ true)
unfolding is_free_of
two_free = (refl, refl)

parse_nul_delimited-print_nul_example :
    parse_nul_delimited (print_nul ("a b" ∷ "c" ∷ [])) ≡ "a b" ∷ "c" ∷ []
parse_nul_delimited-print_nul_example =
    parse_nul_delimited-print_nul ("a b" ∷ "c" ∷ []) ((refl, two_free.0), ((refl, two_free.1), tt))

abbrev linked : List WorktreeInfo
linked =
    (record {
      path = "/r";
      head = some "abc";
      branch = some "refs/heads/main";
      flags = record { bare = false; detached = false; locked = false; prunable = false };
    })
    ∷ (record {
      path = "/r/wt one";
      head = some "def";
      branch = none;
      flags = record { bare = false; detached = true; locked = true; prunable = false };
    })
    ∷ []

-- A stash of one entry; git pops it once.
abbrev entry : String
entry = "stash@{0}: On main: betterhook-stash-7-9\n"

answer : List String → String → Result String Output × String
answer args stash =
    let now = if str_eq (join " " args) "stash list" then stash else "" in
    (ok (record { status = some 0; stdout = now; stderr = "" }), now)

abbrev small_git : Git
small_git = record {
  Repo = String;
  IoError = String;
  output = λ cwd args stash. answer args stash;
  canonicalize = λ path stash. some path;
}

abbrev guard : StashGuard
guard = record { worktree = "/r"; message = "betterhook-stash-7-9"; created = true }

listing : run_git small_git "/r" ("stash" ∷ "list" ∷ []) entry ≡ (ok entry, entry)
unfolding run_git stdout_of success answer join
listing = refl

pop-IsOnTop_example :
    (IsOnTop guard.message entry
      × (pop small_git guard entry
          ≡ and_then (pop_top small_git guard entry) (λ out s. (ok tt, s))))
    ⊎ ((message : String) × (pop small_git guard entry ≡ (err (GitError.porcelain message), entry)))
pop-IsOnTop_example = pop-IsOnTop small_git guard entry entry entry refl listing

-- ===== src/Git/Worktrees/Print.antt =====
-- What git prints for `git worktree list --porcelain`, and that it is read back (git/rev_parse.rs).
use Prim.Native.Char.{Char}
use Prim.Native.String.compare
use betterhook.Base.{
  String, List, [], ◌∷◌, ◌++◌, Bool, true, false, Option, none, some, Result, ◌≡◌,
}
use betterhook.Base.Search.{then_text, is_free_of}
use betterhook.Git.RevParse.{GitError}
use betterhook.Git.Worktrees.{WorktreeInfo, Parsed, parse_lines}

abbrev value_line : String → Option String → List String
value_line key none = []
value_line key (some value) = then_text key (then_text " " value) ∷ []

abbrev flag_line : String → Bool → List String
flag_line key false = []
flag_line key true = key ∷ []

-- The lines that git prints for a worktree: its path, its attributes in git's order, and an empty line;
-- other lines follow.
abbrev pub lines_of : WorktreeInfo → List String → List String
lines_of wt rest =
    then_text "worktree " wt.path
    ∷ (flag_line "bare" wt.flags.bare
        ++ (value_line "HEAD" wt.head
            ++ (flag_line "detached" wt.flags.detached
                ++ (value_line "branch" wt.branch
                    ++ (flag_line "locked" wt.flags.locked
                        ++ (flag_line "prunable" wt.flags.prunable ++ ("" ∷ rest)))))))

abbrev pub all_lines : List WorktreeInfo → List String
all_lines [] = []
all_lines (wt ∷ wts) = lines_of wt (all_lines wts)

abbrev pub unlines : List String → String
unlines [] = ""
unlines (l ∷ ls) = then_text l (then_text "\n" (unlines ls))

-- No line break is in it.
abbrev pub IsOneLine : String → Type 0
IsOneLine s = (is_free_of 10 s ≡ true) × (is_free_of 13 s ≡ true)

module _ (IoError : Type 0) where
  -- The state once a worktree has been read so far.
  reading :
      List WorktreeInfo
      → String
      → Option String
      → Option String
      → Bool
      → Bool
      → Bool
      → Bool
      → Parsed
  reading out path head branch bare detached locked prunable = record {
    out = out;
    current = some (record {
      path = path;
      head = head;
      branch = branch;
      flags = record { bare = bare; detached = detached; locked = locked; prunable = prunable };
    });
  }

  abbrev parse_rest : List String → Parsed → Result (GitError IoError) Parsed
  parse_rest = parse_lines IoError

  abbrev between : List WorktreeInfo → Parsed
  between out = record { out = out; current = none }

-- The value of an attribute, if there is one, is in one line.
abbrev pub IsOneLineIfAny : Option String → Type 0
IsOneLineIfAny none = Unit
IsOneLineIfAny (some value) = IsOneLine value

abbrev pub HasOneLineTexts : WorktreeInfo → Type 0
HasOneLineTexts wt = IsOneLine wt.path × IsOneLineIfAny wt.head × IsOneLineIfAny wt.branch

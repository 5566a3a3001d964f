-- ===== src/Base/Paths.antt =====
-- Rust's `Path::starts_with` on Unix: by components, which are the parts between slashes without
-- the empty ones and without `.` after the first; an absolute path starts with the root.
use Prim.Native.Char.{Char, code}
use Prim.Native.String.{String}
use mathlib.Core.Bool.{Bool, true, false, ◌&&◌, ◌||◌}
use mathlib.Core.List.{List, [], ◌∷◌}
use mathlib.Core.Option.{Option, none, some}
use text.Mathlib.Text.{◌==◌ as str_eq}
use betterhook.Base.Tests.{◌==◌, if◌then◌else◌}

abbrev on_first : Char → List String → List String
on_first c [] = (String.◌∷◌ c "") ∷ []
on_first c (part ∷ parts) = (String.◌∷◌ c part) ∷ parts

-- The parts between slashes.
abbrev parts_of : String → List String
parts_of String.[] = "" ∷ []
parts_of (String.◌∷◌ c cs) =
    let rest = parts_of cs in if code c == 47 then "" ∷ rest else on_first c rest

abbrev keep_parts : List String → List String
keep_parts [] = []
keep_parts (part ∷ parts) =
    let rest = keep_parts parts in if str_eq part "" || str_eq part "." then rest else part ∷ rest

abbrev from_parts : List String → List String
from_parts [] = []
from_parts (first ∷ []) = if str_eq first "" then [] else first ∷ []
from_parts (first ∷ part ∷ parts) =
    let rest = keep_parts (part ∷ parts) in if str_eq first "" then "/" ∷ rest else first ∷ rest

unfoldable pub components : String → List String
components path = from_parts (parts_of path)

abbrev pub is_prefix : List String → List String → Bool
is_prefix [] ys = true
is_prefix (x ∷ xs) [] = false
is_prefix (x ∷ xs) (y ∷ ys) = str_eq x y && is_prefix xs ys

-- `file.starts_with(base)`
unfoldable pub starts_with : String → String → Bool
starts_with file base = is_prefix (components base) (components file)

abbrev pub is_absolute : String → Bool
is_absolute String.[] = false
is_absolute (String.◌∷◌ c cs) = code c == 47

-- `base.push(path)` for a relative `path`
abbrev push_path : String → String → String
push_path String.[] path = path
push_path (String.◌∷◌ c String.[]) path =
    String.◌∷◌ c (if code c == 47 then path else String.◌∷◌ (Char.char 47 tt) path)
push_path (String.◌∷◌ c (String.◌∷◌ d cs)) path = String.◌∷◌ c (push_path (String.◌∷◌ d cs) path)

-- `base.join(path)`
unfoldable pub join_path : String → String → String
join_path base path = if is_absolute path then path else push_path base path

-- The text before the last slash, if there is one.
abbrev before_slash : String → Option String
before_slash String.[] = none
before_slash (String.◌∷◌ c cs) = elim (before_slash cs) [
  | some rest ↦ some (String.◌∷◌ c rest)
  | none ↦ if code c == 47 then some "" else none
]

-- The parent of a file in the root is the root.
abbrev or_root : String → String
or_root String.[] = "/"
or_root (String.◌∷◌ c cs) = String.◌∷◌ c cs

-- `path.parent().unwrap_or(Path::new("."))` for a path that ends with a name.
unfoldable pub parent_or_dot : String → String
parent_or_dot path = elim (before_slash path) [ none ↦ "" | some parent ↦ or_root parent ]

-- ===== src/Git/Fileset/Names.antt =====
-- What git prints with `-z` is read back (git/fileset.rs, `parse_nul_delimited`).
use Prim.Native.Char.{Char}
use text.Mathlib.Text.{◌==◌ as str_eq}
use betterhook.Base.{String, List, [], ◌∷◌, true, false, ◌≡◌, refl, ap, ◌∙◌, All}
use betterhook.Base.Search.{then_text, is_free_of, split_at}
use betterhook.Base.Search.Laws.{split_at-then_text}
use betterhook.Config.Schema.{FilePath}
use betterhook.Git.Fileset.{drop_empty, parse_nul_delimited}

-- The paths as git prints them with `-z`: a NUL after each.
abbrev pub print_nul : List FilePath → String
print_nul [] = ""
print_nul (p ∷ ps) = then_text p (String.◌∷◌ (Char.char 0 tt) (print_nul ps))

-- A path is not empty and has no NUL.
abbrev pub IsPath : FilePath → Type 0
IsPath p = (str_eq p "" ≡ false) × (is_free_of 0 p ≡ true)

-- What git prints for a list of paths is read back as that list, where no path is empty or has a NUL:
-- also paths with spaces, line breaks or quotes.
pub parse_nul_delimited-print_nul :
    (ps : List FilePath) → All IsPath ps → parse_nul_delimited (print_nul ps) ≡ ps
unfolding parse_nul_delimited drop_empty split_at
parse_nul_delimited-print_nul [] h = refl
parse_nul_delimited-print_nul (p ∷ ps) ((e, f), h) =
    ap drop_empty (split_at-then_text 0 p (Char.char 0 tt) (print_nul ps) refl f)
    ∙ cc (e, parse_nul_delimited-print_nul ps h)

-- ===== src/Git/Fileset/Shell.antt =====
-- How a shell reads what `shell_escape` writes (git/fileset.rs): words between spaces, single quotes,
-- the backslash. A character with any other meaning to a shell is refused outside quotes.
use Prim.Native.String.compare
use Prim.Native.Char.{Char, code}
use text.Mathlib.TextEquality.{Char-path}
use betterhook.Base.{
  ℕ, String, List, [], ◌∷◌, map, inl, inr, true, false, Option, none, some, ◌≡◌, refl, ap, arith,
  ◌==◌, if◌then◌else◌, &&-true, Bool-cases,
}
use betterhook.Base.Search.{then_text, join}
use betterhook.Git.Fileset.{is_safe, all_safe, quote_rest, shell_escape}

-- Where in a word the shell is.
pub data Mode : Type 0 where
  between plain quoted escaped refused : Mode

abbrev next_plain : ℕ → Mode
next_plain c =
    if c == b'\''
    then quoted
    else if c == b'\\'
    then escaped
    else if is_safe c
    then plain
    else refused

abbrev next : Mode → ℕ → Mode
next between c = if c == b' ' then between else next_plain c
next plain c = if c == b' ' then between else next_plain c
next quoted c = if c == b'\'' then plain else quoted
next escaped c = plain
next refused c = refused

-- The character is the next of the word.
abbrev push_char : Char → Option (List String) → Option (List String)
push_char c none = none
push_char c (some []) = none
push_char c (some (w ∷ ws)) = some ((String.◌∷◌ c w) ∷ ws)

-- A space ends the word.
abbrev end_word : Option (List String) → Option (List String)
end_word none = none
end_word (some ws) = some ("" ∷ ws)

abbrev act_plain : Char → Option (List String) → Option (List String)
act_plain c rest =
    if code c == b'\''
    then rest
    else if code c == b'\\'
    then rest
    else if is_safe (code c)
    then push_char c rest
    else none

-- What the words are, given those that the rest is read as.
abbrev act : Mode → Char → Option (List String) → Option (List String)
act between c rest = if code c == b' ' then rest else act_plain c rest
act plain c rest = if code c == b' ' then end_word rest else act_plain c rest
act quoted c rest = if code c == b'\'' then rest else push_char c rest
act escaped c rest = push_char c rest
act refused c rest = none

abbrev at_end : Mode → Option (List String)
at_end between = some []
at_end plain = some ("" ∷ [])
at_end quoted = none
at_end escaped = none
at_end refused = none

unfoldable pub read_from : Mode → String → Option (List String)
read_from mode String.[] = at_end mode
read_from mode (String.◌∷◌ c cs) = act mode c (read_from (next mode (code c)) cs)

-- The words of a command line; `none` if it is not made of plain and quoted words alone.
unfoldable pub read_words : String → Option (List String)
read_words line = read_from between line

abbrev push_text : String → Option (List String) → Option (List String)
push_text String.[] rest = rest
push_text (String.◌∷◌ c cs) rest = push_char c (push_text cs rest)

safe_is_plain :
    (c : ℕ) → is_safe c ≡ true → (c == b' ' ≡ false) × (c == b'\'' ≡ false) × (c == b'\\' ≡ false)
unfolding is_safe
safe_is_plain c h = (ground arith, ground arith, ground arith)

read-all_safe :
    (s t : String)
    → all_safe s ≡ true
    → read_from plain (then_text s t) ≡ push_text s (read_from plain t)
unfolding all_safe read_from
read-all_safe String.[] t h = refl
read-all_safe (String.◌∷◌ c s) t h =
    let (safe, rest) = &&-true (is_safe (code c)) (all_safe s) h in
    let (a, b, d) = safe_is_plain (code c) safe in ground (arith, read-all_safe s t rest)

read-quote_rest :
    (s t : String) → read_from quoted (then_text (quote_rest s) t) ≡ push_text s (read_from plain t)
unfolding quote_rest read_from
read-quote_rest String.[] t = refl
read-quote_rest (String.◌∷◌ c s) t =
    ground (arith, read-quote_rest s t, Char-path c (Char.char b'\'' tt))

-- An escaped text is read as itself, wherever a word may begin.
read-shell_escape :
    (s t : String)
    → read_from between (then_text (shell_escape s) t) ≡ push_text s (read_from plain t)
unfolding shell_escape all_safe read_from
read-shell_escape String.[] t = read-quote_rest "" t
read-shell_escape (String.◌∷◌ c s) t = elim (Bool-cases (all_safe (String.◌∷◌ c s))) [
  | inl h ↦
      let (safe, rest) = &&-true (is_safe (code c)) (all_safe s) h in
      let (a, b, d) = safe_is_plain (code c) safe in
      ground (arith, read-all_safe s t rest, compare.cons-nil c s)
  | inr h ↦ ground (arith, read-quote_rest (String.◌∷◌ c s) t)
]

push_text_word : (s : String) (ws : List String) → push_text s (some ("" ∷ ws)) ≡ some (s ∷ ws)
push_text_word String.[] ws = refl
push_text_word (String.◌∷◌ c s) ws = ground (arith, push_text_word s ws)

then_text_nil : (s : String) → then_text s "" ≡ s
then_text_nil String.[] = refl
then_text_nil (String.◌∷◌ c s) = ap (λ r. String.◌∷◌ c r) (then_text_nil s)

pub read_words-join :
    (files : List String) → read_words (join " " (map shell_escape files)) ≡ some files
unfolding read_words read_from join
read_words-join [] = refl
read_words-join (f ∷ []) =
    cc (read-shell_escape f "", then_text_nil (shell_escape f), push_text_word f [])
read_words-join (f ∷ g ∷ files) =
    let rest = join " " (map shell_escape (g ∷ files)) in
    let here = read-shell_escape f (then_text " " rest) in
    let there = read_words-join (g ∷ files) in cc (here, there, push_text_word f (g ∷ files))

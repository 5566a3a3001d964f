-- ===== src/Base/Search/Laws.antt =====
-- How texts are taken apart that were put together from parts without the separating character.
use Prim.Native.Char.{Char, code}
use Prim.Native.String.{String}
use Prim.Native.Nat.{ℕ}
use mathlib.Core.Path.{◌≡◌, refl, ap, sym, ◌∙◌}
use mathlib.Core.Bool.{Bool, true, false}
use mathlib.Core.List.{List, [], ◌∷◌}
use mathlib.Core.Option.{none, some}
use native.Mathlib.Omega.{arith}
use betterhook.Base.Tests.{◌==◌, if◌then◌else◌}
use betterhook.Base.Search.{
  then_text, split_at, is_free_of, split_once, lines, end_lines, strip_cr, on_head,
}

pub split_at-then_text :
    (n : ℕ) (s : String) (c : Char) (t : String)
    → code c == n ≡ true
    → is_free_of n s ≡ true
    → split_at n (then_text s (String.◌∷◌ c t)) ≡ s ∷ split_at n t
unfolding split_at is_free_of
split_at-then_text n String.[] c t e h = cc e
split_at-then_text n (String.◌∷◌ d s) c t e h = ground (arith, split_at-then_text n s c t e)

pub split_once-then_text :
    (n : ℕ) (s : String) (c : Char) (t : String)
    → code c == n ≡ true
    → is_free_of n s ≡ true
    → split_once n (then_text s (String.◌∷◌ c t)) ≡ some (s, t)
unfolding split_once is_free_of
split_once-then_text n String.[] c t e h = cc e
split_once-then_text n (String.◌∷◌ d s) c t e h = ground (arith, split_once-then_text n s c t e)

pub split_once-none : (n : ℕ) (s : String) → is_free_of n s ≡ true → split_once n s ≡ none
unfolding split_once is_free_of
split_once-none n String.[] h = refl
split_once-none n (String.◌∷◌ d s) h = ground (arith, split_once-none n s)

strip_cr_free : (s : String) → is_free_of 13 s ≡ true → strip_cr s ≡ s
unfolding is_free_of
strip_cr_free String.[] h = refl
strip_cr_free (String.◌∷◌ c String.[]) h = ground arith
strip_cr_free (String.◌∷◌ c (String.◌∷◌ d s)) h = ground (arith, strip_cr_free (String.◌∷◌ d s))

either_some :
    (b : Bool) (c : Char) (ss : List String)
    → (x : String) × (xs : List String) × ((if b then "" ∷ ss else on_head c ss) ≡ x ∷ xs)
either_some true c ss = ("", ss, refl)
either_some false c [] = (String.◌∷◌ c "", [], refl)
either_some false c (s ∷ ss) = (String.◌∷◌ c s, ss, refl)

split_at_some : (n : ℕ) (s : String) → (x : String) × (xs : List String) × (split_at n s ≡ x ∷ xs)
unfolding split_at
split_at_some n String.[] = ("", [], refl)
split_at_some n (String.◌∷◌ c s) = either_some (code c == n) c (split_at n s)

-- The first line of a text that begins with a line and its end.
pub lines-then_text :
    (s t : String)
    → is_free_of 10 s ≡ true
    → is_free_of 13 s ≡ true
    → lines (then_text s (then_text "\n" t)) ≡ s ∷ lines t
unfolding lines
lines-then_text s t h k =
    let cut = split_at-then_text 10 s (Char.char 10 tt) t refl h in
    let (x, xs, e) = split_at_some 10 t in
    ap end_lines (cut ∙ ap (λ r. s ∷ r) e)
    ∙ ap (λ r. r ∷ end_lines (x ∷ xs)) (strip_cr_free s k)
    ∙ ap (λ r. s ∷ end_lines r) (sym e)

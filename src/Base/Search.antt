-- ===== src/Base/Search.antt =====
-- Rust's `str`, character by character: `contains`, `replace`, `join`, `split` on one character, and
-- the length in bytes of UTF-8.
pub mod Laws
use Prim.Native.Nat.{ℕ, zero, suc, ◌+◌, ◌-◌, ◌/◌, ◌%◌}
use Prim.Native.Char.{Char, code}
use Prim.Native.String.{String, len}
use mathlib.Core.Path.{◌≡◌, refl, ap}
use mathlib.Core.Bool.{Bool, true, false, ◌&&◌, ◌||◌}
use mathlib.Core.List.{List, [], ◌∷◌}
use mathlib.Core.Option.{Option, none, some}
use native.Mathlib.Omega.{arith}
use text.Mathlib.Text.{◌==◌ as str_eq}
use betterhook.Base.Lists.{get_or}
use betterhook.Base.Tests.{ltb, ◌==◌, if◌then◌else◌}

-- `s + t`
abbrev pub then_text : String → String → String
then_text String.[] t = t
then_text (String.◌∷◌ c s) t = String.◌∷◌ c (then_text s t)

pub then_text_assoc : (s t u : String) → then_text (then_text s t) u ≡ then_text s (then_text t u)
then_text_assoc String.[] t u = refl
then_text_assoc (String.◌∷◌ c s) t u = ap (λ r. String.◌∷◌ c r) (then_text_assoc s t u)

unfoldable pub strip_prefix : String → String → Option String
strip_prefix String.[] s = some s
strip_prefix (String.◌∷◌ p ps) String.[] = none
strip_prefix (String.◌∷◌ p ps) (String.◌∷◌ c cs) =
    let rest = strip_prefix ps cs in if code p == code c then rest else none

abbrev pub is_some {ℓ} : {A : Type ℓ} → Option A → Bool
is_some none = false
is_some (some a) = true

-- `s.contains(needle)`
unfoldable pub contains_text : String → String → Bool
contains_text String.[] needle = is_some (strip_prefix needle "")
contains_text (String.◌∷◌ c cs) needle =
    is_some (strip_prefix needle (String.◌∷◌ c cs)) || contains_text cs needle

-- The first `skip` characters belong to an occurrence that was replaced.
unfoldable pub replace_from : (from to : String) → ℕ → String → String
replace_from from to skip String.[] = ""
replace_from from to (suc skip) (String.◌∷◌ c cs) = replace_from from to skip cs
replace_from from to zero (String.◌∷◌ c cs) = elim (strip_prefix from (String.◌∷◌ c cs)) [
  | none ↦ String.◌∷◌ c (replace_from from to zero cs)
  | some rest ↦ then_text to (replace_from from to (len from - 1) cs)
]

-- `s.replace(from, to)`, for a text `from` that is not empty.
unfoldable pub replace : String → String → String → String
replace s from to = replace_from from to 0 s

unfoldable pub join : String → List String → String
join sep [] = ""
join sep (s ∷ []) = s
join sep (s ∷ t ∷ ts) = then_text s (then_text sep (join sep (t ∷ ts)))

abbrev pub on_head : Char → List String → List String
on_head c [] = (String.◌∷◌ c "") ∷ []
on_head c (part ∷ parts) = (String.◌∷◌ c part) ∷ parts

-- `s.split(c)`, for the character with the code `at`
unfoldable pub split_at : ℕ → String → List String
split_at at String.[] = "" ∷ []
split_at at (String.◌∷◌ c cs) =
    let rest = split_at at cs in if code c == at then "" ∷ rest else on_head c rest

-- Whether no character has the code `n`.
unfoldable pub is_free_of : ℕ → String → Bool
is_free_of n String.[] = true
is_free_of n (String.◌∷◌ c cs) = if code c == n then false else is_free_of n cs

abbrev char_bytes : ℕ → ℕ
char_bytes n = if ltb n 128 then 1 else if ltb n 2048 then 2 else if ltb n 65536 then 3 else 4

-- `s.len()`
unfoldable pub byte_len : String → ℕ
byte_len String.[] = 0
byte_len (String.◌∷◌ c cs) = char_bytes (code c) + byte_len cs

abbrev pub strip_cr : String → String
strip_cr String.[] = ""
strip_cr (String.◌∷◌ c String.[]) = if code c == 13 then "" else String.◌∷◌ c ""
strip_cr (String.◌∷◌ c (String.◌∷◌ d cs)) = String.◌∷◌ c (strip_cr (String.◌∷◌ d cs))

abbrev pub end_lines : List String → List String
end_lines [] = []
end_lines (last ∷ []) = if str_eq last "" then [] else last ∷ []
end_lines (line ∷ next ∷ rest) = strip_cr line ∷ end_lines (next ∷ rest)

-- `s.lines()`: a line ends with `\n` or `\r\n`, the last one perhaps with neither.
unfoldable pub lines : String → List String
lines s = end_lines (split_at 10 s)

abbrev pub before_rest : Char → Option (String × String) → Option (String × String)
before_rest c none = none
before_rest c (some (a, b)) = some (String.◌∷◌ c a, b)

-- `s.split_once(c)`
unfoldable pub split_once : ℕ → String → Option (String × String)
split_once at String.[] = none
split_once at (String.◌∷◌ c cs) =
    let rest = split_once at cs in if code c == at then some ("", cs) else before_rest c rest

-- `char::is_whitespace`
abbrev pub is_whitespace : ℕ → Bool
is_whitespace n =
    (ltb 8 n && ltb n 14)
    || n == 32
    || n == 133
    || n == 160
    || n == 5760
    || (ltb 8191 n && ltb n 8203)
    || n == 8232
    || n == 8233
    || n == 8239
    || n == 8287
    || n == 12288

unfoldable pub trim_start : String → String
trim_start String.[] = ""
trim_start (String.◌∷◌ c cs) =
    let rest = trim_start cs in if is_whitespace (code c) then rest else String.◌∷◌ c cs

unfoldable pub trim_end : String → String
trim_end String.[] = ""
trim_end (String.◌∷◌ c cs) =
    let rest = trim_end cs in
    if str_eq rest "" && is_whitespace (code c) then "" else String.◌∷◌ c rest

-- `s.trim()`
unfoldable pub trim : String → String
trim s = trim_end (trim_start s)

abbrev digit_texts : List String
digit_texts = "0" ∷ "1" ∷ "2" ∷ "3" ∷ "4" ∷ "5" ∷ "6" ∷ "7" ∷ "8" ∷ "9" ∷ []

unfoldable decimal_from : ℕ → ℕ → String → String
decimal_from zero n after = after
decimal_from (suc fuel) n after =
    let after' = then_text (get_or "" digit_texts (n % 10)) after in
    if n / 10 == 0 then after' else decimal_from fuel (n / 10) after'

-- A number as `{}` prints it. Each digit takes a step, and a number has fewer digits than itself plus one.
unfoldable pub decimal : ℕ → String
unfolding decimal_from
decimal n = decimal_from (suc n) n ""

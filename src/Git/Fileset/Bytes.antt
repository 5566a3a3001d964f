-- ===== src/Git/Fileset/Bytes.antt =====
-- How long the commands of a template become (git/fileset.rs, `expand_template`).
use betterhook.Base.{
  ◌+◌, ◌*◌, ◌≤◌, ◌<◌, String, List, [], ◌∷◌, map, true, ◌⊎◌, inl, inr, ◌≡◌, refl, arith, length,
  All,
}
use betterhook.Base.Search.{then_text, join, is_free_of, byte_len}
use betterhook.Config.Schema.{FilePath}
use betterhook.Git.Fileset.{shell_escape, expand_template}
use betterhook.Git.Fileset.Groups.{concat, arguments, argument_bytes, IsChunk}
use betterhook.Git.Fileset.Expand.{expand_template_last}

byte_len-then_text : (s t : String) → byte_len (then_text s t) ≡ byte_len s + byte_len t
unfolding byte_len
byte_len-then_text String.[] t = omega arith
byte_len-then_text (String.◌∷◌ c s) t = omega (arith, byte_len-then_text s t)

byte_len_space : byte_len " " ≡ 1
unfolding byte_len
byte_len_space = refl

byte_len_nil : byte_len "" ≡ 0
unfolding byte_len
byte_len_nil = refl

byte_len-arguments : (g : List FilePath) → byte_len (arguments g) ≤ argument_bytes g
unfolding join
byte_len-arguments [] = omega (arith, byte_len_nil)
byte_len-arguments (f ∷ []) = omega arith
byte_len-arguments (f ∷ h ∷ g) =
    let rest = then_text " " (arguments (h ∷ g)) in
    omega (
      arith,
      byte_len-then_text (shell_escape f) rest,
      byte_len-then_text " " (arguments (h ∷ g)),
      byte_len_space,
      byte_len-arguments (h ∷ g),
    )

-- The group has a file, and the command for it has at most 128 KiB unless it is a single file.
abbrev pub IsBounded : String → List FilePath → Type 0
IsBounded p g =
    (0 < length g) × ((length g ≤ 1) ⊎ (byte_len (then_text p (arguments g)) ≤ 128 * 1024))

IsChunk-IsBounded :
    (p : String) (g : List FilePath) → IsChunk (then_text p "{files}") g → IsBounded p g
IsChunk-IsBounded p g (some, inl one) = (some, inl one)
IsChunk-IsBounded p g (some, inr fits) = (
  some,
  inr (
      omega (
        arith,
        fits,
        byte_len-then_text p "{files}",
        byte_len-then_text p (arguments g),
        byte_len-arguments g,
      )),
)

All-IsBounded :
    (p : String) (gs : List (List FilePath))
    → All (IsChunk (then_text p "{files}")) gs
    → All (IsBounded p) gs
All-IsBounded p [] all = tt
All-IsBounded p (g ∷ gs) (h, all) = (IsChunk-IsBounded p g h, All-IsBounded p gs all)

-- For a command that ends with `{files}` and has no other brace, over at least one file: the commands
-- are its beginning followed by the escaped files of consecutive groups, with a space between two
-- files; the groups are all the files in their order, and none is empty. A command has at most 128 KiB
-- unless it is for a single file.
pub expand_template-IsBounded :
    (p : String) (f : FilePath) (files : List FilePath)
    → is_free_of b'{' p ≡ true
    → (gs : List (List FilePath)) × (expand_template (then_text p "{files}") (f ∷ files)
        ≡ map (λ g. then_text p (join " " (map shell_escape g))) gs)
      × (concat gs ≡ f ∷ files)
      × All (IsBounded p) gs
expand_template-IsBounded p f files h =
    let (gs, e, c, chunks, words) = expand_template_last p f files h in
    (gs, e, c, All-IsBounded p gs chunks)

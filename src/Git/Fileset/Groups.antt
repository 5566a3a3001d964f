-- ===== src/Git/Fileset/Groups.antt =====
-- How the files are shared among the commands of a template (git/fileset.rs, `expand_template`).
use mathlib.Core.List.{append_assoc, append-nil}
use betterhook.Base.{
  ℕ, ◌+◌, ◌≤◌, ◌<◌, String, List, [], ◌∷◌, ◌++◌, map, inl, inr, true, false, ◌⊎◌, some, ◌≡◌, refl,
  ap, sym, ◌∙◌, arith, is_empty, length, Bool-cases, All, All-append_intro,
}
use betterhook.Base.Search.{join, byte_len}
use betterhook.Config.Schema.{FilePath}
use betterhook.Git.Fileset.{
  max_arg_bytes, shell_escape, substitute_once, has_template, Chunks, flush, is_full, push_argument,
  add_file, add_files, last_chunk, expand_template,
}
use betterhook.Git.Fileset.Shell.{read_words, read_words-join}

abbrev pub concat {ℓ} : {A : Type ℓ} → List (List A) → List A
concat [] = []
concat (xs ∷ xss) = xs ++ concat xss

concat-append {ℓ} :
    {A : Type ℓ} (xss : List (List A)) (ys : List A) → concat (xss ++ (ys ∷ [])) ≡ concat xss ++ ys
concat-append [] ys = append-nil ys
concat-append (xs ∷ xss) ys =
    ap (λ r. xs ++ r) (concat-append xss ys) ∙ sym (append_assoc xs (concat xss) ys)

map-append_one {ℓ κ} :
    {A : Type ℓ} {B : Type κ} (f : A → B) (xs : List A) (x : A)
    → map f (xs ++ (x ∷ [])) ≡ map f xs ++ (f x ∷ [])
map-append_one f [] x = refl
map-append_one f (y ∷ xs) x = ap (λ r. f y ∷ r) (map-append_one f xs x)

-- The files of one command, as they stand in it.
abbrev pub arguments : List FilePath → String
arguments files = join " " (map shell_escape files)

-- The bytes of the escaped files, with a space for each.
abbrev pub argument_bytes : List FilePath → ℕ
argument_bytes [] = 0
argument_bytes (f ∷ files) = byte_len (shell_escape f) + 1 + argument_bytes files

argument_bytes-append :
    (fs : List FilePath) (f : FilePath)
    → argument_bytes (fs ++ (f ∷ [])) ≡ argument_bytes fs + (byte_len (shell_escape f) + 1)
argument_bytes-append [] f = omega arith
argument_bytes-append (g ∷ fs) f = omega (arith, argument_bytes-append fs f)

-- The files of one command: not none, and not more than fit, unless it is a single file.
abbrev pub IsChunk : String → List FilePath → Type 0
IsChunk command g =
    (0 < length g) × ((length g ≤ 1) ⊎ (byte_len command + argument_bytes g ≤ max_arg_bytes))

-- The state of the loop, from the files of the commands made so far and of the next one.
abbrev state_of : String → List (List FilePath) → List FilePath → Chunks
state_of command gs cur = record {
  chunks = map (λ g. substitute_once command (arguments g)) gs;
  current = map shell_escape cur;
  current_bytes = argument_bytes cur;
}

abbrev IsCurrent : String → List FilePath → Type 0
IsCurrent command cur = (cur ≡ []) ⊎ IsChunk command cur

flush-state_of :
    (command : String) (gs : List (List FilePath)) (cur : List FilePath)
    → flush command (state_of command gs cur) ≡ state_of command (gs ++ (cur ∷ [])) []
unfolding flush
flush-state_of command gs cur = λ i. record {
  chunks = sym (map-append_one (λ g. substitute_once command (arguments g)) gs cur) i;
  current = [];
  current_bytes = 0;
}

length-append_one {ℓ} : {A : Type ℓ} (xs : List A) (x : A) → length (xs ++ (x ∷ [])) ≡ length xs + 1
length-append_one [] x = omega arith
length-append_one (y ∷ xs) x = omega (arith, length-append_one xs x)

is_empty-map {ℓ κ} :
    {A : Type ℓ} {B : Type κ} (f : A → B) (xs : List A) → is_empty (map f xs) ≡ is_empty xs
is_empty-map f [] = refl
is_empty-map f (x ∷ xs) = refl

push_argument-state_of :
    (command : String) (gs : List (List FilePath)) (cur : List FilePath) (f : FilePath)
    → push_argument (shell_escape f) (state_of command gs cur)
      ≡ state_of command gs (cur ++ (f ∷ []))
unfolding push_argument
push_argument-state_of command gs cur f = λ i. record {
  chunks = map (λ g. substitute_once command (arguments g)) gs;
  current = sym (map-append_one shell_escape cur f) i;
  current_bytes = sym (argument_bytes-append cur f) i;
}

-- A file that the next command has room for.
IsChunk-grows :
    (command : String) (gs : List (List FilePath)) (cur : List FilePath) (f : FilePath)
    → is_full command (byte_len (shell_escape f) + 1) (state_of command gs cur) ≡ false
    → IsChunk command (cur ++ (f ∷ []))
unfolding is_full
IsChunk-grows command gs [] f h = (omega arith, inl (omega arith))
IsChunk-grows command gs (g ∷ cur) f h =
    (omega arith, inr (ground (arith, argument_bytes-append (g ∷ cur) f)))

full-IsChunk :
    (command : String) (n : ℕ) (gs : List (List FilePath)) (cur : List FilePath)
    → IsCurrent command cur
    → is_full command n (state_of command gs cur) ≡ true
    → IsChunk command cur
unfolding is_full
full-IsChunk command n gs [] h e = absurd (ground (arith, e))
full-IsChunk command n gs (g ∷ cur) (inl e) h = absurd (ground arith)
full-IsChunk command n gs (g ∷ cur) (inr c) h = c

-- What the loop keeps: the files so far are those of the commands made and of the next.
AddsTo : String → Chunks → List (List FilePath) → List FilePath → List FilePath → Type 0
AddsTo command s gs cur added =
    (gs' : List (List FilePath)) × (cur' : List FilePath) × (s ≡ state_of command gs' cur')
    × (concat gs' ++ cur' ≡ (concat gs ++ cur) ++ added)
    × All (IsChunk command) gs'
    × IsCurrent command cur'

add_file-AddsTo :
    (command : String) (gs : List (List FilePath)) (cur : List FilePath) (f : FilePath)
    → All (IsChunk command) gs
    → IsCurrent command cur
    → AddsTo command (add_file command f (state_of command gs cur)) gs cur (f ∷ [])
unfolding add_file AddsTo
add_file-AddsTo command gs cur f hs h =
    let full = is_full command (byte_len (shell_escape f) + 1) (state_of command gs cur) in
    elim (Bool-cases full) [
      | inl e ↦
          let c = full-IsChunk command (byte_len (shell_escape f) + 1) gs cur h e in
          let flushed = flush-state_of command gs cur in
          (
            gs ++ (cur ∷ []),
            f ∷ [],
            ap (λ s. push_argument (shell_escape f) s) (cc (e, flushed))
                ∙ push_argument-state_of command (gs ++ (cur ∷ [])) [] f,
            ap (λ r. r ++ (f ∷ [])) (concat-append gs cur),
            All-append_intro (IsChunk command) gs (cur ∷ []) hs (c, tt),
            inr (omega arith, inl (omega arith)),
          )
      | inr e ↦ (
        gs,
        cur ++ (f ∷ []),
        ap (λ s. push_argument (shell_escape f) s) (cc e) ∙ push_argument-state_of command gs cur f,
        sym (append_assoc (concat gs) cur (f ∷ [])),
        hs,
        inr (IsChunk-grows command gs cur f e),
      )
    ]

add_files-AddsTo :
    (command : String) (gs : List (List FilePath)) (cur files : List FilePath)
    → All (IsChunk command) gs
    → IsCurrent command cur
    → AddsTo command (add_files command files (state_of command gs cur)) gs cur files
unfolding add_files AddsTo
add_files-AddsTo command gs cur [] hs h =
    (gs, cur, refl, sym (append-nil (concat gs ++ cur)), hs, h)
add_files-AddsTo command gs cur (f ∷ files) hs h =
    let (gs1, cur1, e1, c1, hs1, h1) = add_file-AddsTo command gs cur f hs h in
    let (gs2, cur2, e2, c2, hs2, h2) = add_files-AddsTo command gs1 cur1 files hs1 h1 in
    (
      gs2,
      cur2,
      ap (add_files command files) e1 ∙ e2,
      c2 ∙ ap (λ r. r ++ files) c1 ∙ append_assoc (concat gs ++ cur) (f ∷ []) files,
      hs2,
      h2,
    )

last_chunk-state_of :
    (command : String) (gs : List (List FilePath)) (cur : List FilePath)
    → All (IsChunk command) gs
    → IsCurrent command cur
    → (hs : List (List FilePath)) × (last_chunk command (state_of command gs cur)
        ≡ map (λ g. substitute_once command (arguments g)) hs)
      × (concat hs ≡ concat gs ++ cur)
      × All (IsChunk command) hs
unfolding last_chunk
last_chunk-state_of command gs [] hs h = (gs, refl, sym (append-nil (concat gs)), hs)
last_chunk-state_of command gs (f ∷ cur) hs (inl e) = absurd (ground arith)
last_chunk-state_of command gs (f ∷ cur) hs (inr c) = (
  gs ++ ((f ∷ cur) ∷ []),
  ap (λ s. s.chunks) (flush-state_of command gs (f ∷ cur)),
  concat-append gs (f ∷ cur),
  All-append_intro (IsChunk command) gs ((f ∷ cur) ∷ []) hs (c, tt),
)

All-read_words : (gs : List (List FilePath)) → All (λ g. read_words (arguments g) ≡ some g) gs
All-read_words [] = tt
All-read_words (g ∷ gs) = (read_words-join g, All-read_words gs)

-- A command with a template and at least one file becomes commands over consecutive groups of the
-- files, with no file lost or repeated. Each group has a file, and the command's bytes with those of
-- the escaped files are at most `MAX_ARG_BYTES` unless the group is a single file; a shell reads what
-- stands for the group as exactly its files, one word each.
pub expand_template_chunks :
    (command : String) (f : FilePath) (files : List FilePath)
    → has_template command ≡ true
    → (gs : List (List FilePath)) × (expand_template command (f ∷ files)
        ≡ map (λ g. substitute_once command (arguments g)) gs)
      × (concat gs ≡ f ∷ files)
      × All (IsChunk command) gs
      × All (λ g. read_words (arguments g) ≡ some g) gs
unfolding expand_template AddsTo
expand_template_chunks command f files t =
    let (gs, cur, e, c, hs, h) = add_files-AddsTo command [] [] (f ∷ files) tt (inl refl) in
    let (hs', e', c', all) = last_chunk-state_of command gs cur hs h in
    (hs', cc (t, e, e'), c' ∙ c, all, All-read_words hs')

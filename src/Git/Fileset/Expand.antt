-- ===== src/Git/Fileset/Expand.antt =====
-- The commands of a template that ends with `{files}`, and what their shells read (git/fileset.rs,
-- `expand_template`).
use Prim.Native.Char.{Char}
use betterhook.Base.{
  String, List, [], ◌∷◌, map, Bool, true, false, some, ◌≡◌, refl, ap, ◌∙◌, arith, All,
}
use betterhook.Base.Search.{
  then_text, strip_prefix, contains_text, replace_from, replace, is_free_of,
}
use betterhook.Config.Schema.{FilePath}
use betterhook.Git.Fileset.{
  substitute_once, replace_each, has_template, contains_any, expand_template,
}
use betterhook.Git.Fileset.Shell.{read_words}
use betterhook.Git.Fileset.Groups.{concat, arguments, IsChunk, expand_template_chunks}

abbrev brace : Char
brace = Char.char b'{' tt

contains_text-skip :
    (p t v : String)
    → is_free_of b'{' p ≡ true
    → contains_text (then_text p t) (String.◌∷◌ brace v) ≡ contains_text t (String.◌∷◌ brace v)
unfolding contains_text is_free_of strip_prefix
contains_text-skip String.[] t v h = refl
contains_text-skip (String.◌∷◌ c p) t v h = ground (arith, contains_text-skip p t v)

replace-skip :
    (p t v e : String)
    → is_free_of b'{' p ≡ true
    → replace (then_text p t) (String.◌∷◌ brace v) e
      ≡ then_text p (replace t (String.◌∷◌ brace v) e)
unfolding replace replace_from is_free_of strip_prefix
replace-skip String.[] t v e h = refl
replace-skip (String.◌∷◌ c p) t v e h = ground (arith, replace-skip p t v e)

then_text_nil : (s : String) → then_text s "" ≡ s
then_text_nil String.[] = refl
then_text_nil (String.◌∷◌ c s) = ap (λ r. String.◌∷◌ c r) (then_text_nil s)

last_var :
    (p v : String) (b : Bool)
    → is_free_of b'{' p ≡ true
    → contains_text "{files}" (String.◌∷◌ brace v) ≡ b
    → contains_text (then_text p "{files}") (String.◌∷◌ brace v) ≡ b
last_var p v b h e = contains_text-skip p "{files}" v h ∙ e

replace_last :
    (p e : String)
    → is_free_of b'{' p ≡ true
    → replace (then_text p "{files}") "{files}" e ≡ then_text p e
unfolding replace replace_from strip_prefix
replace_last p e h = replace-skip p "{files}" "files}" e h ∙ ap (then_text p) (then_text_nil e)

contains_vars :
    (contains_text "{files}" "{staged_files}" ≡ false)
    × (contains_text "{files}" "{push_files}" ≡ false)
    × (contains_text "{files}" "{all_files}" ≡ false)
    × (contains_text "{files}" "{files}" ≡ true)
unfolding contains_text strip_prefix
contains_vars = (refl, refl, refl, refl)

substitute_once_last :
    (p e : String)
    → is_free_of b'{' p ≡ true
    → substitute_once (then_text p "{files}") e ≡ then_text p e
unfolding substitute_once replace_each
substitute_once_last p e h =
    let (a, b, c, d) = contains_vars in
    cc (
      last_var p "staged_files}" false h a,
      last_var p "push_files}" false h b,
      last_var p "all_files}" false h c,
      last_var p "files}" true h d,
      replace_last p e h,
    )

has_template_last :
    (p : String) → is_free_of b'{' p ≡ true → has_template (then_text p "{files}") ≡ true
unfolding has_template contains_any
has_template_last p h =
    let (a, b, c, d) = contains_vars in
    cc (
      last_var p "staged_files}" false h a,
      last_var p "push_files}" false h b,
      last_var p "all_files}" false h c,
      last_var p "files}" true h d,
    )

map-ext {ℓ κ} :
    {A : Type ℓ} {B : Type κ} (f g : A → B)
    → ((x : A) → f x ≡ g x)
    → (xs : List A) → map f xs ≡ map g xs
map-ext f g h [] = refl
map-ext f g h (x ∷ xs) = cc (h x, map-ext f g h xs)

pub expand_template_last :
    (p : String) (f : FilePath) (files : List FilePath)
    → is_free_of b'{' p ≡ true
    → (gs : List (List FilePath)) × (expand_template (then_text p "{files}") (f ∷ files)
        ≡ map (λ g. then_text p (arguments g)) gs)
      × (concat gs ≡ f ∷ files)
      × All (IsChunk (then_text p "{files}")) gs
      × All (λ g. read_words (arguments g) ≡ some g) gs
expand_template_last p f files h =
    let (gs, e, c, chunks, words) =
      expand_template_chunks (then_text p "{files}") f files (has_template_last p h) in
    (
      gs,
      e
          ∙ map-ext (λ g. substitute_once (then_text p "{files}") (arguments g))
              (λ g. then_text p (arguments g)) (λ g. substitute_once_last p (arguments g) h) gs,
      c,
      chunks,
      words,
    )

-- ===== src/Cache/Hash/Fields.antt =====
-- What the bytes that are hashed for a job's arguments tell of the job (cache/hash.rs).
use Prim.Native.Char.{Char}
use mathlib.Core.List.{append-nil}
use betterhook.Base.{
  String, List, [], ◌∷◌, ◌++◌, map, true, Option, none, some, ◌≡◌, refl, sym, ap, ◌∙◌, arith, All,
}
use betterhook.Base.Search.{then_text, is_free_of, split_at, strip_prefix}
use betterhook.Base.Search.Laws.{split_at-then_text}
use betterhook.Config.Schema.{Job}
use betterhook.Cache.Hash.{fed, fix_field, env_field, fields}

abbrev with_found : Option String → List String → List String
with_found none ss = ss
with_found (some s) ss = s ∷ ss

-- The texts with the prefix, without it.
abbrev with_prefix : String → List String → List String
with_prefix p [] = []
with_prefix p (s ∷ ss) = with_found (strip_prefix p s) (with_prefix p ss)

abbrev pub IsNulFree : String → Type 0
IsNulFree s = is_free_of 0 s ≡ true

split_at-fed : (ss : List String) → All IsNulFree ss → split_at 0 (fed ss) ≡ ss ++ ("" ∷ [])
unfolding fed split_at
split_at-fed [] h = refl
split_at-fed (s ∷ ss) (f, h) =
    split_at-then_text 0 s (Char.char 0 tt) (fed ss) refl f ∙ ap (λ r. s ∷ r) (split_at-fed ss h)

with_found-append :
    (o : Option String) (ss ts us : List String)
    → us ≡ ss ++ ts
    → with_found o us ≡ with_found o ss ++ ts
with_found-append none ss ts us e = e
with_found-append (some s) ss ts us e = ap (λ r. s ∷ r) e

with_prefix-append :
    (p : String) (xs ys : List String)
    → with_prefix p (xs ++ ys) ≡ with_prefix p xs ++ with_prefix p ys
with_prefix-append p [] ys = refl
with_prefix-append p (x ∷ xs) ys =
    with_found-append (strip_prefix p x) (with_prefix p xs) (with_prefix p ys)
      (with_prefix p (xs ++ ys)) (with_prefix-append p xs ys)

strip_prefix-then_text : (p s : String) → strip_prefix p (then_text p s) ≡ some s
unfolding strip_prefix
strip_prefix-then_text String.[] s = refl
strip_prefix-then_text (String.◌∷◌ c p) s = ground (arith, strip_prefix-then_text p s)

with_prefix_same :
    {A : Type 0} (p : String) (f : A → String) (xs : List A)
    → with_prefix p (map (λ x. then_text p (f x)) xs) ≡ map f xs
with_prefix_same p f [] = refl
with_prefix_same p f (x ∷ xs) =
    ap (λ o. with_found o (with_prefix p (map (λ y. then_text p (f y)) xs)))
      (strip_prefix-then_text p (f x))
    ∙ ap (λ r. f x ∷ r) (with_prefix_same p f xs)

with_prefix_other :
    {A : Type 0} (p : String) (g : A → String) (xs : List A)
    → ((x : A) → strip_prefix p (g x) ≡ none)
    → with_prefix p (map g xs) ≡ []
with_prefix_other p g [] h = refl
with_prefix_other p g (x ∷ xs) h =
    ap (λ o. with_found o (with_prefix p (map g xs))) (h x) ∙ with_prefix_other p g xs h

map-id : (xs : List String) → map (λ x. x) xs ≡ xs
map-id [] = refl
map-id (x ∷ xs) = ap (λ r. x ∷ r) (map-id xs)

-- The fields with a prefix, from those of each kind.
with_prefix-fields :
    (p : String) (job : Job)
    → with_prefix p (fields job)
      ≡ with_prefix p (then_text "run:" job.run ∷ [])
        ++ (with_prefix p (fix_field job.fix)
            ++ (with_prefix p (map (then_text "glob:") job.glob)
                ++ (with_prefix p (map (then_text "exclude:") job.exclude)
                    ++ with_prefix p (map env_field job.env.0))))
unfolding fields
with_prefix-fields p job =
    let run = then_text "run:" job.run ∷ [] in
    let fix = fix_field job.fix in
    let globs = map (then_text "glob:") job.glob in
    let excludes = map (then_text "exclude:") job.exclude in
    let envs = map env_field job.env.0 in
    with_prefix-append p run (fix ++ (globs ++ (excludes ++ envs)))
    ∙ ap (λ r. with_prefix p run ++ r)
        (with_prefix-append p fix (globs ++ (excludes ++ envs))
          ∙ ap (λ r. with_prefix p fix ++ r)
              (with_prefix-append p globs (excludes ++ envs)
                ∙ ap (λ r. with_prefix p globs ++ r) (with_prefix-append p excludes envs)))

abbrev listed : Option String → List String
listed none = []
listed (some s) = s ∷ []

listed_lem : (a b : Option String) → listed a ≡ listed b → a ≡ b
listed_lem none none e = refl
listed_lem none (some t) e = cc e
listed_lem (some s) none e = cc e
listed_lem (some s) (some t) e = cc e

fix_field-listed : (fix : Option String) → with_prefix "fix:" (fix_field fix) ≡ listed fix
unfolding fix_field strip_prefix
fix_field-listed none = refl
fix_field-listed (some s) = refl

fix_field_other :
    (p : String) (fix : Option String)
    → ((s : String) → strip_prefix p (then_text "fix:" s) ≡ none)
    → with_prefix p (fix_field fix) ≡ []
unfolding fix_field
fix_field_other p none h = refl
fix_field_other p (some s) h = ap (λ o. with_found o []) (h s)

with_prefix_parts :
    (p : String) (job : Job) (f g e v : List String)
    → with_prefix p (fix_field job.fix) ≡ f
    → with_prefix p (map (then_text "glob:") job.glob) ≡ g
    → with_prefix p (map (then_text "exclude:") job.exclude) ≡ e
    → with_prefix p (map env_field job.env.0) ≡ v
    → with_prefix p (fields job)
      ≡ with_prefix p (then_text "run:" job.run ∷ []) ++ (f ++ (g ++ (e ++ v)))
with_prefix_parts p job f g e v f' g' e' v' =
    with_prefix-fields p job
    ∙ (λ i. with_prefix p (then_text "run:" job.run ∷ []) ++ (f' i ++ (g' i ++ (e' i ++ v' i))))

-- Each kind of field is told from the others by its prefix.
run_of : (job : Job) → with_prefix "run:" (fields job) ≡ job.run ∷ []
unfolding env_field strip_prefix
run_of job =
    with_prefix_parts "run:" job [] [] [] [] (fix_field_other "run:" job.fix (λ s. refl))
      (with_prefix_other "run:" (then_text "glob:") job.glob (λ s. refl))
      (with_prefix_other "run:" (then_text "exclude:") job.exclude (λ s. refl))
      (with_prefix_other "run:" env_field job.env.0 (λ s. refl))

fix_of : (job : Job) → with_prefix "fix:" (fields job) ≡ listed job.fix
unfolding env_field strip_prefix
fix_of job =
    with_prefix_parts "fix:" job (listed job.fix) [] [] [] (fix_field-listed job.fix)
      (with_prefix_other "fix:" (then_text "glob:") job.glob (λ s. refl))
      (with_prefix_other "fix:" (then_text "exclude:") job.exclude (λ s. refl))
      (with_prefix_other "fix:" env_field job.env.0 (λ s. refl))
    ∙ append-nil (listed job.fix)

globs_of : (job : Job) → with_prefix "glob:" (fields job) ≡ job.glob
unfolding env_field strip_prefix
globs_of job =
    with_prefix_parts "glob:" job [] job.glob [] [] (fix_field_other "glob:" job.fix (λ s. refl))
      (with_prefix_same "glob:" (λ s. s) job.glob ∙ map-id job.glob)
      (with_prefix_other "glob:" (then_text "exclude:") job.exclude (λ s. refl))
      (with_prefix_other "glob:" env_field job.env.0 (λ s. refl))
    ∙ append-nil job.glob

excludes_of : (job : Job) → with_prefix "exclude:" (fields job) ≡ job.exclude
unfolding env_field strip_prefix
excludes_of job =
    with_prefix_parts "exclude:" job [] [] job.exclude []
      (fix_field_other "exclude:" job.fix (λ s. refl))
      (with_prefix_other "exclude:" (then_text "glob:") job.glob (λ s. refl))
      (with_prefix_same "exclude:" (λ s. s) job.exclude ∙ map-id job.exclude)
      (with_prefix_other "exclude:" env_field job.env.0 (λ s. refl))
    ∙ append-nil job.exclude

abbrev pub env_text : String × String → String
env_text (k, v) = then_text k (then_text "=" v)

envs_of : (job : Job) → with_prefix "env:" (fields job) ≡ map env_text job.env.0
unfolding env_field strip_prefix
envs_of job =
    with_prefix_parts "env:" job [] [] [] (map env_text job.env.0)
      (fix_field_other "env:" job.fix (λ s. refl))
      (with_prefix_other "env:" (then_text "glob:") job.glob (λ s. refl))
      (with_prefix_other "env:" (then_text "exclude:") job.exclude (λ s. refl))
      (with_prefix_same "env:" env_text job.env.0)

same_fields :
    (p : String) (a b : Job)
    → All IsNulFree (fields a)
    → All IsNulFree (fields b)
    → fed (fields a) ≡ fed (fields b)
    → strip_prefix p "" ≡ none
    → with_prefix p (fields a) ≡ with_prefix p (fields b)
same_fields p a b h k e z =
    let same = sym (split_at-fed (fields a) h) ∙ ap (split_at 0) e ∙ split_at-fed (fields b) k in
    let last : with_prefix p ("" ∷ []) ≡ [] = ap (λ o. with_found o []) z in
    let drop = λ (ss : List String).
      with_prefix-append p ss ("" ∷ [])
      ∙ ap (λ r. with_prefix p ss ++ r) last
      ∙ append-nil (with_prefix p ss) in
    sym (drop (fields a)) ∙ ap (with_prefix p) same ∙ drop (fields b)

-- Two jobs for which the same bytes are hashed have the same command, the same fix, the same globs and
-- excludes, and the same texts `k=v` of their environments, where no field has a NUL.
pub fed-fields :
    (a b : Job)
    → All IsNulFree (fields a)
    → All IsNulFree (fields b)
    → fed (fields a) ≡ fed (fields b)
    → (a.run ≡ b.run)
      × (a.fix ≡ b.fix)
      × (a.glob ≡ b.glob)
      × (a.exclude ≡ b.exclude)
      × (map env_text a.env.0 ≡ map env_text b.env.0)
unfolding strip_prefix
fed-fields a b h k e =
    let run : a.run ∷ [] ≡ b.run ∷ [] =
      sym (run_of a) ∙ same_fields "run:" a b h k e refl ∙ run_of b in
    let fix = sym (fix_of a) ∙ same_fields "fix:" a b h k e refl ∙ fix_of b in
    (
      cc run,
      listed_lem a.fix b.fix fix,
      sym (globs_of a) ∙ same_fields "glob:" a b h k e refl ∙ globs_of b,
      sym (excludes_of a) ∙ same_fields "exclude:" a b h k e refl ∙ excludes_of b,
      sym (envs_of a) ∙ same_fields "env:" a b h k e refl ∙ envs_of b,
    )

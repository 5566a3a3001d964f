-- ===== src/Runner/Hook/Filters.antt =====
-- The jobs that `--skip` and `--only` let through (runner/executor.rs, `is_filtered`).
use text.Mathlib.Text.{◌==◌ as str_eq}
use text.Mathlib.TextEquality.{eq_iff}
use betterhook.Base.{
  String, List, [], ◌∷◌, true, false, Bool, ◌≡◌, refl, ◌⊎◌, inl, inr, arith, Bool-cases,
  if◌then◌else◌,
}
use betterhook.Config.Schema.{Job}
use betterhook.Runner.Hook.{RunOptions, any_is, is_filtered}

abbrev pub IsIn : String → List String → Type 0
IsIn name [] = ⊥
IsIn name (n ∷ names) = (n ≡ name) ⊎ IsIn name names

-- The name is in `only`, unless that is empty, and not in `skip`.
abbrev pub IsLet : RunOptions → String → Type 0
IsLet options name = ((options.only ≡ []) ⊎ IsIn name options.only) × (¬ IsIn name options.skip)

-- The second list has, in their order, exactly the jobs of the first that the options let through.
pub data Lets (options : RunOptions) : List Job → List Job → Type 0 where
  nothing : Lets options [] []
  takes :
      (job : Job) (jobs chosen : List Job)
      → IsLet options job.name
      → Lets options jobs chosen
      → Lets options (job ∷ jobs) (job ∷ chosen)
  leaves :
      (job : Job) (jobs chosen : List Job)
      → ¬ IsLet options job.name
      → Lets options jobs chosen
      → Lets options (job ∷ jobs) chosen

any_is-IsIn : (names : List String) (name : String) → any_is names name ≡ true → IsIn name names
unfolding any_is
any_is-IsIn [] name h = absurd (cc h)
any_is-IsIn (n ∷ names) name h = elim (Bool-cases (str_eq n name)) [
  | inl here ↦ inl ((eq_iff n name).0 here)
  | inr apart ↦ inr (any_is-IsIn names name (cc (h, apart)))
]

IsIn-any_is : (names : List String) (name : String) → IsIn name names → any_is names name ≡ true
unfolding any_is
IsIn-any_is [] name n = absurd n
IsIn-any_is (n ∷ names) name (inl e) = let same = (eq_iff n name).1 e in ground (arith, same)
IsIn-any_is (n ∷ names) name (inr m) = let rest = IsIn-any_is names name m in ground (arith, rest)

is_only :
    (only : List String) (options : RunOptions) (name : String)
    → options.only ≡ only
    → is_filtered options name ≡ false
    → (options.only ≡ []) ⊎ IsIn name options.only
unfolding is_filtered
is_only [] options name e h = inl e
is_only (n ∷ only) options name e h = inr (any_is-IsIn options.only name (ground (arith, e, h)))

unfiltered-IsLet :
    (options : RunOptions) (name : String) → is_filtered options name ≡ false → IsLet options name
unfolding is_filtered
unfiltered-IsLet options name h = (is_only options.only options name refl h, not_skipped)
  where
    not_skipped : ¬ IsIn name options.skip
    not_skipped m = let s = IsIn-any_is options.skip name m in ground (arith, h, s)

filtered-not_IsLet :
    (options : RunOptions) (name : String) → is_filtered options name ≡ true → ¬ IsLet options name
unfolding is_filtered
filtered-not_IsLet options name h (inl e, skip) =
    skip (any_is-IsIn options.skip name (ground (arith, h, e)))
filtered-not_IsLet options name h (inr m, skip) =
    let o = IsIn-any_is options.only name m in
    skip (any_is-IsIn options.skip name (ground (arith, h, o)))

-- The jobs that are not filtered out.
abbrev pub unfiltered : RunOptions → List Job → List Job
unfiltered options [] = []
unfiltered options (job ∷ jobs) =
    let rest = unfiltered options jobs in if is_filtered options job.name then rest else job ∷ rest

pub unfiltered-Lets :
    (options : RunOptions) (jobs : List Job) → Lets options jobs (unfiltered options jobs)
unfiltered-Lets options [] = nothing
unfiltered-Lets options (job ∷ jobs) =
    go (unfiltered-Lets options jobs) (is_filtered options job.name) refl
  where
    go :
        Lets options jobs (unfiltered options jobs)
        → (b : Bool) → is_filtered options job.name ≡ b
        → Lets options
            (job ∷ jobs)
            (if b then unfiltered options jobs else job ∷ unfiltered options jobs)
    go rest true e = leaves job jobs _ (filtered-not_IsLet options job.name e) rest
    go rest false e = takes job jobs _ (unfiltered-IsLet options job.name e) rest

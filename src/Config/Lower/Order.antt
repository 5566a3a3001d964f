-- ===== src/Config/Lower/Order.antt =====
-- The order of the jobs of a hook, and the place of a job in `priority` (config/schema.rs).
use Prim.Native.Nat.{Ordering}
use Prim.Native.String.{compare}
use text.Mathlib.Text.{◌==◌ as str_eq}
use text.Mathlib.TextEquality.{eq_iff}
use betterhook.Base.{
  ℕ, zero, suc, ◌+◌, ◌<◌, ◌≡◌, ◌≢◌, refl, sym, ◌∙◌, ap, ◌⊎◌, inl, inr, String, true, false, List,
  [], ◌∷◌, Option, some, arith, Bool-cases, ltb, BTreeMap, empty, get, insert, get-insert,
  get_elem?, length,
}
use mathlib.Core.Path.{subst}
use mathlib.Core.Option
use betterhook.Base.Texts.{compare-gt}
use betterhook.Base.Saturation.{IsSaturated, if_fits-IsSaturated}
use betterhook.Base.Sorting.{is_ordered, starts_from, sort_by, sort_by_ordered}
use betterhook.Config.Schema.{Job}
use betterhook.Config.Lower.{
  to_u32, compare_jobs, job_leb, index_from, priority_index, priority_for,
}

-- The first job has the smaller priority, or they have the same and its name is not the greater.
abbrev pub Precedes : Job → Job → Type 0
Precedes a b =
    (a.priority < b.priority) ⊎ (a.priority ≡ b.priority) × (compare a.name b.name ≢ Ordering.gt)

abbrev pub StartsFrom : Job → List Job → Type 0
StartsFrom a [] = Unit
StartsFrom a (b ∷ jobs) = Precedes a b

-- Each job precedes the next one.
abbrev pub InOrder : List Job → Type 0
InOrder [] = Unit
InOrder (a ∷ jobs) = StartsFrom a jobs × InOrder jobs

job_leb_total : (a b : Job) → job_leb a b ≡ false → job_leb b a ≡ true
unfolding job_leb compare_jobs
job_leb_total a b h = ground (arith, compare-gt a.name b.name, compare-gt b.name a.name)

job_leb-Precedes : (a b : Job) → job_leb a b ≡ true → Precedes a b
unfolding job_leb compare_jobs
job_leb-Precedes a b h = elim (Bool-cases (ltb a.priority b.priority)) [
  | inl less ↦ inl (ground (arith, less))
  | inr more ↦ inr (ground (arith, more, h), λ gt. absurd (ground (arith, more, h, gt)))
]

starts_from-StartsFrom :
    (a : Job) (jobs : List Job) → starts_from job_leb a jobs ≡ true → StartsFrom a jobs
starts_from-StartsFrom a [] h = tt
starts_from-StartsFrom a (b ∷ jobs) h = job_leb-Precedes a b h

is_ordered-InOrder : (jobs : List Job) → is_ordered job_leb jobs ≡ true → InOrder jobs
is_ordered-InOrder [] h = tt
is_ordered-InOrder (a ∷ jobs) h =
    (starts_from-StartsFrom a jobs (ground (arith, h)), is_ordered-InOrder jobs (ground (arith, h)))

pub sort_by-InOrder : (jobs : List Job) → InOrder (sort_by job_leb jobs)
sort_by-InOrder jobs =
    is_ordered-InOrder (sort_by job_leb jobs) (sort_by_ordered job_leb job_leb_total jobs)

-- The last place of a name in a list.
abbrev pub IsLastAt : List String → String → ℕ → Type 0
IsLastAt names name i =
    (get_elem? names i ≡ some name) × ((j : ℕ) → i < j → get_elem? names j ≢ some name)

-- The priority of a job: the last place of its name in `priority`, or their number if it is in none.
abbrev pub IsPriority : List String → String → ℕ → Type 0
IsPriority names name p =
    ((i : ℕ) × IsLastAt names name i × IsSaturated i p)
    ⊎ ((j : ℕ) → get_elem? names j ≢ some name) × IsSaturated (length names) p

abbrev Indexed : ℕ → List String → Option ℕ → String → Option ℕ → Type 0
Indexed i names before name found =
    ((k : ℕ) × IsLastAt names name k × (found ≡ some (to_u32 (i + k))))
    ⊎ ((j : ℕ) → get_elem? names j ≢ some name) × (found ≡ before)

after_first :
    (n : String) (names : List String) (name : String) (k : ℕ)
    → ((j : ℕ) → k < j → get_elem? names j ≢ some name)
    → (j : ℕ) → suc k < j
    → get_elem? (n ∷ names) j ≢ some name
after_first n names name k h zero l e = absurd (omega arith)
after_first n names name k h (suc j) l e = h j (omega arith) e

after_none :
    (n : String) (names : List String) (name : String)
    → ((j : ℕ) → get_elem? names j ≢ some name)
    → (j : ℕ) → 0 < j
    → get_elem? (n ∷ names) j ≢ some name
after_none n names name h zero l e = absurd (omega arith)
after_none n names name h (suc j) l e = h j e

in_none :
    (n : String) (names : List String) (name : String)
    → str_eq n name ≡ false
    → ((j : ℕ) → get_elem? names j ≢ some name)
    → (j : ℕ) → get_elem? (n ∷ names) j ≢ some name
in_none n names name d h zero e =
    let same : n ≡ name = cc e in absurd (cc (d, (eq_iff n name).1 same))
in_none n names name d h (suc j) e = h j e

index_from-Indexed :
    (i : ℕ) (names : List String) (index : BTreeMap ℕ) (name : String)
    → Indexed i names (get name index) name (get name (index_from i names index))
unfolding index_from
index_from-Indexed i [] index name = inr (λ j e. cc e, refl)
index_from-Indexed i (n ∷ names) index name =
    let added = insert n (to_u32 i) index in
    elim (index_from-Indexed (suc i) names added name) [
      | inl (k, (at, last), e) ↦
          let place : suc i + k ≡ i + suc k = omega arith in
          inl (suc k, (at, after_first n names name k last), e ∙ ap (λ m. some (to_u32 m)) place)
      | inr (absent, e) ↦ elim (Bool-cases (str_eq n name)) [
        | inl here ↦
            let same : n ≡ name = (eq_iff n name).0 here in
            let place : i ≡ i + 0 = omega arith in
            let held : get name added ≡ some (to_u32 i) =
              cc (get-insert n name (to_u32 i) index, here) in
            inl (
              0,
              (ap some same, after_none n names name absent),
              e ∙ held ∙ ap (λ m. some (to_u32 m)) place,
            )
        | inr apart ↦
            let held : get name added ≡ get name index =
              cc (get-insert n name (to_u32 i) index, apart) in
            inr (in_none n names name apart absent, e ∙ held)
      ]
    ]

pub priority_for-IsPriority :
    (names : List String) (name : String) → IsPriority names name (priority_for names name)
unfolding priority_for priority_index
priority_for-IsPriority names name = elim (index_from-Indexed 0 names empty name) [
  | inl (k, place, e) ↦
      let start : 0 + k ≡ k = omega arith in
      inl (
        k,
        place,
        subst (λ o. IsSaturated k (Option.get_or o (to_u32 (length names))))
            (sym (e ∙ ap (λ m. some (to_u32 m)) start)) (if_fits-IsSaturated k),
      )
  | inr (absent, e) ↦ inr (
    absent,
    subst (λ o. IsSaturated (length names) (Option.get_or o (to_u32 (length names)))) (sym e)
        (if_fits-IsSaturated (length names)),
  )
]

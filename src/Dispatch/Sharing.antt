-- ===== src/Dispatch/Sharing.antt =====
-- What the buckets of files hold.
use betterhook.Base.{
  ℕ, ◌≡◌, refl, sym, ap, ◌∙◌, Bool, true, false, List, [], ◌∷◌, ◌++◌, Option, none, some, arith,
  ◌==◌, get_elem?, All, is_empty, if◌then◌else◌, Bool-cases, inl, inr,
}
use mathlib.Core.List.{append_assoc, append-nil}
use mathlib.Core.Option
use betterhook.Base.Sorting.{sort_by}
use betterhook.Config.Schema.{FilePath, Package, Config}
use betterhook.Dispatch.{
  PackageMatch, root, in_package, enumerate, match_package, Buckets, push_file, fill_buckets,
  matches_from, by_length, buckets_of, resolve_packages, values,
}
use betterhook.Dispatch.Packages.{IsEntryOf, enumerate-IsEntryOf}

-- Whether a file that goes to `target` goes to the root, or to the package at `i`.
abbrev pub to_root : Option ℕ → Bool
to_root none = true
to_root (some i) = false

abbrev pub to_package : ℕ → Option ℕ → Bool
to_package i none = false
to_package i (some j) = i == j

-- The files whose target passes the test, in their order.
abbrev pub selected : List (ℕ × Package) → (Option ℕ → Bool) → List FilePath → List FilePath
selected entries test [] = []
selected entries test (file ∷ files) =
    let rest = selected entries test files in
    if test (match_package entries file) then file ∷ rest else rest

abbrev files_at : ℕ → Buckets → List FilePath
files_at i b = Option.get_or (b.by_index i) []

push_file-in_root :
    (target : Option ℕ) (file : FilePath) (b : Buckets)
    → (push_file target file b).in_root ≡ b.in_root ++ (if to_root target then file ∷ [] else [])
unfolding push_file
push_file-in_root none file b = refl
push_file-in_root (some i) file b = sym (append-nil b.in_root)

push_file-files_at :
    (target : Option ℕ) (file : FilePath) (b : Buckets) (i : ℕ)
    → files_at i (push_file target file b)
      ≡ files_at i b ++ (if to_package i target then file ∷ [] else [])
unfolding push_file
push_file-files_at none file b i = sym (append-nil (files_at i b))
push_file-files_at (some j) file b i = elim (Bool-cases (i == j)) [
  | inl here ↦ let same : i ≡ j = ground arith in rw (here, ap (λ k. files_at k b) same) refl
  | inr apart ↦ rw apart (sym (append-nil (files_at i b)))
]

module _ (entries : List (ℕ × Package)) where
  selected-step :
      (test : Option ℕ → Bool) (before : List FilePath) (file : FilePath) (files : List FilePath)
      → (before ++ (if test (match_package entries file) then file ∷ [] else []))
          ++ selected entries test files
        ≡ before ++ selected entries test (file ∷ files)
  selected-step test before file files = elim (Bool-cases (test (match_package entries file))) [
    | inl h ↦ rw h (append_assoc before (file ∷ []) (selected entries test files))
    | inr h ↦ rw h (ap (λ l. l ++ selected entries test files) (append-nil before))
  ]

  fill_buckets-in_root :
      (files : List FilePath) (b : Buckets)
      → (fill_buckets entries files b).in_root ≡ b.in_root ++ selected entries to_root files
  unfolding fill_buckets
  fill_buckets-in_root [] b = sym (append-nil b.in_root)
  fill_buckets-in_root (file ∷ files) b =
      let target = match_package entries file in
      fill_buckets-in_root files (push_file target file b)
      ∙ ap (λ l. l ++ selected entries to_root files) (push_file-in_root target file b)
      ∙ selected-step to_root b.in_root file files

  fill_buckets-files_at :
      (files : List FilePath) (b : Buckets) (i : ℕ)
      → files_at i (fill_buckets entries files b)
        ≡ files_at i b ++ selected entries (to_package i) files
  unfolding fill_buckets
  fill_buckets-files_at [] b i = sym (append-nil (files_at i b))
  fill_buckets-files_at (file ∷ files) b i =
      let target = match_package entries file in
      fill_buckets-files_at files (push_file target file b) i
      ∙ ap (λ l. l ++ selected entries (to_package i) files) (push_file-files_at target file b i)
      ∙ selected-step (to_package i) (files_at i b) file files

module _ (packages : List Package) (files : List FilePath) where
  -- A bucket holds the files that go to the root, or those that go to its package.
  abbrev pub IsBucket : PackageMatch → Type 0
  IsBucket (root fs) = fs ≡ selected (by_length packages) to_root files
  IsBucket (in_package p fs) =
      (i : ℕ) × (get_elem? packages i ≡ some p)
      × (fs ≡ selected (by_length packages) (to_package i) files)

  one-IsBucket :
      (i : ℕ) (p : Package) (rest : List PackageMatch) (o : Option (List FilePath))
      → get_elem? packages i ≡ some p
      → All IsBucket rest
      → (buckets_of packages files).by_index i ≡ o
      → All IsBucket (elim o [ none ↦ rest | some fs ↦ in_package p fs ∷ rest ])
  unfolding buckets_of
  one-IsBucket i p rest none at all e = all
  one-IsBucket i p rest (some fs) at all e = (
    (
      i,
      at,
      ap (λ o. Option.get_or o []) (sym e)
          ∙ fill_buckets-files_at (by_length packages) files
              (record { by_index = λ _. none; in_root = [] }) i,
    ),
    all,
  )

  matches_from-IsBucket :
      (entries : List (ℕ × Package))
      → All (IsEntryOf packages) entries
      → All IsBucket (matches_from (buckets_of packages files) entries)
  unfolding matches_from buckets_of
  matches_from-IsBucket [] all = tt
  matches_from-IsBucket ((i, p) ∷ entries) (at, all) =
      one-IsBucket i p (matches_from (buckets_of packages files) entries)
        ((buckets_of packages files).by_index i) at (matches_from-IsBucket entries all) refl

no_packages : (files : List FilePath) → selected (by_length []) to_root files ≡ files
unfolding by_length match_package sort_by
no_packages [] = refl
no_packages (file ∷ files) = ap (λ (l : List FilePath). file ∷ l) (no_packages files)

-- Each bucket that `resolve_packages` returns holds, in their order, exactly the staged files that
-- go to it: those that go to its package, or those that go to none.
pub resolve_packages-IsBucket :
    {VersionReq : Type 0} (config : Config VersionReq) (files : List FilePath)
    → All (IsBucket (values config.packages.0) files) (resolve_packages config files)
unfolding resolve_packages buckets_of
resolve_packages-IsBucket config files = go (values config.packages.0)
  where
    go :
        (packages : List Package)
        → All (IsBucket packages files) (
            let matched = matches_from (buckets_of packages files) (enumerate 0 packages) in
            if is_empty packages
            then root files ∷ []
            else if is_empty (buckets_of packages files).in_root
            then matched
            else root (buckets_of packages files).in_root ∷ matched)
    go [] = (sym (no_packages files), tt)
    go (p ∷ packages) =
        let all = p ∷ packages in
        let rest = matches_from-IsBucket all files (enumerate 0 all) (enumerate-IsEntryOf all) in
        elim (Bool-cases (is_empty (buckets_of all files).in_root)) [
          | inl h ↦ rw h rest
          | inr h ↦ rw h (
            fill_buckets-in_root (by_length all) files
                (record { by_index = λ _. none; in_root = [] }),
            rest,
          )
        ]

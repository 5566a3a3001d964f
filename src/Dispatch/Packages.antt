-- ===== src/Dispatch/Packages.antt =====
-- Which files go to which package.
use Prim.Native.String.{len}
use betterhook.Base.{
  ℕ, zero, suc, ◌+◌, ◌≤◌, ◌≡◌, refl, true, false, List, [], ◌∷◌, none, some, arith, get_elem?, All,
  Bool-cases, inl, inr,
}
use mathlib.Core.Path.{subst}
use betterhook.Base.Paths.{starts_with}
use betterhook.Base.Sorting.{sort_by, is_ordered, sort_by_ordered, sort_by-All, sort_by-All_inv}
use betterhook.Config.Schema.{FilePath, Package}
use betterhook.Dispatch.{enumerate, longer_first, match_package, by_length}

-- The entry is the package at its index.
abbrev pub IsEntryOf : List Package → ℕ × Package → Type 0
IsEntryOf packages (i, p) = get_elem? packages i ≡ some p

enumerate-All :
    (P : ℕ × Package → Type 0) (start : ℕ) (packages : List Package)
    → ((i : ℕ) (p : Package) → get_elem? packages i ≡ some p → P (start + i, p))
    → All P (enumerate start packages)
enumerate-All P start [] h = tt
enumerate-All P start (q ∷ packages) h = (
  subst (λ k. P (k, q)) (omega arith) (h 0 q refl),
  enumerate-All P (suc start) packages
      (λ i p e. subst (λ k. P (k, p)) (omega arith) (h (suc i) p e)),
)

pub enumerate-IsEntryOf :
    (packages : List Package) → All (IsEntryOf packages) (enumerate 0 packages)
enumerate-IsEntryOf packages =
    enumerate-All (IsEntryOf packages) 0 packages
      (λ j q e. subst (λ k. get_elem? packages k ≡ some q) (omega arith) e)

enumerate-All_inv :
    (P : ℕ × Package → Type 0) (start : ℕ) (packages : List Package)
    → All P (enumerate start packages)
    → (i : ℕ) (p : Package) → get_elem? packages i ≡ some p
    → P (start + i, p)
enumerate-All_inv P start [] all i p e = cc
enumerate-All_inv P start (q ∷ packages) (here, all) zero p e =
    let same : q ≡ p = cc e in
    subst (λ (x : Package). P (start + 0, x)) same (subst (λ k. P (k, q)) (omega arith) here)
enumerate-All_inv P start (q ∷ packages) (here, all) (suc i) p e =
    subst (λ k. P (k, p)) (omega arith) (enumerate-All_inv P (suc start) packages all i p e)

longer_first_total : (x y : ℕ × Package) → longer_first x y ≡ false → longer_first y x ≡ true
longer_first_total (i, p) (j, q) h = ground arith

-- No package of the list is longer than `bound`.
abbrev NoLonger : ℕ → ℕ × Package → Type 0
NoLonger bound (i, p) = len p.path ≤ bound

ordered-NoLonger :
    (bound : ℕ) (e : ℕ × Package) (entries : List (ℕ × Package))
    → is_ordered longer_first (e ∷ entries) ≡ true
    → NoLonger bound e
    → All (NoLonger bound) (e ∷ entries)
ordered-NoLonger bound e [] o h = (h, tt)
ordered-NoLonger bound (i, p) ((j, q) ∷ entries) o h =
    (h, ordered-NoLonger bound (j, q) entries (ground arith) (ground arith))

module _ (file : FilePath) where
  -- A package that the file is in is no longer than `bound`.
  abbrev pub Within : ℕ → ℕ × Package → Type 0
  Within bound (i, p) = starts_with file p.path ≡ true → len p.path ≤ bound

  NoLonger-Within :
      (bound : ℕ) (entries : List (ℕ × Package))
      → All (NoLonger bound) entries
      → All (Within bound) entries
  NoLonger-Within bound [] all = tt
  NoLonger-Within bound (e ∷ entries) (h, all) = ((λ _. h), NoLonger-Within bound entries all)

  match_package-some :
      (P : ℕ × Package → Type 0) (entries : List (ℕ × Package)) (i : ℕ)
      → is_ordered longer_first entries ≡ true
      → All P entries
      → match_package entries file ≡ some i
      → (p : Package) × P (i, p)
        × (starts_with file p.path ≡ true)
        × All (Within (len p.path)) entries
  unfolding match_package
  match_package-some P [] i o all h = cc
  match_package-some P ((j, q) ∷ entries) i o (here, all) h =
      elim (Bool-cases (starts_with file q.path)) [
        | inl inside ↦
            let same : j ≡ i = ground arith in
            (
              q,
              subst (λ k. P (k, q)) same here,
              inside,
              NoLonger-Within (len q.path) ((j, q) ∷ entries)
                  (ordered-NoLonger (len q.path) (j, q) entries o (omega arith)),
            )
        | inr outside ↦
            let (p, at, inside, within) =
              match_package-some P entries i (ground arith) all (ground arith) in
            (p, at, inside, ((λ k. cc), within))
      ]

  match_package-none :
      (entries : List (ℕ × Package))
      → match_package entries file ≡ none
      → All (λ (e : ℕ × Package). starts_with file e.1.path ≡ false) entries
  unfolding match_package
  match_package-none [] h = tt
  match_package-none ((j, q) ∷ entries) h =
      (ground arith, match_package-none entries (ground arith))

-- A file goes to a package that it is in, such that no package that it is in has a longer path; and
-- to none only if it is in no package.
pub match_package_longest :
    (packages : List Package) (file : FilePath)
    → ((i : ℕ)
        → match_package (by_length packages) file ≡ some i
        → (p : Package) × (get_elem? packages i ≡ some p)
          × (starts_with file p.path ≡ true)
          × ((j : ℕ) (q : Package)
              → get_elem? packages j ≡ some q
              → starts_with file q.path ≡ true
              → len q.path ≤ len p.path))
      × (match_package (by_length packages) file ≡ none
          → (j : ℕ) (q : Package) → get_elem? packages j ≡ some q
          → starts_with file q.path ≡ false)
unfolding by_length
match_package_longest packages file = (
  λ i h.
      let entries = enumerate 0 packages in
      let sorted = sort_by longer_first entries in
      let (p, at, inside, within) =
        match_package-some file (IsEntryOf packages) sorted i
          (sort_by_ordered longer_first longer_first_total entries)
          (sort_by-All longer_first (IsEntryOf packages) entries (enumerate-IsEntryOf packages))
          h in
      (
        p,
        at,
        inside,
        enumerate-All_inv (Within file (len p.path)) 0 packages
            (sort_by-All_inv longer_first (Within file (len p.path)) entries within),
      ),
  λ h.
      enumerate-All_inv (λ (e : ℕ × Package). starts_with file e.1.path ≡ false) 0 packages
        (sort_by-All_inv longer_first _ (enumerate 0 packages) (match_package-none file _ h)),
)

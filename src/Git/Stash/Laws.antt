-- ===== src/Git/Stash/Laws.antt =====
-- What `StashGuard::pop` does to the stash (git/stash.rs).
use betterhook.Base.{
  ℕ, zero, suc, ◌≤◌, String, List, [], ◌∷◌, true, Option, none, some, Result, ok, err, ◌≡◌, refl,
  ◌∙◌, ◌⊎◌, inl, inr, arith,
}
use betterhook.Base.Search.{contains_text, lines}
use betterhook.Base.Actions.{and_then}
use betterhook.Git.RevParse.{Git, GitError, run_git}
use betterhook.Git.Stash.{StashGuard, find_line, find_stash_index, pop_at, pop}

-- The entry on top of the stash has the message.
abbrev pub IsOnTop : String → String → Type 0
IsOnTop message list =
    (top : String) × (rest : List String) × (lines list ≡ top ∷ rest)
    × (contains_text top message ≡ true)

find_line-le :
    (i n : ℕ) (needle : String) (ls : List String) → find_line i needle ls ≡ some n → i ≤ n
unfolding find_line
find_line-le i n needle [] h = absurd (ground (arith, h))
find_line-le i n needle (l ∷ ls) h = ground (arith, find_line-le (suc i) n needle ls)

find_line-eq_zero :
    (needle : String) (ls : List String)
    → find_line 0 needle ls ≡ some 0
    → (top : String) × (rest : List String) × (ls ≡ top ∷ rest) × (contains_text top needle ≡ true)
unfolding find_line
find_line-eq_zero needle [] h = absurd (ground (arith, h))
find_line-eq_zero needle (l ∷ ls) h = (l, ls, refl, ground (arith, h, find_line-le 1 0 needle ls))

find_line_on_top :
    (needle top : String) (rest : List String)
    → contains_text top needle ≡ true
    → find_line 0 needle (top ∷ rest) ≡ some 0
unfolding find_line
find_line_on_top needle top rest h = cc h

module _ (git : Git) (guard : StashGuard) where
  abbrev pub list_entries : git.Repo → Result (GitError git.IoError) String × git.Repo
  list_entries = run_git git guard.worktree ("stash" ∷ "list" ∷ [])

  abbrev pub pop_top : git.Repo → Result (GitError git.IoError) String × git.Repo
  pop_top = run_git git guard.worktree ("stash" ∷ "pop" ∷ "stash@{0}" ∷ [])

  -- What a guard does that has an entry, given what git lists.
  PopsListed : Option ℕ → git.Repo → String → git.Repo → Type 0
  PopsListed place repo list listed =
      (IsOnTop guard.message list
        × (pop_at git guard place listed ≡ and_then (pop_top listed) (λ out s. (ok tt, s))))
      ⊎ ((message : String) × (pop_at git guard place listed
            ≡ (err (GitError.porcelain message), listed)))

  pop_at-PopsListed :
      (repo listed : git.Repo) (list : String) (place : Option ℕ)
      → find_line 0 guard.message (lines list) ≡ place
      → PopsListed place repo list listed
  unfolding PopsListed pop_at
  pop_at-PopsListed repo listed list none e = inr (_, refl)
  pop_at-PopsListed repo listed list (some zero) e =
      inl (find_line-eq_zero guard.message (lines list) e, refl)
  pop_at-PopsListed repo listed list (some (suc i)) e = inr (_, refl)

  -- A guard that pushed an entry pops no other: after git has listed the stash, either the top entry
  -- has the guard's message, and `git stash pop stash@{0}` is what is run next and gives the result, or
  -- nothing more is run and the result is an error.
  pub pop-IsOnTop :
      (repo listed : git.Repo) (list : String)
      → guard.created ≡ true
      → list_entries repo ≡ (ok list, listed)
      → (IsOnTop guard.message list
          × (pop git guard repo ≡ and_then (pop_top listed) (λ out s. (ok tt, s))))
        ⊎ ((message : String) × (pop git guard repo ≡ (err (GitError.porcelain message), listed)))
  unfolding pop find_stash_index PopsListed
  pop-IsOnTop repo listed list c e =
      let place = find_line 0 guard.message (lines list) in
      let popped : pop git guard repo ≡ pop_at git guard place listed = cc (c, e) in
      elim (pop_at-PopsListed repo listed list place refl) [
        | inl (top, h) ↦ inl (top, popped ∙ h)
        | inr (message, h) ↦ inr (message, popped ∙ h)
      ]

  -- Where the entry that was pushed is still on top and git pops it, what it stashed is restored.
  pub pop_on_top :
      (repo listed popped : git.Repo) (list out top : String) (rest : List String)
      → guard.created ≡ true
      → list_entries repo ≡ (ok list, listed)
      → lines list ≡ top ∷ rest
      → contains_text top guard.message ≡ true
      → pop_top listed ≡ (ok out, popped)
      → pop git guard repo ≡ (ok tt, popped)
  unfolding pop find_stash_index pop_at
  pop_on_top repo listed popped list out top rest c e l t p =
      cc (c, e, l, p, find_line_on_top guard.message top rest t)

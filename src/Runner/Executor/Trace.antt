-- ===== src/Runner/Executor/Trace.antt =====
-- What a trace of the scheduler says of a job: whether it has been admitted and whether it has
-- settled, and that the parents of an admitted job had settled.
use betterhook.Base.{
  ℕ, ◌+◌, ◌<◌, ◌≡◌, refl, List, [], ◌∷◌, Bool, true, false, not, ◌||◌, arith, bit, ◌==◌, count,
  length,
}
use betterhook.Runner.Executor.{Transition, start, skip, hit, finish}

-- The job that a transition settles.
abbrev pub settles : Transition → ℕ → Bool
settles (start i) j = false
settles (skip i) j = i == j
settles (hit i failed) j = i == j
settles (finish i failed) j = i == j

abbrev pub admits : Transition → ℕ → Bool
admits (start i) j = i == j
admits (skip i) j = i == j
admits (hit i failed) j = i == j
admits (finish i failed) j = false

abbrev pub fails : Transition → Bool
fails (start i) = false
fails (skip i) = false
fails (hit i failed) = failed
fails (finish i failed) = failed

abbrev pub is_settled : List Transition → ℕ → Bool
is_settled [] j = false
is_settled (t ∷ trace) j = settles t j || is_settled trace j

abbrev pub is_admitted : List Transition → ℕ → Bool
is_admitted [] j = false
is_admitted (t ∷ trace) j = admits t j || is_admitted trace j

abbrev pub any_failed : List Transition → Bool
any_failed [] = false
any_failed (t ∷ trace) = fails t || any_failed trace

-- Each job that the trace admits, newest first, comes after all the jobs that `precedes` it settled.
abbrev pub IsOrdered : (ℕ → ℕ → Bool) → List Transition → Type 0
IsOrdered precedes [] = Unit
IsOrdered precedes (t ∷ trace) =
    ((p c : ℕ) → admits t c ≡ true → precedes p c ≡ true → is_settled trace p ≡ true)
    × IsOrdered precedes trace

-- How many entries of a list have not settled.
abbrev pub unsettled : List Transition → List ℕ → ℕ
unsettled trace [] = 0
unsettled trace (p ∷ ps) = bit (not (is_settled trace p)) + unsettled trace ps

pub unsettled-fresh : (ps : List ℕ) → unsettled [] ps ≡ length ps
unsettled-fresh [] = refl
unsettled-fresh (p ∷ ps) = omega (arith, unsettled-fresh ps)

-- A transition that settles `i` for the first time settles it wherever it stands.
pub unsettled-settle :
    (t : Transition) (trace : List Transition) (i : ℕ) (ps : List ℕ)
    → ((j : ℕ) → settles t j ≡ (i == j))
    → is_settled trace i ≡ false
    → unsettled (t ∷ trace) ps + count i ps ≡ unsettled trace ps
unsettled-settle t trace i [] at fresh = refl
unsettled-settle t trace i (p ∷ ps) at fresh =
    ground (arith, at p, unsettled-settle t trace i ps at fresh)

pub unsettled-start :
    (i : ℕ) (trace : List Transition) (ps : List ℕ)
    → unsettled (start i ∷ trace) ps ≡ unsettled trace ps
unsettled-start i trace [] = refl
unsettled-start i trace (p ∷ ps) = omega (arith, unsettled-start i trace ps)

pub settled_of_unsettled :
    (trace : List Transition) (ps : List ℕ) (p : ℕ)
    → unsettled trace ps ≡ 0
    → 0 < count p ps
    → is_settled trace p ≡ true
settled_of_unsettled trace [] p none_left here = absurd (omega arith)
settled_of_unsettled trace (q ∷ ps) p none_left here =
    ground (arith, settled_of_unsettled trace ps p)

pub unsettled_of_settled :
    (trace : List Transition) (ps : List ℕ)
    → ((p : ℕ) → 0 < count p ps → is_settled trace p ≡ true)
    → unsettled trace ps ≡ 0
unsettled_of_settled trace [] all = refl
unsettled_of_settled trace (q ∷ ps) all =
    ground (arith, all q, unsettled_of_settled trace ps (λ p h. all p (omega arith)))

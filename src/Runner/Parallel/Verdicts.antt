-- ===== src/Runner/Parallel/Verdicts.antt =====
-- What becomes of a job by itself, and how the trace of a run tells it.
use betterhook.Base.{
  ℕ, zero, suc, ◌<◌, ◌≡◌, refl, ap, List, [], ◌∷◌, Bool, true, false, ◌||◌, Result, ok, arith,
  length, get_elem?_cases, ◌≢◌,
}
use native.Mathlib.Decide.{ℕ_discrete}
use betterhook.Runner.Plan.{ResolvedJob}
use betterhook.Runner.World.{World}
use betterhook.Runner.Executor.{Transition, start, skip, hit, finish, Run}
use betterhook.Runner.Executor.Trace.{is_settled, any_failed}
use betterhook.Runner.Executor.Invariant.{verdict, TellsVerdicts}

-- What becomes of job `i` by itself: it fails or not, or its task has an error. A job that is
-- skipped does not fail.
abbrev pub alone : {E : Type 0} → World E → List ResolvedJob → ℕ → Result E Bool
alone world jobs =
    verdict (record { nodes = []; jobs = jobs; limit = 1; fail_fast = false; world = world })

-- Whether a test passes below `n`.
abbrev pub any_below : ℕ → (ℕ → Bool) → Bool
any_below zero f = false
any_below (suc n) f = f n || any_below n f

pub any_below-true : (n i : ℕ) (f : ℕ → Bool) → i < n → f i ≡ true → any_below n f ≡ true
any_below-true zero i f l h = absurd (omega arith)
any_below-true (suc n) i f l h = elim (ℕ_discrete i n) [
  | yes e ↦ ground (arith, ap f e)
  | no d ↦ ground (arith, any_below-true n i f)
]

pub any_below-false :
    (n : ℕ) (f : ℕ → Bool) → ((i : ℕ) → i < n → f i ≡ false) → any_below n f ≡ false
any_below-false zero f h = refl
any_below-false (suc n) f h =
    ground (arith, h n (omega arith), any_below-false n f (λ i l. h i (omega arith)))

module _ {E : Type 0} (run : Run E) where
  pub verdict_of_settled :
      (trace : List Transition) (i : ℕ)
      → TellsVerdicts run trace
      → is_settled trace i ≡ true
      → any_failed trace ≡ false
      → verdict run i ≡ ok false
  verdict_of_settled [] i tells here fine = cc
  verdict_of_settled (start j ∷ trace) i (_, tells) here fine =
      verdict_of_settled trace i tells here fine
  verdict_of_settled (skip j ∷ trace) i (told, tells) here fine =
      ground (arith, verdict_of_settled trace i tells)
  verdict_of_settled (hit j b ∷ trace) i (told, tells) here fine =
      ground (arith, verdict_of_settled trace i tells)
  verdict_of_settled (finish j b ∷ trace) i (told, tells) here fine =
      ground (arith, verdict_of_settled trace i tells)

  pub some_failed :
      (trace : List Transition)
      → TellsVerdicts run trace
      → any_failed trace ≡ true
      → (i : ℕ) × (verdict run i ≡ ok true)
  some_failed [] tells h = cc
  some_failed (start j ∷ trace) (_, tells) h = some_failed trace tells h
  some_failed (skip j ∷ trace) (_, tells) h = some_failed trace tells h
  some_failed (hit j true ∷ trace) (told, tells) h = (j, told)
  some_failed (hit j false ∷ trace) (told, tells) h = some_failed trace tells h
  some_failed (finish j true ∷ trace) (told, tells) h = (j, told)
  some_failed (finish j false ∷ trace) (told, tells) h = some_failed trace tells h

pub alone_out :
    {E : Type 0} (world : World E) (jobs : List ResolvedJob) (i : ℕ) (r : Result E Bool)
    → alone world jobs i ≡ r
    → r ≢ ok false
    → i < length jobs
unfolding verdict
alone_out world jobs i r h d = ground (arith, get_elem?_cases jobs i)

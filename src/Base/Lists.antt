-- ===== src/Base/Lists.antt =====
-- Lists measured, indexed and counted by native numbers, and sums over a range.
use Prim.Native.Nat.{ℕ, zero, suc, ◌+◌, ◌<◌, ◌≤◌}
use mathlib.Core.Path.{◌≡◌, refl, ap}
use mathlib.Core.Logic.{◌≢◌, ◌⊎◌, inl, inr}
use mathlib.Core.Bool.{Bool, true, false}
use mathlib.Core.List.{List, [], ◌∷◌, ◌++◌}
use mathlib.Core.Option
use mathlib.Core.Option.{Option, none, some}
use native.Mathlib.Omega.{arith}
use native.Mathlib.Decide.{ℕ_discrete}
use betterhook.Base.Tests.{◌==◌, if◌then◌else◌, bit}

module _ {ℓ} {A : Type ℓ} where
  abbrev pub length : List A → ℕ
  length [] = 0
  length (x ∷ xs) = suc (length xs)

  abbrev pub get_elem? : List A → ℕ → Option A
  get_elem? [] i = none
  get_elem? (x ∷ xs) zero = some x
  get_elem? (x ∷ xs) (suc i) = get_elem? xs i

  -- `v[i]`, with a value for an index out of range.
  abbrev pub get_or : A → List A → ℕ → A
  get_or d [] i = d
  get_or d (x ∷ xs) zero = x
  get_or d (x ∷ xs) (suc i) = get_or d xs i

  -- `v[i]` is removed; an index out of range changes nothing.
  abbrev pub erase_idx : List A → ℕ → List A
  erase_idx [] i = []
  erase_idx (x ∷ xs) zero = xs
  erase_idx (x ∷ xs) (suc i) = x ∷ erase_idx xs i

  -- `v[i]` is changed in place; an index out of range changes nothing.
  abbrev pub modify : (A → A) → ℕ → List A → List A
  modify f i [] = []
  modify f zero (x ∷ xs) = f x ∷ xs
  modify f (suc i) (x ∷ xs) = x ∷ modify f i xs

  abbrev pub is_empty : List A → Bool
  is_empty [] = true
  is_empty (x ∷ xs) = false

  pub length-append : (xs ys : List A) → length (xs ++ ys) ≡ length xs + length ys
  length-append [] ys = omega arith
  length-append (x ∷ xs) ys = omega (arith, length-append xs ys)

  pub length-modify : (f : A → A) (i : ℕ) (xs : List A) → length (modify f i xs) ≡ length xs
  length-modify f i [] = refl
  length-modify f zero (x ∷ xs) = refl
  length-modify f (suc i) (x ∷ xs) = ap suc (length-modify f i xs)

  pub get_elem?-modify :
      (f : A → A) (i j : ℕ) (xs : List A)
      → get_elem? (modify f i xs) j
        ≡ (if i == j then Option.map f (get_elem? xs j) else get_elem? xs j)
  get_elem?-modify f i j [] = ground arith
  get_elem?-modify f zero zero (x ∷ xs) = refl
  get_elem?-modify f zero (suc j) (x ∷ xs) = ground arith
  get_elem?-modify f (suc i) zero (x ∷ xs) = ground arith
  get_elem?-modify f (suc i) (suc j) (x ∷ xs) = ground (arith, get_elem?-modify f i j xs)

module _ {ℓ} {A : Type ℓ} where
  pub get_elem?_cases : (xs : List A) (i : ℕ) → (get_elem? xs i ≡ none) ⊎ (i < length xs)
  get_elem?_cases [] i = inl refl
  get_elem?_cases (x ∷ xs) zero = inr (omega arith)
  get_elem?_cases (x ∷ xs) (suc i) = elim (get_elem?_cases xs i) [
    | inl e ↦ inl e
    | inr l ↦ inr (omega arith)
  ]

module _ {ℓ} {A : Type ℓ} (d : A) where
  pub get_or-modify :
      (f : A → A) (i j : ℕ) (xs : List A)
      → j < length xs
      → get_or d (modify f i xs) j ≡ (if i == j then f (get_or d xs j) else get_or d xs j)
  get_or-modify f i j [] h = absurd (omega arith)
  get_or-modify f zero zero (x ∷ xs) h = refl
  get_or-modify f zero (suc j) (x ∷ xs) h = ground arith
  get_or-modify f (suc i) zero (x ∷ xs) h = ground arith
  get_or-modify f (suc i) (suc j) (x ∷ xs) h = ground (arith, get_or-modify f i j xs)

  pub get_or_out : (i : ℕ) (xs : List A) → length xs ≤ i → get_or d xs i ≡ d
  get_or_out i [] h = refl
  get_or_out zero (x ∷ xs) h = absurd (omega arith)
  get_or_out (suc i) (x ∷ xs) h = get_or_out i xs (omega arith)

module _ {ℓ} {A : Type ℓ} where
  pub get_elem?-some : (xs : List A) (i : ℕ) → i < length xs → (x : A) × (get_elem? xs i ≡ some x)
  get_elem?-some [] i h = absurd (omega arith)
  get_elem?-some (x ∷ xs) zero h = (x, refl)
  get_elem?-some (x ∷ xs) (suc i) h = get_elem?-some xs i (omega arith)

-- How often a number stands in a list.
abbrev pub count : ℕ → List ℕ → ℕ
count n [] = 0
count n (m ∷ ms) = bit (m == n) + count n ms

pub count-append : (n : ℕ) (xs ys : List ℕ) → count n (xs ++ ys) ≡ count n xs + count n ys
count-append n [] ys = omega arith
count-append n (x ∷ xs) ys = omega (arith, count-append n xs ys)

-- `for i in lo .. lo + rounds { s = body i s }`
unfoldable pub for_range {ℓ} : {S : Type ℓ} → (rounds lo : ℕ) → (ℕ → S → S) → S → S
for_range zero lo body s = s
for_range (suc rounds) lo body s = for_range rounds (suc lo) body (body lo s)

-- f lo + f (lo + 1) + … over `rounds` numbers
unfoldable pub sum_range : (rounds lo : ℕ) → (ℕ → ℕ) → ℕ
sum_range zero lo f = 0
sum_range (suc rounds) lo f = f lo + sum_range rounds (suc lo) f

-- What a loop adds to a measure of its state is the sum of what its rounds add.
pub measure-for_range {ℓ κ} :
    {S : Type ℓ} (P : S → Type κ) (measure : S → ℕ) (body : ℕ → S → S) (f : ℕ → ℕ)
    (rounds lo hi : ℕ) (s : S)
    → lo + rounds ≡ hi
    → ((i : ℕ) (s : S)
        → lo ≤ i
        → i < hi
        → P s
        → P (body i s) × (measure (body i s) ≡ measure s + f i))
    → P s
    → P (for_range rounds lo body s)
      × (measure (for_range rounds lo body s) ≡ measure s + sum_range rounds lo f)
unfolding for_range sum_range
measure-for_range P measure body f zero lo hi s e keep p = (p, omega arith)
measure-for_range P measure body f (suc rounds) lo hi s e keep p =
    let (now, adds) = keep lo s (omega arith) (omega arith) p in
    let (after, sums) =
      measure-for_range P measure body f rounds (suc lo) hi (body lo s) (omega arith)
        (λ i s' l u. keep i s' (omega arith) u) now in
    (after, omega arith)

pub sum_range-zero :
    (rounds lo : ℕ) (f : ℕ → ℕ) → ((i : ℕ) → lo ≤ i → f i ≡ 0) → sum_range rounds lo f ≡ 0
unfolding sum_range
sum_range-zero zero lo f h = refl
sum_range-zero (suc rounds) lo f h =
    omega (arith, h lo, sum_range-zero rounds (suc lo) f (λ i l. h i (omega arith)))

-- A sum with one term that may count is that term, where the range holds it.
pub sum_range_single :
    (rounds lo k : ℕ) (f : ℕ → ℕ)
    → ((i : ℕ) → lo ≤ i → i ≢ k → f i ≡ 0)
    → lo ≤ k
    → k < lo + rounds
    → sum_range rounds lo f ≡ f k
unfolding sum_range
sum_range_single zero lo k f h l u = absurd (omega arith)
sum_range_single (suc rounds) lo k f h l u = elim (ℕ_discrete lo k) [
  | yes e ↦
      let rest = sum_range-zero rounds (suc lo) f (λ i m. h i (omega arith) (omega arith)) in
      rw (rest, e) (omega arith)
  | no d ↦
      let rest =
        sum_range_single rounds (suc lo) k f (λ i m. h i (omega arith)) (omega arith)
          (omega arith) in
      omega (arith, h lo (omega arith) d)
]

pub sum_range-ext :
    (rounds lo : ℕ) (f g : ℕ → ℕ)
    → ((i : ℕ) → lo ≤ i → i < lo + rounds → f i ≡ g i)
    → sum_range rounds lo f ≡ sum_range rounds lo g
unfolding sum_range
sum_range-ext zero lo f g h = refl
sum_range-ext (suc rounds) lo f g h = omega (
  arith,
  h lo (omega arith) (omega arith),
  sum_range-ext rounds (suc lo) f g (λ i l u. h i (omega arith) (omega arith)),
)

-- How many entries are true.
abbrev pub count_true : List Bool → ℕ
count_true [] = 0
count_true (b ∷ bs) = bit b + count_true bs

pub count_true-modify :
    (i : ℕ) (bs : List Bool)
    → i < length bs
    → get_or false bs i ≡ false
    → count_true (modify (λ _. true) i bs) ≡ count_true bs + 1
count_true-modify i [] l h = absurd (omega arith)
count_true-modify zero (b ∷ bs) l h = ground arith
count_true-modify (suc i) (b ∷ bs) l h = ground (arith, count_true-modify i bs)

pub count_true-le : (bs : List Bool) → count_true bs ≤ length bs
count_true-le [] = omega arith
count_true-le (b ∷ bs) = ground (arith, count_true-le bs)

pub count_true_all :
    (bs : List Bool)
    → ((i : ℕ) → i < length bs → get_or false bs i ≡ true)
    → count_true bs ≡ length bs
count_true_all [] h = refl
count_true_all (b ∷ bs) h =
    let rest = count_true_all bs (λ i l. h (suc i) (omega arith)) in
    ground (arith, h zero (omega arith))

pub count-erase_idx :
    (n k : ℕ) (ms : List ℕ)
    → k < length ms
    → count n (erase_idx ms k) + bit (get_or 0 ms k == n) ≡ count n ms
count-erase_idx n k [] h = absurd (omega arith)
count-erase_idx n zero (m ∷ ms) h = omega arith
count-erase_idx n (suc k) (m ∷ ms) h = omega (arith, count-erase_idx n k ms (omega arith))

pub length-erase_idx {ℓ} :
    {A : Type ℓ} (k : ℕ) (xs : List A) → k < length xs → length (erase_idx xs k) + 1 ≡ length xs
length-erase_idx k [] h = absurd (omega arith)
length-erase_idx zero (x ∷ xs) h = omega arith
length-erase_idx (suc k) (x ∷ xs) h = omega (arith, length-erase_idx k xs (omega arith))

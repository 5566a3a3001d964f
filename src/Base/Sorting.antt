-- ===== src/Base/Sorting.antt =====
-- Rust's stable `sort_by`, as sorting by insertion: of two entries that compare equal the first stays
-- first.
use mathlib.Core.Path.{◌≡◌, refl}
use mathlib.Core.Bool.{Bool, true, false, ◌&&◌}
use mathlib.Core.List.{List, [], ◌∷◌, Perm}
use mathlib.Core.List.Perm
use native.Mathlib.Omega.{arith}
use betterhook.Base.Tests.{if◌then◌else◌}
use betterhook.Base.Every.{All}

module _ {ℓ} {A : Type ℓ} (leb : A → A → Bool) where
  abbrev pub starts_from : A → List A → Bool
  starts_from x [] = true
  starts_from x (y ∷ ys) = leb x y

  abbrev pub is_ordered : List A → Bool
  is_ordered [] = true
  is_ordered (x ∷ xs) = starts_from x xs && is_ordered xs

  unfoldable pub insert_by : A → List A → List A
  insert_by x [] = x ∷ []
  insert_by x (y ∷ ys) = let rest = insert_by x ys in if leb x y then x ∷ y ∷ ys else y ∷ rest

  unfoldable pub sort_by : List A → List A
  sort_by [] = []
  sort_by (x ∷ xs) = insert_by x (sort_by xs)

  insert_by-Perm : (x : A) (xs : List A) → Perm (insert_by x xs) (x ∷ xs)
  unfolding insert_by
  insert_by-Perm x [] = Perm.refl _
  insert_by-Perm x (y ∷ ys) =
      elim (leb x y) as (λ b. Perm (if b then x ∷ y ∷ ys else y ∷ insert_by x ys) (x ∷ y ∷ ys)) [
        | true ↦ Perm.refl _
        | false ↦ Perm.trans (Perm.cons y (insert_by-Perm x ys)) (Perm.swap x y ys)
      ]

  pub sort_by-Perm : (xs : List A) → Perm (sort_by xs) xs
  unfolding sort_by
  sort_by-Perm [] = Perm.refl _
  sort_by-Perm (x ∷ xs) = Perm.trans (insert_by-Perm x (sort_by xs)) (Perm.cons x (sort_by-Perm xs))

  module _ (total : (x y : A) → leb x y ≡ false → leb y x ≡ true) where
    starts_from-insert_by :
        (x y : A) (ys : List A)
        → leb y x ≡ true
        → starts_from y ys ≡ true
        → starts_from y (insert_by x ys) ≡ true
    unfolding insert_by
    starts_from-insert_by x y [] h s = h
    starts_from-insert_by x y (z ∷ zs) h s = ground arith

    insert_by_ordered :
        (x : A) (xs : List A) → is_ordered xs ≡ true → is_ordered (insert_by x xs) ≡ true
    unfolding insert_by
    insert_by_ordered x [] s = refl
    insert_by_ordered x (y ∷ ys) s =
        ground (arith, total x y, starts_from-insert_by x y ys, insert_by_ordered x ys)

    pub sort_by_ordered : (xs : List A) → is_ordered (sort_by xs) ≡ true
    unfolding sort_by
    sort_by_ordered [] = refl
    sort_by_ordered (x ∷ xs) = insert_by_ordered x (sort_by xs) (sort_by_ordered xs)

  insert_by-All {κ} :
      (P : A → Type κ) (x : A) (xs : List A) → P x → All P xs → All P (insert_by x xs)
  unfolding insert_by
  insert_by-All P x [] p all = (p, tt)
  insert_by-All P x (y ∷ ys) p (q, all) =
      elim (leb x y) as (λ b. All P (if b then x ∷ y ∷ ys else y ∷ insert_by x ys)) [
        | true ↦ (p, (q, all))
        | false ↦ (q, insert_by-All P x ys p all)
      ]

  pub sort_by-All {κ} : (P : A → Type κ) (xs : List A) → All P xs → All P (sort_by xs)
  unfolding sort_by
  sort_by-All P [] all = tt
  sort_by-All P (x ∷ xs) (p, all) = insert_by-All P x (sort_by xs) p (sort_by-All P xs all)

  insert_by-All_inv {κ} :
      (P : A → Type κ) (x : A) (xs : List A) → All P (insert_by x xs) → P x × All P xs
  unfolding insert_by
  insert_by-All_inv P x [] = λ all. all
  insert_by-All_inv P x (y ∷ ys) =
      elim (leb x y)
        as (λ b. All P (if b then x ∷ y ∷ ys else y ∷ insert_by x ys) → P x × All P (y ∷ ys)) [
          | true ↦ λ all. all
          | false ↦ λ all. let (p, rest) = insert_by-All_inv P x ys all.1 in (p, (all.0, rest))
        ]

  pub sort_by-All_inv {κ} : (P : A → Type κ) (xs : List A) → All P (sort_by xs) → All P xs
  unfolding sort_by
  sort_by-All_inv P [] all = tt
  sort_by-All_inv P (x ∷ xs) all =
      let (p, rest) = insert_by-All_inv P x (sort_by xs) all in (p, sort_by-All_inv P xs rest)

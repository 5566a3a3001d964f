-- ===== src/Base/Maps.antt =====
-- Rust's `BTreeMap<String, V>`: the entries in ascending order of their keys.
use Prim.Native.Nat.{Ordering}
use Prim.Native.String.{String, compare}
use mathlib.Core.Path.{◌≡◌, refl, ap}
use mathlib.Core.Bool.{Bool, true, false, ◌&&◌}
use mathlib.Core.Option.{Option, none, some}
use mathlib.Core.List.{List, [], ◌∷◌}
use mathlib.Core.HLevel.{Σ_prop_path}
use native.Mathlib.Omega.{arith}
use text.Mathlib.Text.{◌==◌ as str_eq}
use text.Mathlib.TextEquality.{eq_iff, path_by_compare}
use text.Mathlib.TextPositions.{compare_refl}
use betterhook.Base.Tests.{if◌then◌else◌}
use betterhook.Base.Texts.{compare-gt, compare-lt_trans}

abbrev pub is_lt : Ordering → Bool
is_lt o = elim o [ Ordering.lt ↦ true | Ordering.eq ↦ false | Ordering.gt ↦ false ]

-- What two maps that hold a value each, or not, hold together.
abbrev pub both {ℓ} : {V : Type ℓ} → (V → V → V) → Option V → Option V → Option V
both f none y = y
both f (some x) none = some x
both f (some x) (some y) = some (f x y)

both_assoc {ℓ} :
    {V : Type ℓ} (f : V → V → V)
    → ((x y z : V) → f (f x y) z ≡ f x (f y z))
    → (a b c : Option V) → both f (both f a b) c ≡ both f a (both f b c)
both_assoc f assoc none b c = refl
both_assoc f assoc (some x) none c = refl
both_assoc f assoc (some x) (some y) none = refl
both_assoc f assoc (some x) (some y) (some z) = ap some (assoc x y z)

module _ {ℓ} {V : Type ℓ} where
  -- The keys are all greater than `k`, if they are in order.
  abbrev pub above : String → List (String × V) → Bool
  above k [] = true
  above k ((j, v) ∷ m) = is_lt (compare k j)

  abbrev pub is_sorted : List (String × V) → Bool
  is_sorted [] = true
  is_sorted ((j, v) ∷ m) = above j m && is_sorted m

  abbrev pub find : String → List (String × V) → Option V
  find k [] = none
  find k ((j, v) ∷ m) = if str_eq j k then some v else find k m

  unfoldable pub upsert_list : (V → V → V) → String → V → List (String × V) → List (String × V)
  upsert_list f k v [] = (k, v) ∷ []
  upsert_list f k v ((j, w) ∷ m) = elim (compare k j) [
    | Ordering.lt ↦ (k, v) ∷ (j, w) ∷ m
    | Ordering.eq ↦ (j, f w v) ∷ m
    | Ordering.gt ↦ (j, w) ∷ upsert_list f k v m
  ]

  above_trans :
      (k j : String) (m : List (String × V))
      → compare k j ≡ Ordering.lt
      → above j m ≡ true
      → above k m ≡ true
  above_trans k j [] h a = refl
  above_trans k j ((i, v) ∷ m) h a = ground (arith, compare-lt_trans k j i)

  pub find-above :
      (k : String) (m : List (String × V)) → above k m ≡ true → is_sorted m ≡ true → find k m ≡ none
  find-above k [] a s = refl
  find-above k ((j, v) ∷ m) a s =
      ground (arith, eq_iff j k, compare_refl k, above_trans k j m, find-above k m)

  above-upsert :
      (f : V → V → V) (i k : String) (v : V) (m : List (String × V))
      → compare i k ≡ Ordering.lt
      → above i m ≡ true
      → above i (upsert_list f k v m) ≡ true
  unfolding upsert_list
  above-upsert f i k v [] h a = ground arith
  above-upsert f i k v ((j, w) ∷ m) h a = ground arith

  pub sorted-upsert :
      (f : V → V → V) (k : String) (v : V) (m : List (String × V))
      → is_sorted m ≡ true
      → is_sorted (upsert_list f k v m) ≡ true
  unfolding upsert_list
  sorted-upsert f k v [] s = refl
  sorted-upsert f k v ((j, w) ∷ m) s =
      ground (arith, compare-gt k j, above-upsert f j k v m, sorted-upsert f k v m)

  find-upsert :
      (f : V → V → V) (k j : String) (v : V) (m : List (String × V))
      → is_sorted m ≡ true
      → find j (upsert_list f k v m) ≡ (if str_eq k j then both f (find k m) (some v) else find j m)
  unfolding upsert_list
  find-upsert f k j v [] s = refl
  find-upsert f k j v ((i, w) ∷ m) s = ground (
    arith,
    eq_iff k j,
    eq_iff i k,
    eq_iff i j,
    path_by_compare k i,
    compare_refl k,
    find-above k ((i, w) ∷ m),
    find-upsert f k j v m,
  )

  -- Sorted entries are determined by what is found under each key.
  sorted_ext :
      (m n : List (String × V))
      → is_sorted m ≡ true
      → is_sorted n ≡ true
      → ((k : String) → find k m ≡ find k n)
      → m ≡ n
  sorted_ext [] [] s t h = refl
  sorted_ext [] ((i, w) ∷ n) s t h = ground (arith, h i, eq_iff i i)
  sorted_ext ((j, v) ∷ m) [] s t h = ground (arith, h j, eq_iff j j)
  sorted_ext ((j, v) ∷ m) ((i, w) ∷ n) s t h =
      let keys : j ≡ i = ground (
        arith,
        compare-gt j i,
        path_by_compare j i,
        h j,
        h i,
        eq_iff j j,
        eq_iff i i,
        find-above j ((i, w) ∷ n),
        find-above i ((j, v) ∷ m),
      ) in
      let values : v ≡ w = ground (arith, h j, eq_iff j j, eq_iff i j) in
      let rests : m ≡ n = sorted_ext m n (ground arith) (ground arith) (λ k.
        ground (arith, h k, eq_iff j k, eq_iff i k, eq_iff i j, find-above j m, find-above i n)) in
      cc

  pub merge_list : (V → V → V) → List (String × V) → List (String × V) → List (String × V)
  merge_list f m [] = m
  merge_list f m ((k, v) ∷ n) = merge_list f (upsert_list f k v m) n

  pub sorted-merge :
      (f : V → V → V) (m n : List (String × V))
      → is_sorted m ≡ true
      → is_sorted (merge_list f m n) ≡ true
  unfolding merge_list
  sorted-merge f m [] s = s
  sorted-merge f m ((k, v) ∷ n) s = sorted-merge f (upsert_list f k v m) n (sorted-upsert f k v m s)

  find-merge :
      (f : V → V → V) (m n : List (String × V)) (k : String)
      → is_sorted m ≡ true
      → is_sorted n ≡ true
      → find k (merge_list f m n) ≡ both f (find k m) (find k n)
  unfolding merge_list
  find-merge f m [] k s t = ground arith
  find-merge f m ((j, v) ∷ n) k s t = ground (
    arith,
    find-merge f (upsert_list f j v m) n k (sorted-upsert f j v m s),
    find-upsert f j k v m s,
    eq_iff j k,
    find-above j n,
  )

abbrev pub BTreeMap {ℓ} : Type ℓ → Type ℓ
BTreeMap V = (entries : List (String × V)) × (is_sorted entries ≡ true)

abbrev pub empty {ℓ} : {V : Type ℓ} → BTreeMap V
empty = ([], refl)

module _ {ℓ} {V : Type ℓ} where
  -- `map.get(k)`
  abbrev pub get : String → BTreeMap V → Option V
  get k m = find k m.0

  -- `map.insert(k, v)`
  unfoldable pub insert : String → V → BTreeMap V → BTreeMap V
  insert k v (m, s) = (upsert_list (λ _ w. w) k v m, sorted-upsert (λ _ w. w) k v m s)

  pub get-insert :
      (k j : String) (v : V) (m : BTreeMap V)
      → get j (insert k v m) ≡ (if str_eq k j then some v else get j m)
  unfolding insert
  get-insert k j v (m, s) = ground (arith, find-upsert (λ _ w. w) k j v m s)

  -- `for (k, v) in overlay { base.entry(k).and_modify(|b| *b = f(b, v)).or_insert(v); }`
  unfoldable pub merge_maps : (V → V → V) → BTreeMap V → BTreeMap V → BTreeMap V
  unfolding merge_list
  merge_maps f (m, s) (n, _) = (merge_list f m n, sorted-merge f m n s)

  pub get-merge_maps :
      (f : V → V → V) (m n : BTreeMap V) (k : String)
      → get k (merge_maps f m n) ≡ both f (get k m) (get k n)
  unfolding merge_maps
  get-merge_maps f (m, s) (n, t) k = find-merge f m n k s t

  -- Two maps are equal if they hold the same under each key.
  pub BTreeMap-ext : (m n : BTreeMap V) → ((k : String) → get k m ≡ get k n) → m ≡ n
  BTreeMap-ext (m, s) (n, t) h = Σ_prop_path (λ entries. hlevel) (sorted_ext m n s t h)

  pub merge_maps_assoc :
      (f : V → V → V)
      → ((x y z : V) → f (f x y) z ≡ f x (f y z))
      → (a b c : BTreeMap V) → merge_maps f (merge_maps f a b) c ≡ merge_maps f a (merge_maps f b c)
  merge_maps_assoc f assoc a b c = BTreeMap-ext _ _ λ k. ground (
    arith,
    get-merge_maps f (merge_maps f a b) c k,
    get-merge_maps f a b k,
    get-merge_maps f a (merge_maps f b c) k,
    get-merge_maps f b c k,
    both_assoc f assoc (get k a) (get k b) (get k c),
  )

  pub merge_maps-empty : (f : V → V → V) (m : BTreeMap V) → merge_maps f empty m ≡ m
  merge_maps-empty f m = BTreeMap-ext _ _ λ k. get-merge_maps f empty m k

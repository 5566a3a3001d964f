-- ===== src/Base/Texts.antt =====
-- The order of texts, by their characters, is a strict order.
use Prim.Native.Nat.{Ordering, compare as compare_ℕ}
use Prim.Native.Char.{code}
use Prim.Native.String.compare
use Prim.Native.String.{String, [], ◌∷◌, compare, then}
use mathlib.Core.Path.{◌≡◌}
use native.Mathlib.Omega.{arith}

nil_cons : (c : _) (s : String) → compare [] (c ∷ s) ≡ Ordering.lt
nil_cons c s = compare.nil-cons c s

cons_nil : (c : _) (s : String) → compare (c ∷ s) [] ≡ Ordering.gt
cons_nil c s = compare.cons-nil c s

cons_cons :
    (c d : _) (s t : String)
    → compare (c ∷ s) (d ∷ t) ≡ then (compare_ℕ (code c) (code d)) (compare s t)
cons_cons c d s t = compare.cons-cons c d s t

nil_nil : compare [] [] ≡ Ordering.eq
nil_nil = compare.nil-nil

pub compare-gt : (s t : String) → compare s t ≡ Ordering.gt → compare t s ≡ Ordering.lt
compare-gt [] [] h = ground (arith, nil_nil)
compare-gt [] (d ∷ t) h = ground (arith, nil_cons d t)
compare-gt (c ∷ s) [] h = nil_cons c s
compare-gt (c ∷ s) (d ∷ t) h = ground (arith, cons_cons c d s t, cons_cons d c t s, compare-gt s t)

pub compare-lt_trans :
    (s t u : String)
    → compare s t ≡ Ordering.lt
    → compare t u ≡ Ordering.lt
    → compare s u ≡ Ordering.lt
compare-lt_trans [] [] u h k = ground (arith, nil_nil)
compare-lt_trans [] (d ∷ t) [] h k = ground (arith, cons_nil d t)
compare-lt_trans [] (d ∷ t) (e ∷ u) h k = nil_cons e u
compare-lt_trans (c ∷ s) [] u h k = ground (arith, cons_nil c s)
compare-lt_trans (c ∷ s) (d ∷ t) [] h k = ground (arith, cons_nil d t)
compare-lt_trans (c ∷ s) (d ∷ t) (e ∷ u) h k =
    ground (arith, cons_cons c d s t, cons_cons d e t u, cons_cons c e s u, compare-lt_trans s t u)

-- ===== src/Runner/Executor/Heap.antt =====
-- The heap of ready jobs: what it holds, and that it is popped in the order of the keys.
use betterhook.Base.{
  ℕ, ◌+◌, ◌≡◌, refl, List, [], ◌∷◌, false, inl, inr, arith, bit, Bool-cases, ◌==◌,
}
use betterhook.Runner.Executor.{heap_push, key_ltb}

-- How often a job stands in the heap.
abbrev pub ready_count : ℕ → List (ℕ × ℕ) → ℕ
ready_count i [] = 0
ready_count i ((p, j) ∷ heap) = bit (j == i) + ready_count i heap

pub ready_count-heap_push :
    (i p j : ℕ) (heap : List (ℕ × ℕ))
    → ready_count i (heap_push (p, j) heap) ≡ bit (j == i) + ready_count i heap
unfolding heap_push
ready_count-heap_push i p j [] = refl
ready_count-heap_push i p j ((q, k) ∷ heap) = ground (arith, ready_count-heap_push i p j heap)

-- Each key is at most those behind it.
abbrev pub IsBelow : ℕ × ℕ → List (ℕ × ℕ) → Type 0
IsBelow key [] = Unit
IsBelow key (k ∷ heap) = (key_ltb k key ≡ false) × IsBelow key heap

abbrev pub IsHeap : List (ℕ × ℕ) → Type 0
IsHeap [] = Unit
IsHeap (key ∷ heap) = IsBelow key heap × IsHeap heap

IsBelow-trans :
    (key k : ℕ × ℕ) (heap : List (ℕ × ℕ))
    → key_ltb k key ≡ false
    → IsBelow k heap
    → IsBelow key heap
IsBelow-trans key k [] h b = tt
IsBelow-trans key k (l ∷ heap) h (b, bs) = (ground arith, IsBelow-trans key k heap h bs)

IsBelow-heap_push :
    (key k : ℕ × ℕ) (heap : List (ℕ × ℕ))
    → key_ltb k key ≡ false
    → IsBelow key heap
    → IsBelow key (heap_push k heap)
unfolding heap_push
IsBelow-heap_push key k [] h b = (h, tt)
IsBelow-heap_push key k (l ∷ heap) h (b, bs) = elim (Bool-cases (key_ltb k l)) [
  | inl e ↦ rw e (h, (b, bs))
  | inr e ↦ rw e (b, IsBelow-heap_push key k heap h bs)
]

pub heap_push-IsHeap : (k : ℕ × ℕ) (heap : List (ℕ × ℕ)) → IsHeap heap → IsHeap (heap_push k heap)
unfolding heap_push
heap_push-IsHeap k [] h = (tt, tt)
heap_push-IsHeap k (l ∷ heap) (b, h) = elim (Bool-cases (key_ltb k l)) [
  | inl e ↦ rw e ((ground arith, IsBelow-trans k l heap (ground arith) b), (b, h))
  | inr e ↦ rw e (IsBelow-heap_push l k heap e b, heap_push-IsHeap k heap h)
]

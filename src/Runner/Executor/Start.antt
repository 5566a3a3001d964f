-- ===== src/Runner/Executor/Start.antt =====
-- The state in which the scheduler starts satisfies the invariant.
use betterhook.Base.{
  ℕ, zero, suc, ◌+◌, ◌<◌, ◌≤◌, ◌≡◌, refl, sym, ap, ◌∙◌, List, [], ◌∷◌, map, Bool, false, arith, bit,
  none, some, ◌==◌, if◌then◌else◌, length, get_or, get_elem?, count_true,
}
use betterhook.Runner.Plan.{ResolvedJob}
use betterhook.Runner.Dag.{DagNode}
use betterhook.Runner.Dag.Connect.{parents_at}
use betterhook.Runner.Executor.{Run, heap_push, push_roots, initial}
use betterhook.Runner.Executor.Trace.{unsettled-fresh}
use betterhook.Runner.Executor.Heap.{ready_count, ready_count-heap_push, IsHeap, heap_push-IsHeap}
use betterhook.Runner.Executor.Release.{IsBalanced}
use betterhook.Runner.Executor.Invariant.{Inv, count_skipped}

-- Whether the node at place `k` has no parents.
abbrev root_at : List DagNode → ℕ → ℕ
root_at nodes k = elim (get_elem? nodes k) [ none ↦ 0 | some n ↦ bit (length n.parents == 0) ]

abbrev push_root : ℕ → DagNode → List (ℕ × ℕ) → List (ℕ × ℕ)
push_root idx n heap = if length n.parents == 0 then heap_push (n.job.priority, idx) heap else heap

ready_count-push_root :
    (j idx : ℕ) (n : DagNode) (heap : List (ℕ × ℕ))
    → ready_count j (push_root idx n heap)
      ≡ ready_count j heap + (if idx == j then bit (length n.parents == 0) else 0)
ready_count-push_root j idx n heap = ground (arith, ready_count-heap_push j n.job.priority idx heap)

ready_count-push_roots_below :
    (j idx : ℕ) (nodes : List DagNode) (heap : List (ℕ × ℕ))
    → j < idx
    → ready_count j (push_roots idx nodes heap) ≡ ready_count j heap
unfolding push_roots
ready_count-push_roots_below j idx [] heap h = refl
ready_count-push_roots_below j idx (n ∷ nodes) heap h =
    ready_count-push_roots_below j (suc idx) nodes (push_root idx n heap) (omega arith)
    ∙ ground (arith, ready_count-push_root j idx n heap)

ready_count-push_roots :
    (j idx k : ℕ) (nodes : List DagNode) (heap : List (ℕ × ℕ))
    → j ≡ idx + k
    → ready_count j (push_roots idx nodes heap) ≡ ready_count j heap + root_at nodes k
unfolding push_roots
ready_count-push_roots j idx k [] heap h = omega arith
ready_count-push_roots j idx zero (n ∷ nodes) heap h =
    ready_count-push_roots_below j (suc idx) nodes (push_root idx n heap) (omega arith)
    ∙ ground (arith, ready_count-push_root j idx n heap)
ready_count-push_roots j idx (suc k) (n ∷ nodes) heap h =
    ready_count-push_roots j (suc idx) k nodes (push_root idx n heap) (omega arith)
    ∙ ground (arith, ready_count-push_root j idx n heap)

push_roots-IsHeap :
    (idx : ℕ) (nodes : List DagNode) (heap : List (ℕ × ℕ))
    → IsHeap heap
    → IsHeap (push_roots idx nodes heap)
unfolding push_roots
push_roots-IsHeap idx [] heap h = h
push_roots-IsHeap idx (n ∷ nodes) heap h =
    push_roots-IsHeap (suc idx) nodes (push_root idx n heap)
      (ground (arith, heap_push-IsHeap (n.job.priority, idx) heap h))

pending_initial :
    (nodes : List DagNode) (i : ℕ)
    → get_or 0 (map (λ n. length n.parents) nodes) i ≡ length (parents_at nodes i)
pending_initial [] i = refl
pending_initial (n ∷ nodes) zero = refl
pending_initial (n ∷ nodes) (suc i) = pending_initial nodes i

started_initial : (nodes : List DagNode) (i : ℕ) → get_or false (map (λ _. false) nodes) i ≡ false
started_initial [] i = refl
started_initial (n ∷ nodes) zero = refl
started_initial (n ∷ nodes) (suc i) = started_initial nodes i

length-map_nodes {ℓ} :
    {A : Type ℓ} (f : DagNode → A) (nodes : List DagNode) → length (map f nodes) ≡ length nodes
length-map_nodes f [] = refl
length-map_nodes f (n ∷ nodes) = ap suc (length-map_nodes f nodes)

root_at-pending :
    (nodes : List DagNode) (i : ℕ)
    → i < length nodes
    → root_at nodes i ≡ bit (length (parents_at nodes i) == 0)
root_at-pending [] i h = absurd (omega arith)
root_at-pending (n ∷ nodes) zero h = refl
root_at-pending (n ∷ nodes) (suc i) h = root_at-pending nodes i (omega arith)

root_at_out : (nodes : List DagNode) (i : ℕ) → length nodes ≤ i → root_at nodes i ≡ 0
root_at_out [] i h = refl
root_at_out (n ∷ nodes) zero h = absurd (omega arith)
root_at_out (n ∷ nodes) (suc i) h = root_at_out nodes i (omega arith)

initial-IsBalanced : (nodes : List DagNode) → IsBalanced (length nodes) (initial nodes)
unfolding initial
initial-IsBalanced nodes = record {
  pending_length = length-map_nodes (λ n. length n.parents) nodes;
  started_length = length-map_nodes (λ _. false) nodes;
  balance = λ i l. ground (
    arith,
    started_initial nodes i,
    pending_initial nodes i,
    ready_count-push_roots i 0 i nodes [] (omega arith),
    root_at-pending nodes i l,
  );
  in_range = λ i l.
      ground (arith, ready_count-push_roots i 0 i nodes [] (omega arith), root_at_out nodes i l);
  is_heap = push_roots-IsHeap 0 nodes [] tt;
}

pub none_started : (nodes : List DagNode) → count_true (map (λ _. false) nodes) ≡ 0
none_started [] = refl
none_started (n ∷ nodes) = omega (arith, none_started nodes)

none_skipped :
    (nodes : List DagNode) (jobs : List ResolvedJob)
    → count_skipped (map (λ _. false) nodes) jobs ≡ 0
none_skipped [] jobs = refl
none_skipped (n ∷ nodes) [] = refl
none_skipped (n ∷ nodes) (rj ∷ jobs) = omega (arith, none_skipped nodes jobs)

pub initial-Inv :
    {E : Type 0} (run : Run E) (precedes : ℕ → ℕ → Bool) → Inv run precedes (initial run.nodes)
unfolding initial
initial-Inv run precedes = record {
  balanced = initial-IsBalanced run.nodes;
  pending_unsettled =
      λ c. pending_initial run.nodes c ∙ sym (unsettled-fresh (parents_at run.nodes c));
  tally = record {
    started_split = λ i. ground (arith, started_initial run.nodes i);
    running_length = refl;
    running_limit = omega arith;
    jobs_counted = omega (arith, none_started run.nodes);
    failed_traced = refl;
    ordered = tt;
    tells = tt;
    spawned = λ i h. absurd (omega arith);
    skips_counted = sym (none_skipped run.nodes run.jobs);
  };
}

-- ===== src/Runner/Executor/Release.antt =====
-- Releasing children: the counts of pending parents fall, and a node enters the heap when its count
-- reaches zero, once.
use betterhook.Base.{
  ℕ, ◌+◌, ◌-◌, ◌<◌, ◌≤◌, ◌≡◌, refl, sym, ap, ◌∙◌, List, [], ◌∷◌, Bool, false, arith, bit, ◌==◌,
  length, length-modify, get_or, get_or-modify, get_or_out, modify, count,
}
use mathlib.Core.Path.{subst}
use betterhook.Runner.Dag.{DagNode}
use betterhook.Runner.Executor.{State, release_child, release_each, priority_of}
use betterhook.Runner.Executor.Heap.{ready_count, ready_count-heap_push, IsHeap, heap_push-IsHeap}

abbrev pub pending_at : State → ℕ → ℕ
pending_at s i = get_or 0 s.pending i

abbrev pub started_at : State → ℕ → Bool
started_at s i = get_or false s.started i

-- A job is either started or, once, in the heap, exactly if no parent of it is pending.
pub record IsBalanced (n : ℕ) (s : State) : Type 0 where
  pub pending_length : length s.pending ≡ n
  pub started_length : length s.started ≡ n
  pub balance :
      (i : ℕ) → i < n → bit (started_at s i) + ready_count i s.ready ≡ bit (pending_at s i == 0)
  pub in_range : (i : ℕ) → n ≤ i → ready_count i s.ready ≡ 0
  pub is_heap : IsHeap s.ready

-- The counts, the started jobs and the heap are all that it speaks of.
pub IsBalanced-same :
    {n : ℕ} {s : State} (s' : State)
    → s'.pending ≡ s.pending
    → s'.started ≡ s.started
    → s'.ready ≡ s.ready
    → IsBalanced n s
    → IsBalanced n s'
IsBalanced-same s' p q r b = record {
  pending_length = cc (p, b.pending_length);
  started_length = cc (q, b.started_length);
  balance = λ i l. cc (p, q, r, b.balance i l);
  in_range = λ i l. cc (r, b.in_range i l);
  is_heap = subst IsHeap (sym r) b.is_heap;
}

-- All but the counts and the heap is as it was.
pub record IsFrame (s s' : State) : Type 0 where
  pub started : s'.started ≡ s.started
  pub in_flight : s'.in_flight ≡ s.in_flight
  pub running : s'.running ≡ s.running
  pub failed : s'.failed ≡ s.failed
  pub cancelled : s'.cancelled ≡ s.cancelled
  pub jobs_run : s'.jobs_run ≡ s.jobs_run
  pub jobs_skipped : s'.jobs_skipped ≡ s.jobs_skipped
  pub trace : s'.trace ≡ s.trace

module _ (nodes : List DagNode) where
  release_child-IsFrame : (c : ℕ) (s : State) → IsFrame s (release_child nodes c s)
  unfolding release_child
  release_child-IsFrame c s = ground arith

  module _ (c : ℕ) (s : State) (waits : 0 < pending_at s c) where
    pending-release_child : (release_child nodes c s).pending ≡ modify (λ k. k - 1) c s.pending
    unfolding release_child
    pending-release_child = ground arith

    -- The parents of `c` in flight or to come are one fewer.
    release_child-pending :
        (i : ℕ) → pending_at (release_child nodes c s) i + bit (c == i) ≡ pending_at s i
    release_child-pending i = ground (
      arith,
      pending-release_child,
      get_or-modify 0 (λ k. k - 1) c i s.pending,
      get_or_out 0 i s.pending,
      get_or_out 0 i (modify (λ k. k - 1) c s.pending),
      get_or_out 0 c s.pending,
      length-modify (λ (k : ℕ). k - 1) c s.pending,
    )

    in_pending : c < length s.pending
    in_pending = ground (arith, get_or_out 0 c s.pending)

    release_child-balance :
        (i : ℕ)
        → bit (started_at s i) + ready_count i s.ready ≡ bit (pending_at s i == 0)
        → bit (started_at (release_child nodes c s) i)
            + ready_count i (release_child nodes c s).ready
          ≡ bit (pending_at (release_child nodes c s) i == 0)
    unfolding release_child
    release_child-balance i b =
        ground
          (arith, release_child-pending i, ready_count-heap_push i (priority_of nodes c) c s.ready)

    release_child-IsBalanced : (n : ℕ) → IsBalanced n s → IsBalanced n (release_child nodes c s)
    unfolding release_child
    release_child-IsBalanced n b = record {
      pending_length =
          ap length pending-release_child
          ∙ length-modify (λ k. k - 1) c s.pending
          ∙ b.pending_length;
      started_length = ap length (release_child-IsFrame c s).started ∙ b.started_length;
      balance = λ i l. release_child-balance i (b.balance i l);
      in_range = λ i l. ground (
        arith,
        b.in_range i l,
        in_pending,
        b.pending_length,
        ready_count-heap_push i (priority_of nodes c) c s.ready,
      );
      is_heap =
          ground (arith, b.is_heap, heap_push-IsHeap (priority_of nodes c, c) s.ready b.is_heap);
    }

IsFrame-trans : {s t u : State} → IsFrame s t → IsFrame t u → IsFrame s u
IsFrame-trans f g = record {
  started = g.started ∙ f.started;
  in_flight = g.in_flight ∙ f.in_flight;
  running = g.running ∙ f.running;
  failed = g.failed ∙ f.failed;
  cancelled = g.cancelled ∙ f.cancelled;
  jobs_run = g.jobs_run ∙ f.jobs_run;
  jobs_skipped = g.jobs_skipped ∙ f.jobs_skipped;
  trace = g.trace ∙ f.trace;
}

-- What releasing each node of a list does, where each waits for at least as many parents as it
-- stands in the list.
pub record Released (n : ℕ) (children : List ℕ) (s s' : State) : Type 0 where
  pub frame : IsFrame s s'
  pub balanced : IsBalanced n s'
  pub pending : (i : ℕ) → pending_at s' i + count i children ≡ pending_at s i

pub release_each-Released :
    (nodes : List DagNode) (n : ℕ) (children : List ℕ) (s : State)
    → ((c : ℕ) → count c children ≤ pending_at s c)
    → IsBalanced n s
    → Released n children s (release_each nodes children s)
unfolding release_each
release_each-Released nodes n [] s waits b = record {
  frame = record {
    started = refl;
    in_flight = refl;
    running = refl;
    failed = refl;
    cancelled = refl;
    jobs_run = refl;
    jobs_skipped = refl;
    trace = refl;
  };
  balanced = b;
  pending = λ i. omega arith;
}
release_each-Released nodes n (c ∷ children) s waits b =
    let first : 0 < pending_at s c = ground (arith, waits c) in
    let s' = release_child nodes c s in
    let fell = release_child-pending nodes c s first in
    let rest =
      release_each-Released nodes n children s' (λ i. omega (arith, waits i, fell i))
        (release_child-IsBalanced nodes c s first n b) in
    record {
      frame = IsFrame-trans (release_child-IsFrame nodes c s) rest.frame;
      balanced = rest.balanced;
      pending = λ i. omega (arith, rest.pending i, fell i);
    }

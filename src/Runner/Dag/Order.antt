-- ===== src/Runner/Dag/Order.antt =====
-- The graph that `build_dag` returns orders every conflict and has no cycle.
use betterhook.Base.{
  ℕ, ◌+◌, ◌<◌, ◌≡◌, ◌≢◌, ◌⊎◌, List, true, none, some, ok, >>=-eq-ok, arith, bit, get_elem?, count,
}
use mathlib.Core.Path.{subst}
use betterhook.Globset.{Globset}
use betterhook.Config.Schema.{Job}
use betterhook.Runner.Dag.{
  DagNode, JobGraph, order_first, first_at, Sets, compile_sets, conflict_at, link_all, new_nodes,
  build_dag,
}
use betterhook.Runner.Dag.Edges.{
  IsGraphOf, precedes, link_all-IsGraphOf, first_at_total, conflict_at_symm,
}
use betterhook.Runner.Dag.Connect.{children_at}

abbrev pub priority_at : List Job → ℕ → ℕ
priority_at jobs i = elim (get_elem? jobs i) [ none ↦ 0 | some j ↦ j.priority ]

-- The order of the scheduler's heap: by priority, then by index.
abbrev pub Before : List Job → ℕ → ℕ → Type 0
Before jobs i j =
    (priority_at jobs i < priority_at jobs j) ⊎ (priority_at jobs i ≡ priority_at jobs j) × (i < j)

-- A graph that `build_dag` returns is made from the compiled sets of the jobs: its nodes hold the
-- jobs in their order, and node `p` lists child `c`, and `c` lists parent `p`, once if the two jobs
-- conflict and `p` is to run first, and never otherwise.
pub build_dag-IsGraphOf :
    (globset : Globset) (jobs : List Job) (g : JobGraph)
    → build_dag globset jobs ≡ ok g
    → (sets : List (Sets globset)) × (compile_sets globset jobs ≡ ok sets)
      × IsGraphOf globset jobs sets g.nodes
unfolding build_dag
build_dag-IsGraphOf globset jobs g h =
    let (sets, e, k) = >>=-eq-ok (compile_sets globset jobs) _ h in
    let same : record { nodes = link_all globset sets (new_nodes 0 jobs) } ≡ g = cc k in
    (
      sets,
      e,
      subst (λ (g' : JobGraph). IsGraphOf globset jobs sets g'.nodes) same
          (link_all-IsGraphOf globset jobs sets),
    )

module _ (globset : Globset) (jobs : List Job) (sets : List (Sets globset)) where
  pub precedes-Before : (p c : ℕ) → precedes globset jobs sets p c ≡ true → Before jobs p c
  unfolding precedes first_at order_first
  precedes-Before p c h = ground arith

  pub precedes_one :
      (i j : ℕ)
      → i ≢ j
      → conflict_at globset jobs sets i j ≡ true
      → bit (precedes globset jobs sets i j) + bit (precedes globset jobs sets j i) ≡ 1
  unfolding precedes
  precedes_one i j d h =
      ground
        (arith, conflict_at_symm globset jobs sets i j, first_at_total globset jobs sets i j d h)

-- In a graph that `build_dag` returns, two different jobs that conflict are joined by exactly one edge: one of the two waits for the other.
pub build_dag-orders_conflicts :
    (globset : Globset) (jobs : List Job) (sets : List (Sets globset)) (g : JobGraph) (i j : ℕ)
    → compile_sets globset jobs ≡ ok sets
    → build_dag globset jobs ≡ ok g
    → i ≢ j
    → conflict_at globset jobs sets i j ≡ true
    → count j (children_at g.nodes i) + count i (children_at g.nodes j) ≡ 1
build_dag-orders_conflicts globset jobs sets g i j compiled built d h =
    let (sets', compiled', graph) = build_dag-IsGraphOf globset jobs g built in
    let same : sets' ≡ sets = cc in
    let one = precedes_one globset jobs sets i j d h in
    let graph' = subst (λ (s : List (Sets globset)). IsGraphOf globset jobs s g.nodes) same graph in
    rw (graph'.children_counted i j, graph'.children_counted j i) one

-- `j` can be reached from `i` along one or more child edges.
pub data Reaches (nodes : List DagNode) (i : ℕ) : ℕ → Type 0 where
  edge : {j : ℕ} → 0 < count j (children_at nodes i) → Reaches nodes i j
  longer : {j k : ℕ} → Reaches nodes i j → 0 < count k (children_at nodes j) → Reaches nodes i k

module _ {globset : Globset} {jobs : List Job} {sets : List (Sets globset)} {nodes : List DagNode}
    (graph : IsGraphOf globset jobs sets nodes) where
  child-Before : (i j : ℕ) → 0 < count j (children_at nodes i) → Before jobs i j
  child-Before i j h =
      precedes-Before globset jobs sets i j (ground (arith, graph.children_counted i j))

  Reaches-Before : (i : ℕ) {j : ℕ} → Reaches nodes i j → Before jobs i j
  Reaches-Before i (edge {j = j} h) = child-Before i j h
  Reaches-Before i (longer {j = j} {k = k} r h) =
      let near = Reaches-Before i r in let far = child-Before j k h in ground arith

-- A graph that `build_dag` returns has no cycle: no node can be reached from itself along child
-- edges.
pub build_dag_acyclic :
    (globset : Globset) (jobs : List Job) (g : JobGraph) (i : ℕ)
    → build_dag globset jobs ≡ ok g
    → ¬ Reaches g.nodes i i
build_dag_acyclic globset jobs g i built r =
    let (_, _, graph) = build_dag-IsGraphOf globset jobs g built in
    let before = Reaches-Before graph i r in ground arith

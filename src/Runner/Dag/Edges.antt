-- ===== src/Runner/Dag/Edges.antt =====
-- The edges that `build_dag` makes: a node lists a child exactly if the two jobs conflict and the
-- node's job comes first, and it lists it once.
use mathlib.Core.Path.{subst}
use betterhook.Base.{
  ℕ, zero, suc, ◌+◌, ◌-◌, ◌<◌, ◌≤◌, ◌≡◌, refl, sym, ap, ◌∙◌, ◌≢◌, ◌⊎◌, inl, inr, List, [], ◌∷◌,
  Bool, true, false, not, ◌&&◌, ◌||◌, Option, none, some, arith, ◌==◌, bit, Bool-cases,
  if◌then◌else◌, length, get_elem?_cases, count, for_range, sum_range, measure-for_range,
  sum_range_single, sum_range-zero,
}
use native.Mathlib.Decide.{dec_lt}
use betterhook.Globset.{Globset}
use betterhook.Config.Schema.{Job}
use betterhook.Runner.Dag.{
  DagNode, add_edge, order_first, first_at, new_nodes, Sets, pair_conflicts, conflict_at, edge_for,
  link_pair, link_row, link_all,
}
use betterhook.Runner.Dag.Connect.{
  children_at, parents_at, jobs_of, hit, jobs_of-connect, length-jobs_of, children_at-connect,
  parents_at-connect,
}

-- Both jobs are there, they conflict, and the first is to run before the second.
module _ (globset : Globset) (jobs : List Job) (sets : List (Sets globset)) where
  unfoldable pub precedes : ℕ → ℕ → Bool
  precedes p c = not (p == c) && conflict_at globset jobs sets p c && first_at jobs p c

  abbrev edge : ℕ → ℕ → Option (ℕ × ℕ)
  edge = edge_for globset jobs sets

  -- A conflict puts both indices in range.
  conflict_at-bounds :
      (a b : ℕ) → conflict_at globset jobs sets a b ≡ true → (a < length jobs) × (b < length jobs)
  unfolding conflict_at
  conflict_at-bounds a b h = ground (arith, get_elem?_cases jobs a, get_elem?_cases jobs b)

  pub conflict_at_symm :
      (a b : ℕ) → conflict_at globset jobs sets a b ≡ conflict_at globset jobs sets b a
  unfolding conflict_at pair_conflicts
  conflict_at_symm a b = ground arith

  -- Of two different jobs in range, exactly one is first.
  pub first_at_total :
      (a b : ℕ)
      → a ≢ b
      → conflict_at globset jobs sets a b ≡ true
      → first_at jobs b a ≡ not (first_at jobs a b)
  unfolding conflict_at first_at order_first
  first_at_total a b d h = ground arith

  hit-edge :
      (a b p c : ℕ)
      → a < b
      → hit (edge a b) p c
        ≡ (if a == p && b == c || (a == c && b == p) then bit (precedes p c) else 0)
  unfolding edge_for precedes
  hit-edge a b p c h = ground (arith, conflict_at_symm a b, first_at_total a b)

  -- What the loops keep, and the two counts that they add to.
  abbrev HasJobs : List DagNode → Type 0
  HasJobs nodes = jobs_of nodes ≡ jobs

  edge_cases : (a b x y : ℕ) → edge a b ≡ some (x, y) → (x < length jobs) × (y < length jobs)
  unfolding edge_for
  edge_cases a b x y h = ground (arith, conflict_at-bounds a b)

  module _ (p c : ℕ) where
    abbrev children_count : List DagNode → ℕ
    children_count nodes = count c (children_at nodes p)

    abbrev parents_count : List DagNode → ℕ
    parents_count nodes = count p (parents_at nodes c)

    -- `after` holds the jobs of `nodes`, and `k` more edges from `p` to `c`.
    abbrev Adds : List DagNode → ℕ → List DagNode → Type 0
    Adds nodes k after =
        HasJobs after
        × (children_count after ≡ children_count nodes + k)
        × (parents_count after ≡ parents_count nodes + k)

    add_edge-Adds :
        (e : Option (ℕ × ℕ)) (nodes : List DagNode)
        → ((x y : ℕ) → e ≡ some (x, y) → (x < length nodes) × (y < length nodes))
        → HasJobs nodes
        → Adds nodes (hit e p c) (add_edge e nodes)
    unfolding add_edge
    add_edge-Adds none nodes h j = (j, omega arith, omega arith)
    add_edge-Adds (some (x, y)) nodes h j = (
      jobs_of-connect x y nodes ∙ j,
      children_at-connect x y nodes p c (h x y refl).0,
      parents_at-connect x y nodes p c (h x y refl).1,
    )

    length-HasJobs : (nodes : List DagNode) → HasJobs nodes → length nodes ≡ length jobs
    length-HasJobs nodes h = omega (arith, length-jobs_of nodes, ap length h)

    link_pair-Adds :
        (a b : ℕ) (nodes : List DagNode)
        → HasJobs nodes
        → Adds nodes (hit (edge a b) p c) (link_pair globset sets a b nodes)
    unfolding link_pair
    link_pair-Adds a b nodes h =
        let same = ap (λ (js : List Job). add_edge (edge_for globset js sets a b) nodes) h in
        let eq = length-HasJobs nodes h in
        subst (Adds nodes (hit (edge a b) p c)) (sym same) (
          add_edge-Adds (edge a b) nodes
            (λ x y e. let (l, r) = edge_cases a b x y e in (omega arith, omega arith)) h)

    for_range-Adds :
        (body : ℕ → List DagNode → List DagNode) (f : ℕ → ℕ) (rounds lo : ℕ) (nodes : List DagNode)
        → ((i : ℕ) (ns : List DagNode)
            → lo ≤ i
            → i < lo + rounds
            → HasJobs ns
            → Adds ns (f i) (body i ns))
        → HasJobs nodes
        → Adds nodes (sum_range rounds lo f) (for_range rounds lo body nodes)
    for_range-Adds body f rounds lo nodes step h =
        let (jobs', ch) =
          measure-for_range HasJobs children_count body f rounds lo (lo + rounds) nodes refl
            (λ i ns l u j. let (a, b, _) = step i ns l u j in (a, b)) h in
        let (_, pa) =
          measure-for_range HasJobs parents_count body f rounds lo (lo + rounds) nodes refl
            (λ i ns l u j. let (a, _, b) = step i ns l u j in (a, b)) h in
        (jobs', ch, pa)

    abbrev row : ℕ → ℕ → ℕ
    row n a = sum_range (n - suc a) (suc a) (λ b. hit (edge a b) p c)

    link_all-Adds :
        (nodes : List DagNode)
        → HasJobs nodes
        → Adds nodes (sum_range (length jobs) 0 (row (length jobs))) (link_all globset sets nodes)
    unfolding link_all link_row
    link_all-Adds nodes h =
        rw (length-HasJobs nodes h, link_all)
          (for_range-Adds (link_row globset sets (length jobs)) (row (length jobs)) (length jobs) 0
            nodes
            (λ a ns _ _ j.
              for_range-Adds (link_pair globset sets a) (λ b. hit (edge a b) p c) _ _ ns
                (λ b ns' _ _ j'. link_pair-Adds a b ns' j') j)
            h)

    sum-rows_none : (n : ℕ) → precedes p c ≡ false → sum_range n 0 (row n) ≡ 0
    sum-rows_none n h = sum_range-zero n 0 (row n) λ a _.
        sum_range-zero (n - suc a) (suc a) (λ b. hit (edge a b) p c)
          (λ b l. ground (arith, hit-edge a b p c l))

    -- The sum of the rows is the one term of the lower index `lo` and the higher one `hi`.
    sum-rows_pair :
        (n lo hi : ℕ)
        → lo < hi
        → hi < n
        → ((a b : ℕ) → a < b → (a ≢ lo) ⊎ (b ≢ hi) → hit (edge a b) p c ≡ 0)
        → sum_range n 0 (row n) ≡ hit (edge lo hi) p c
    sum-rows_pair n lo hi l u other =
        sum_range_single n 0 lo (row n)
          (λ a _ d.
            sum_range-zero (n - suc a) (suc a) (λ b. hit (edge a b) p c)
              (λ b m. other a b m (inl d)))
          (omega arith) (omega arith)
        ∙ sum_range_single (n - suc lo) (suc lo) hi (λ b. hit (edge lo b) p c)
            (λ b m d. other lo b m (inr d)) (omega arith) (omega arith)

    pub precedes-bounds : precedes p c ≡ true → (p < length jobs) × (c < length jobs) × (p ≢ c)
    unfolding precedes
    precedes-bounds h = ground (arith, conflict_at-bounds p c)

    sum-rows_one : precedes p c ≡ true → sum_range (length jobs) 0 (row (length jobs)) ≡ 1
    sum-rows_one h =
        let (l, r, d) = precedes-bounds h in
        elim (dec_lt p c) [
          | yes o ↦
              sum-rows_pair (length jobs) p c o r (λ a b m e. ground (arith, hit-edge a b p c m))
              ∙ ground (arith, hit-edge p c p c o)
          | no o ↦
              let o' : c < p = omega arith in
              sum-rows_pair (length jobs) c p o' l (λ a b m e. ground (arith, hit-edge a b p c m))
              ∙ ground (arith, hit-edge c p p c o')
        ]

    sum-rows : sum_range (length jobs) 0 (row (length jobs)) ≡ bit (precedes p c)
    sum-rows = elim (Bool-cases (precedes p c)) [
      | inl h ↦ rw h (sum-rows_one h)
      | inr h ↦ rw h (sum-rows_none (length jobs) h)
    ]

jobs_of-new_nodes : (index : ℕ) (jobs : List Job) → jobs_of (new_nodes index jobs) ≡ jobs
unfolding new_nodes
jobs_of-new_nodes index [] = refl
jobs_of-new_nodes index (job ∷ jobs) =
    ap (λ (js : List Job). job ∷ js) (jobs_of-new_nodes (suc index) jobs)

new_nodes_bare :
    (index : ℕ) (jobs : List Job) (i : ℕ)
    → (children_at (new_nodes index jobs) i ≡ []) × (parents_at (new_nodes index jobs) i ≡ [])
unfolding new_nodes
new_nodes_bare index [] i = (refl, refl)
new_nodes_bare index (job ∷ jobs) zero = (refl, refl)
new_nodes_bare index (job ∷ jobs) (suc i) = new_nodes_bare (suc index) jobs i

-- The graph of a job list: node `i` holds job `i`; a node lists a child, and the child lists it as
-- a parent, once where `precedes` holds of the two and not at all where it does not.
pub record IsGraphOf (globset : Globset) (jobs : List Job) (sets : List (Sets globset))
    (nodes : List DagNode) : Type 0 where
  pub jobs_kept : jobs_of nodes ≡ jobs
  pub children_counted :
      (p c : ℕ) → count c (children_at nodes p) ≡ bit (precedes globset jobs sets p c)
  pub parents_counted :
      (p c : ℕ) → count p (parents_at nodes c) ≡ bit (precedes globset jobs sets p c)

pub link_all-IsGraphOf :
    (globset : Globset) (jobs : List Job) (sets : List (Sets globset))
    → IsGraphOf globset jobs sets (link_all globset sets (new_nodes 0 jobs))
link_all-IsGraphOf globset jobs sets = record {
  jobs_kept = (all 0 0).0;
  children_counted = λ p c.
      let (_, ch, _) = all p c in
      omega (arith, sum-rows globset jobs sets p c, ap (count c) (new_nodes_bare 0 jobs p).0);
  parents_counted = λ p c.
      let (_, _, pa) = all p c in
      omega (arith, sum-rows globset jobs sets p c, ap (count p) (new_nodes_bare 0 jobs c).1);
}
  where
    all :
        (p c : ℕ)
        → Adds globset jobs sets p c
            (new_nodes 0 jobs)
            (sum_range (length jobs) 0 (row globset jobs sets p c (length jobs)))
            (link_all globset sets (new_nodes 0 jobs))
    all p c = link_all-Adds globset jobs sets p c (new_nodes 0 jobs) (jobs_of-new_nodes 0 jobs)

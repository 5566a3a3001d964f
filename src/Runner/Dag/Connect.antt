-- ===== src/Runner/Dag/Connect.antt =====
-- What one call of `add_edge` does to the children and the parents of every node.
use betterhook.Base.{
  ℕ, zero, suc, ◌+◌, ◌<◌, ◌≡◌, refl, ap, ◌∙◌, List, [], ◌∷◌, ◌++◌, map, ◌&&◌, Option, none, some,
  arith, ◌==◌, bit, length, get_elem?, modify, length-modify, count, count-append,
}
use betterhook.Config.Schema.{Job}
use betterhook.Runner.Dag.{DagNode, connect}

-- `nodes[i].children` and `nodes[i].parents`, empty out of range.
abbrev pub children_at : List DagNode → ℕ → List ℕ
children_at nodes i = elim (get_elem? nodes i) [ none ↦ [] | some n ↦ n.children ]

abbrev pub parents_at : List DagNode → ℕ → List ℕ
parents_at nodes i = elim (get_elem? nodes i) [ none ↦ [] | some n ↦ n.parents ]

abbrev pub jobs_of : List DagNode → List Job
jobs_of nodes = map (λ n. n.job) nodes

-- 1 if an edge goes from `p` to `c`.
abbrev pub hit : Option (ℕ × ℕ) → ℕ → ℕ → ℕ
hit none p c = 0
hit (some (parent, child)) p c = bit (parent == p && child == c)

jobs_of-modify :
    (f : DagNode → DagNode) (i : ℕ) (nodes : List DagNode)
    → ((n : DagNode) → (f n).job ≡ n.job)
    → jobs_of (modify f i nodes) ≡ jobs_of nodes
jobs_of-modify f i [] h = refl
jobs_of-modify f zero (n ∷ nodes) h = ap (λ (j : Job). j ∷ jobs_of nodes) (h n)
jobs_of-modify f (suc i) (n ∷ nodes) h =
    ap (λ (js : List Job). n.job ∷ js) (jobs_of-modify f i nodes h)

pub jobs_of-connect :
    (parent child : ℕ) (nodes : List DagNode) → jobs_of (connect parent child nodes) ≡ jobs_of nodes
unfolding connect
jobs_of-connect parent child nodes = rw jobs_of-modify (jobs_of-modify _ parent nodes (λ n. refl))

pub length-jobs_of : (nodes : List DagNode) → length (jobs_of nodes) ≡ length nodes
length-jobs_of [] = refl
length-jobs_of (n ∷ nodes) = ap suc (length-jobs_of nodes)

abbrev push_child : ℕ → DagNode → DagNode
push_child child n = record n { children = n.children ++ child ∷ [] }

abbrev push_parent : ℕ → DagNode → DagNode
push_parent parent n = record n { parents = n.parents ++ parent ∷ [] }

children_at-push_child :
    (parent child : ℕ) (nodes : List DagNode) (p c : ℕ)
    → parent < length nodes
    → count c (children_at (modify (push_child child) parent nodes) p)
      ≡ count c (children_at nodes p) + hit (some (parent, child)) p c
children_at-push_child parent child [] p c h = absurd (omega arith)
children_at-push_child zero child (n ∷ nodes) zero c h =
    ground (arith, count-append c n.children (child ∷ []))
children_at-push_child zero child (n ∷ nodes) (suc p) c h = ground arith
children_at-push_child (suc parent) child (n ∷ nodes) zero c h = ground arith
children_at-push_child (suc parent) child (n ∷ nodes) (suc p) c h =
    ground (arith, children_at-push_child parent child nodes p c)

parents_at-push_parent :
    (parent child : ℕ) (nodes : List DagNode) (p c : ℕ)
    → child < length nodes
    → count p (parents_at (modify (push_parent parent) child nodes) c)
      ≡ count p (parents_at nodes c) + hit (some (parent, child)) p c
parents_at-push_parent parent child [] p c h = absurd (omega arith)
parents_at-push_parent parent zero (n ∷ nodes) p zero h =
    ground (arith, count-append p n.parents (parent ∷ []))
parents_at-push_parent parent zero (n ∷ nodes) p (suc c) h = ground arith
parents_at-push_parent parent (suc child) (n ∷ nodes) p zero h = ground arith
parents_at-push_parent parent (suc child) (n ∷ nodes) p (suc c) h =
    ground (arith, parents_at-push_parent parent child nodes p c)

children_at-push_parent :
    (parent child : ℕ) (nodes : List DagNode) (p : ℕ)
    → children_at (modify (push_parent parent) child nodes) p ≡ children_at nodes p
children_at-push_parent parent child [] p = refl
children_at-push_parent parent zero (n ∷ nodes) zero = refl
children_at-push_parent parent zero (n ∷ nodes) (suc p) = refl
children_at-push_parent parent (suc child) (n ∷ nodes) zero = refl
children_at-push_parent parent (suc child) (n ∷ nodes) (suc p) =
    children_at-push_parent parent child nodes p

parents_at-push_child :
    (parent child : ℕ) (nodes : List DagNode) (c : ℕ)
    → parents_at (modify (push_child child) parent nodes) c ≡ parents_at nodes c
parents_at-push_child parent child [] c = refl
parents_at-push_child zero child (n ∷ nodes) zero = refl
parents_at-push_child zero child (n ∷ nodes) (suc c) = refl
parents_at-push_child (suc parent) child (n ∷ nodes) zero = refl
parents_at-push_child (suc parent) child (n ∷ nodes) (suc c) =
    parents_at-push_child parent child nodes c

pub children_at-connect :
    (parent child : ℕ) (nodes : List DagNode) (p c : ℕ)
    → parent < length nodes
    → count c (children_at (connect parent child nodes) p)
      ≡ count c (children_at nodes p) + hit (some (parent, child)) p c
unfolding connect
children_at-connect parent child nodes p c h =
    let pushed = modify (push_child child) parent nodes in
    ap (count c) (children_at-push_parent parent child pushed p)
    ∙ children_at-push_child parent child nodes p c h

pub parents_at-connect :
    (parent child : ℕ) (nodes : List DagNode) (p c : ℕ)
    → child < length nodes
    → count p (parents_at (connect parent child nodes) c)
      ≡ count p (parents_at nodes c) + hit (some (parent, child)) p c
unfolding connect
parents_at-connect parent child nodes p c h =
    let pushed = modify (push_child child) parent nodes in
    let fits : child < length pushed =
      omega (arith, length-modify (push_child child) parent nodes) in
    parents_at-push_parent parent child pushed p c fits
    ∙ ap (λ (l : List ℕ). count p l + hit (some (parent, child)) p c)
        (parents_at-push_child parent child nodes c)

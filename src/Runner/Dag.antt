-- ===== src/Runner/Dag.antt =====
-- apps/betterhook/src/runner/dag.rs: the dependency graph of the jobs of a hook.
pub mod Connect
pub mod Edges
pub mod Order
use Prim.Native.Nat.{compare, Ordering}
use Prim.Native.Char.{Char, code}
use Prim.Native.String
use betterhook.Base.{
  ℕ, zero, suc, ◌+◌, ◌-◌, String, List, [], ◌∷◌, ◌++◌, map, Bool, true, false, not, ◌&&◌, ◌||◌,
  Option, none, some, Result, ok, err, ◌>>=◌, map_err, ltb, ◌==◌, if◌then◌else◌, length, get_elem?,
  modify, is_empty, for_range,
}
use betterhook.Globset.{Globset}
use betterhook.Config.Schema.{Job}
use betterhook.Runner.GlobUtil

pub record DagNode : Type 0 where
  pub index : ℕ
  pub job : Job
  pub parents : List ℕ
  pub children : List ℕ

pub record JobGraph : Type 0 where
  pub nodes : List DagNode

-- `DagError::Glob`
pub record DagError (GlobError : Type 0) : Type 0 where
  pub job : String
  pub pattern : String
  pub source : GlobError

roots_from : ℕ → List DagNode → List ℕ
roots_from i [] = []
roots_from i (n ∷ nodes) =
    let rest = roots_from (suc i) nodes in if is_empty n.parents then i ∷ rest else rest

unfoldable pub roots : JobGraph → List ℕ
unfolding roots_from
roots g = roots_from 0 g.nodes

count_children : List DagNode → ℕ
count_children [] = 0
count_children (n ∷ nodes) = length n.children + count_children nodes

unfoldable pub edge_count : JobGraph → ℕ
unfolding count_children
edge_count g = count_children g.nodes

edges_of : List DagNode → List (ℕ × ℕ)
edges_of [] = []
edges_of (n ∷ nodes) = map (λ child. (n.index, child)) n.children ++ edges_of nodes

unfoldable pub edges : JobGraph → List (ℕ × ℕ)
unfolding edges_of
edges g = edges_of g.nodes

-- Returns `true` when `a` should run before `b`.
unfoldable pub order_first : Job → ℕ → Job → ℕ → Bool
order_first a a_idx b b_idx = elim (compare a.priority b.priority) [
  | Ordering.lt ↦ true
  | Ordering.gt ↦ false
  | Ordering.eq ↦ ltb a_idx b_idx
]

abbrev is_star : Char → Bool
is_star c = code c == b'*'

-- `pattern.replace("**", "a/a")`
replace_double_star : String → String
replace_double_star String.[] = String.[]
replace_double_star (String.◌∷◌ c String.[]) = String.◌∷◌ c String.[]
replace_double_star (String.◌∷◌ c (String.◌∷◌ d s)) = elim (is_star c && is_star d) [
  | true ↦ String.◌++◌ "a/a" (replace_double_star s)
  | false ↦ String.◌∷◌ c (replace_double_star (String.◌∷◌ d s))
]

-- `.replace('*', "a")`
replace_star : String → String
replace_star String.[] = String.[]
replace_star (String.◌∷◌ c s) =
    if is_star c then String.◌++◌ "a" (replace_star s) else String.◌∷◌ c (replace_star s)

unfoldable pub probe_filename : String → String
unfolding replace_double_star replace_star
probe_filename pattern = replace_star (replace_double_star pattern)

unfoldable pub new_nodes : ℕ → List Job → List DagNode
new_nodes index [] = []
new_nodes index (job ∷ jobs) =
    record { index = index; job = job; parents = []; children = [] } ∷ new_nodes (suc index) jobs

-- `nodes[parent].children.push(child); nodes[child].parents.push(parent)`
unfoldable pub connect : (parent child : ℕ) → List DagNode → List DagNode
connect parent child nodes =
    modify (λ n. record n { parents = n.parents ++ parent ∷ [] }) child
      (modify (λ n. record n { children = n.children ++ child ∷ [] }) parent nodes)

-- `continue` where there is no conflict.
unfoldable pub add_edge : Option (ℕ × ℕ) → List DagNode → List DagNode
add_edge none nodes = nodes
add_edge (some (parent, child)) nodes = connect parent child nodes

-- `order_first` of the jobs at two indices.
unfoldable pub first_at : List Job → ℕ → ℕ → Bool
first_at jobs a_idx b_idx = elim (get_elem? jobs a_idx) [
  | none ↦ false
  | some a ↦ elim (get_elem? jobs b_idx) [ none ↦ false | some b ↦ order_first a a_idx b b_idx ]
]

module _ (globset : Globset) where
  open globset use {GlobSet, Error, is_match}

  unfoldable pub build_globset : String → List String → Result (DagError Error) (Option GlobSet)
  build_globset job_name patterns =
      map_err
        (λ source. record {
          job = job_name;
          pattern = elim patterns [ [] ↦ "<set>" | pat ∷ _ ↦ pat ];
          source = source;
        })
        (GlobUtil.build_globset globset patterns)

  -- The sets of one job: an entry of `writes_sets` and one of `reads_or_writes_sets`.
  pub record Sets : Type 0 where
    pub writes : Option GlobSet
    pub reads_or_writes : Option GlobSet

  unfoldable pub compile_sets : List Job → Result (DagError Error) (List Sets)
  compile_sets [] = ok []
  compile_sets (job ∷ jobs) = do
    writes ← build_globset job.name job.writes
    combined ← build_globset job.name (job.reads ++ job.writes)
    rest ← compile_sets jobs
    ok (record { writes = writes; reads_or_writes = combined } ∷ rest)

  -- A loop over patterns that returns `true` at the first probe that the set matches.
  unfoldable pub any_probe : GlobSet → List String → Bool
  any_probe set [] = false
  any_probe set (pat ∷ patterns) = is_match set (probe_filename pat) || any_probe set patterns

  unfoldable pub globsets_overlap :
      List String → Option GlobSet → List String → List String → Option GlobSet → Bool
  globsets_overlap writer_patterns none reader_patterns other_writer_patterns other = false
  globsets_overlap writer_patterns (some w) reader_patterns other_writer_patterns other =
      if any_probe w (reader_patterns ++ other_writer_patterns)
      then true
      else elim other [ none ↦ false | some o ↦ any_probe o writer_patterns ]

  unfoldable pub pair_conflicts : Job → Job → Sets → Sets → Bool
  pair_conflicts a b sa sb =
      if a.network && b.network && not (a.concurrent_safe && b.concurrent_safe)
      then true
      else globsets_overlap a.writes sa.writes b.reads b.writes sb.reads_or_writes
        || globsets_overlap b.writes sb.writes a.reads a.writes sa.reads_or_writes

  -- Whether the jobs at two indices conflict; an index out of range has no job.
  unfoldable pub conflict_at : List Job → List Sets → ℕ → ℕ → Bool
  conflict_at jobs sets a_idx b_idx = elim (get_elem? jobs a_idx) [
    | none ↦ false
    | some a ↦ elim (get_elem? jobs b_idx) [
      | none ↦ false
      | some b ↦ elim (get_elem? sets a_idx) [
        | none ↦ false
        | some sa ↦ elim (get_elem? sets b_idx) [
          | none ↦ false
          | some sb ↦ pair_conflicts a b sa sb
        ]
      ]
    ]
  ]

  -- The edge that the body of the two loops adds, as the pair of the parent and the child.
  unfoldable pub edge_for : List Job → List Sets → ℕ → ℕ → Option (ℕ × ℕ)
  edge_for jobs sets a_idx b_idx =
      if conflict_at jobs sets a_idx b_idx
      then some (if first_at jobs a_idx b_idx then (a_idx, b_idx) else (b_idx, a_idx))
      else none

  unfoldable pub link_pair : List Sets → ℕ → ℕ → List DagNode → List DagNode
  link_pair sets a_idx b_idx nodes =
      add_edge (edge_for (map (λ n. n.job) nodes) sets a_idx b_idx) nodes

  -- The inner loop, `for b_idx in (a_idx + 1)..nodes.len()`.
  unfoldable pub link_row : List Sets → ℕ → ℕ → List DagNode → List DagNode
  link_row sets n a_idx = for_range (n - suc a_idx) (suc a_idx) (link_pair sets a_idx)

  -- The outer loop, `for a_idx in 0..nodes.len()`.
  unfoldable pub link_all : List Sets → List DagNode → List DagNode
  link_all sets nodes = for_range (length nodes) 0 (link_row sets (length nodes)) nodes

  unfoldable pub build_dag : List Job → Result (DagError Error) JobGraph
  build_dag jobs = do
    sets ← compile_sets jobs
    ok (record { nodes = link_all sets (new_nodes 0 jobs) })

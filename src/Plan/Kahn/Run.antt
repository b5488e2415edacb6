-- ===== src/Plan/Kahn/Run.antt =====
-- kahnSort as a whole: its maps, the state in which its loop starts and the one in which it ends.
use spexmachina.Prelude.{
  ◌≤◌, String, List, [], ◌∷◌, map, Bool, eq_iff, eq_refl, All, length, length-map, keep, count,
  count-keep, contains, update, sort_strings, count-sort_strings, ℤ, pos, is_zero, ◌≡◌, refl, ◌∙◌,
  ap, arith,
}
use spexmachina.Plan.Types.{Action}
use spexmachina.Plan.Kahn.{Graph, ids, no_edges, link, no_action, by_spec_id, finish, kahn_sort}
use spexmachina.Plan.Kahn.Edges.{
  edges_of, edges, pending, pending-append, children-link, indegree-link,
}
use spexmachina.Plan.Kahn.Loop.{Inv, kahn_loop_ends}

-- Every spec node has one create at most.
abbrev pub IsUnique : List Action → Type 0
IsUnique nodes = (x : String) → count x (ids nodes) ≤ 1

abbrev pub layer_edges : List Action → List (String × String)
layer_edges nodes = edges (contains (ids nodes)) nodes

abbrev pub by_id : List Action → String → Action
by_id nodes = by_spec_id nodes (λ id. no_action)

pending-edges_of :
    (f : String → Bool) (id : String) (deps : List String) (x : String)
    → 1 ≤ pending (edges_of f id deps) [] x
    → id ≡ x
unfolding pending edges_of contains
pending-edges_of f id [] x h = absurd (omega arith)
pending-edges_of f id (d ∷ deps) x h = ground (arith, eq_iff id x, pending-edges_of f id deps x)

-- The dependents that the edges name are nodes.
pub edges_known :
    (f : String → Bool) (ns : List Action) (x : String)
    → 1 ≤ pending (edges f ns) [] x
    → 1 ≤ count x (ids ns)
unfolding edges count pending
edges_known f [] x h = absurd (omega arith)
edges_known f (n ∷ ns) x h = ground (
  arith,
  edges_known f ns x,
  pending-edges_of f n.spec_node_id n.dep_spec_node_ids x,
  eq_iff n.spec_node_id x,
  pending-append (edges_of f n.spec_node_id n.dep_spec_node_ids) (edges f ns) [] x,
)

by_spec_id_absent :
    (ns : List Action) (m : String → Action) (k : String)
    → count k (ids ns) ≡ 0
    → by_spec_id ns m k ≡ m k
unfolding by_spec_id count
by_spec_id_absent [] m k h = refl
by_spec_id_absent (n ∷ ns) m k h =
    ground (arith, by_spec_id_absent ns (update m n.spec_node_id n) k)

-- The map answers each node's id with that node.
pub by_spec_id_lem :
    (ns : List Action) (m : String → Action)
    → ((x : String) → count x (ids ns) ≤ 1)
    → All (λ n. by_spec_id ns m n.spec_node_id ≡ n) ns
unfolding by_spec_id count
by_spec_id_lem [] m unique = tt
by_spec_id_lem (n ∷ ns) m unique = (
  ground (
    arith,
    eq_refl n.spec_node_id,
    unique n.spec_node_id,
    by_spec_id_absent ns (update m n.spec_node_id n) n.spec_node_id,
  ),
  by_spec_id_lem ns (update m n.spec_node_id n) (λ x. ground (arith, unique x)),
)

module _ (nodes : List Action) (unique : IsUnique nodes) where
  abbrev graph : Graph
  graph = link (contains (ids nodes)) nodes no_edges

  degree : (x : String) → graph.indegree x ≡ pos (pending (layer_edges nodes) [] x)
  degree x = indegree-link (contains (ids nodes)) nodes no_edges x 0 refl ∙ ap pos (omega arith)

  start :
      Inv
        (layer_edges nodes)
        (ids nodes)
        graph.indegree
        (sort_strings (keep (λ id. is_zero (graph.indegree id)) (ids nodes)))
        []
  start = record {
    degrees = degree;
    shares = λ x. unfold count in rw (count-sort_strings, count-keep) (ground (arith, degree x));
    ordered = tt;
  }

  -- The loop ends with no id ready, and `finish` decides.
  pub kahn_run :
      (ind : String → ℤ) × (placed : List String) × (kahn_sort nodes
        ≡ finish nodes (ind, map (by_id nodes) placed))
      × Inv (layer_edges nodes) (ids nodes) ind [] placed
  unfolding kahn_sort
  kahn_run =
      let (ind, placed, e, inv) =
        kahn_loop_ends (layer_edges nodes) (ids nodes) unique
          (edges_known (contains (ids nodes)) nodes) graph.children
          (children-link (contains (ids nodes)) nodes no_edges) (by_id nodes) (length nodes)
          graph.indegree (sort_strings (keep (λ id. is_zero (graph.indegree id)) (ids nodes))) []
          start (omega (arith, length-map (λ (a : Action). a.spec_node_id) nodes)) in
      (ind, placed, rw (e, kahn_sort), inv)

-- ===== src/Plan/Kahn.antt =====
-- kahnSort of plan/sorter.go: one layer's creates in dependency order, by Kahn's algorithm with
-- the lexicographically smallest ready id first. The Go maps `inLayer`, `children`, `indegree`
-- and `bySpecID` are read by key alone and are functions here.
mod Edges
mod Release
mod Loop
pub mod Run
pub mod Cycle
pub mod Order
use spexmachina.Prelude.{
  ℕ, zero, suc, String, List, [], ◌∷◌, ◌++◌, map, Bool, if◌then◌else◌, length, keep, contains,
  update, str_lt, insert_by, sort_strings, ℤ, pos, inc, dec, is_zero, is_pos, Result, ok, err,
  nat_eq,
}
use spexmachina.Plan.Types.{Action}

-- The three refusals of Sort, and the exhausted bound of the model's loop.
pub data SortError : Type 0 where
  no_layer : (spec_node_id node_type : String) → SortError
  later_layer : List String → SortError
  cycle : List String → SortError
  out_of_fuel : SortError

abbrev pub ids : List Action → List String
ids nodes = map (λ a. a.spec_node_id) nodes

pub record Graph : Type 0 where
  pub children : String → List String
  pub indegree : String → ℤ

abbrev pub no_edges : Graph
no_edges = record { children = λ k. []; indegree = λ k. pos 0 }

-- children[dep] = append(children[dep], id); indegree[id]++
abbrev pub add_edge : String → String → Graph → Graph
add_edge dep id g = record {
  children = update g.children dep (g.children dep ++ id ∷ []);
  indegree = update g.indegree id (inc (g.indegree id));
}

unfoldable pub link_deps : (String → Bool) → String → List String → Graph → Graph
link_deps in_layer id [] g = g
link_deps in_layer id (dep ∷ deps) g =
    link_deps in_layer id deps (if in_layer dep then add_edge dep id g else g)

unfoldable pub link : (String → Bool) → List Action → Graph → Graph
unfolding link_deps
link in_layer [] g = g
link in_layer (n ∷ ns) g =
    link in_layer ns (link_deps in_layer n.spec_node_id n.dep_spec_node_ids g)

-- The value that Go reads for an id that the map does not hold.
abbrev pub no_action : Action
no_action = record {
  type = "";
  task_id = "";
  module_name = "";
  node = "";
  node_type = "";
  spec_node_id = "";
  spec_hash = "";
  dep_spec_node_ids = [];
  change_type = "";
  reason = "";
}

unfoldable pub by_spec_id : List Action → (String → Action) → String → Action
by_spec_id [] m = m
by_spec_id (n ∷ ns) m = by_spec_id ns (update m n.spec_node_id n)

-- The inner loop over the dependents of the id that was taken.
unfoldable pub release : List String → (String → ℤ) → List String → (String → ℤ) × List String
unfolding insert_by str_lt
release [] indegree ready = (indegree, ready)
release (child ∷ rest) indegree ready =
    release rest (update indegree child (dec (indegree child)))
      (if is_zero (dec (indegree child)) then insert_by str_lt child ready else ready)

-- `for len(ready) > 0`, with the counters and the order at its end.
unfoldable pub kahn_loop :
    ℕ
    → (String → List String)
    → (String → Action)
    → (String → ℤ)
    → List String
    → List Action
    → Result SortError ((String → ℤ) × List Action)
unfolding release
kahn_loop fuel children by_id indegree [] order = ok (indegree, order)
kahn_loop zero children by_id indegree (next ∷ ready) order = err out_of_fuel
kahn_loop (suc fuel) children by_id indegree (next ∷ ready) order =
    let (indegree', ready') = release (children next) indegree ready in
    kahn_loop fuel children by_id indegree' ready' (order ++ by_id next ∷ [])

-- The keys of a map that was filled from these ids.
unfoldable pub keys : List String → List String
unfolding contains
keys [] = []
keys (x ∷ xs) = let rest = keys xs in if contains xs x then rest else x ∷ rest

-- `if len(order) != len(nodes)`
unfoldable pub finish : List Action → (String → ℤ) × List Action → Result SortError (List Action)
unfolding keys sort_strings
finish nodes (indegree, order) =
    if nat_eq (length order) (length nodes)
    then ok order
    else err (cycle (sort_strings (keep (λ id. is_pos (indegree id)) (keys (ids nodes)))))

unfoldable pub kahn_sort : List Action → Result SortError (List Action)
unfolding link by_spec_id kahn_loop finish sort_strings
kahn_sort nodes =
    let g = link (contains (ids nodes)) nodes no_edges in
    let ready = sort_strings (keep (λ id. is_zero (g.indegree id)) (ids nodes)) in
    let by_id = by_spec_id nodes (λ id. no_action) in
    elim (kahn_loop (length nodes) g.children by_id g.indegree ready []) [
      | ok end ↦ finish nodes end
      | err e ↦ err e
    ]

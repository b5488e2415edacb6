-- ===== src/Validator/Dag.antt =====
-- The cycle checks of validator/dag_checker.go, on the parsed project, modules and profile.
pub mod Paint
pub mod Trail
pub mod Order
pub mod Dive
pub mod Total
pub mod Closed
pub mod Cycles
pub mod Check
pub mod Extra
pub mod Whole
pub mod Decide
pub mod Verdict
mod Samples
use spexmachina.Prelude.{
  String, ℕ, zero, suc, List, [], ◌∷◌, ◌++◌, map, Option, none, some, ◌==◌, if◌then◌else◌, fetch,
  store, sort_strings, length,
}

pub data Color : Type 0 where
  white : Color
  gray : Color
  black : Color

-- The adjacency map; a missing key reads as the nil slice.
abbrev pub Adjacency : Type 0
Adjacency = List (String × List String)

unfoldable pub neighbors : Adjacency → String → List String
neighbors adj node = elim (fetch adj node) [ none ↦ [] | some ts ↦ ts ]

abbrev pub graph_keys : Adjacency → List String
graph_keys adj = map (λ (e : String × List String). e.0) adj

-- The variables that the closure `dfs` shares; colors and parents are read by key alone.
pub record Search : Type 0 where
  pub color : String → Color
  pub parent : String → String
  pub cycles : List (List String)

abbrev pub paint : Color → String → Search → Search
paint c node s = record s { color = λ x. if node == x then c else s.color x }

abbrev pub set_parent : String → String → Search → Search
set_parent child node s = record s { parent = λ x. if child == x then node else s.parent x }

abbrev pub reverse_onto : List String → List String → List String
reverse_onto [] acc = acc
reverse_onto (x ∷ xs) acc = reverse_onto xs (x ∷ acc)

-- `for n := node; n != neighbor; n = parent[n]`
unfoldable pub path_back : ℕ → (String → String) → String → String → Option (List String)
path_back zero parent n neighbor = if n == neighbor then some [] else none
path_back (suc fuel) parent n neighbor =
    let rest = path_back fuel parent (parent n) neighbor in
    if n == neighbor then some [] else elim rest [ none ↦ none | some path ↦ some (n ∷ path) ]

-- The path with the neighbor at both ends, in the order of the edges.
abbrev pub close_path : String → List String → List String
close_path neighbor path = reverse_onto (path ++ neighbor ∷ []) [] ++ neighbor ∷ []

-- The case of a gray neighbor.
unfoldable pub report : ℕ → String → String → Search → Option Search
unfolding path_back
report bound node neighbor s = elim (path_back bound s.parent node neighbor) [
  | none ↦ none
  | some path ↦ some (record s { cycles = s.cycles ++ close_path neighbor path ∷ [] })
]

-- The body of the loop over the neighbors, where `below` is dfs.
unfoldable pub visit :
    (String → Search → Option Search) → ℕ → String → String → Search → Option Search
unfolding report
visit below bound node neighbor s = elim (s.color neighbor) [
  | white ↦ below neighbor (set_parent neighbor node s)
  | gray ↦ report bound node neighbor s
  | black ↦ some s
]

unfoldable pub visit_all :
    (String → Search → Option Search) → ℕ → String → List String → Search → Option Search
unfolding visit
visit_all below bound node [] s = some s
visit_all below bound node (neighbor ∷ ns) s = elim (visit below bound node neighbor s) [
  | none ↦ none
  | some s' ↦ visit_all below bound node ns s'
]

unfoldable pub dfs : Adjacency → ℕ → ℕ → String → Search → Option Search
unfolding visit_all neighbors
dfs adj bound zero node s = none
dfs adj bound (suc fuel) node s =
    elim (visit_all (dfs adj bound fuel) bound node (neighbors adj node) (paint gray node s)) [
      | none ↦ none
      | some s' ↦ some (paint black node s')
    ]

-- `for _, node := range graph_keys`
unfoldable pub search_all : Adjacency → ℕ → List String → Search → Option Search
unfolding dfs
search_all adj bound [] s = some s
search_all adj bound (node ∷ nodes) s = elim (s.color node) [
  | white ↦ elim (dfs adj bound bound node s) [
    | none ↦ none
    | some s' ↦ search_all adj bound nodes s'
  ]
  | gray ↦ search_all adj bound nodes s
  | black ↦ search_all adj bound nodes s
]

-- Every node that the map names: the fuel of the search.
abbrev pub mentions : Adjacency → List String
mentions [] = []
mentions (entry ∷ adj) = entry.0 ∷ entry.1 ++ mentions adj

abbrev pub no_search : Search
no_search = record { color = λ x. white; parent = λ x. ""; cycles = [] }

unfoldable pub detect_string_cycles : Adjacency → Option (List (List String))
unfolding search_all sort_strings
detect_string_cycles adj =
    elim (search_all adj (length (mentions adj)) (sort_strings (graph_keys adj)) no_search) [
      | none ↦ none
      | some s ↦ some s.cycles
    ]

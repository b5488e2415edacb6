-- ===== src/Plan/Kahn/Edges.antt =====
-- The graph that kahnSort builds, as the list of its edges: (dep, dependent), in file order.
use mathlib.Core.List.{append_assoc, append-nil}
use spexmachina.Prelude.{
  ℕ, suc, ◌+◌, ◌≤◌, String, List, [], ◌∷◌, ◌++◌, Bool, true, false, ◌&&◌, ◌==◌, eq_iff, not,
  if◌then◌else◌, contains, count, pos, ◌≡◌, refl, ◌∙◌, sym, ap, arith, Bool-cases, inl, inr,
}
use spexmachina.Plan.Types.{Action}
use spexmachina.Plan.Kahn.{Graph, add_edge, link_deps, link}

-- The edges of one node: one for each dep that lies in the layer.
unfoldable pub edges_of : (String → Bool) → String → List String → List (String × String)
edges_of in_layer id [] = []
edges_of in_layer id (dep ∷ deps) =
    let rest = edges_of in_layer id deps in if in_layer dep then (dep, id) ∷ rest else rest

unfoldable pub edges : (String → Bool) → List Action → List (String × String)
edges in_layer [] = []
edges in_layer (n ∷ ns) = edges_of in_layer n.spec_node_id n.dep_spec_node_ids ++ edges in_layer ns

-- The dependents of `k`.
unfoldable pub targets : String → List (String × String) → List String
targets k [] = []
targets k ((j, x) ∷ es) = let rest = targets k es in if j == k then x ∷ rest else rest

-- How many edges into `x` come from a node that is not in `placed`.
unfoldable pub pending : List (String × String) → List String → String → ℕ
pending [] placed x = 0
pending ((j, y) ∷ es) placed x =
    (if (y == x) && not (contains placed j) then 1 else 0) + pending es placed x

targets-append :
    (k : String) (es fs : List (String × String))
    → targets k (es ++ fs) ≡ targets k es ++ targets k fs
unfolding targets
targets-append k [] fs = refl
targets-append k ((j, x) ∷ es) fs = ground (arith, targets-append k es fs)

pub pending-append :
    (es fs : List (String × String)) (placed : List String) (x : String)
    → pending (es ++ fs) placed x ≡ pending es placed x + pending fs placed x
unfolding pending
pending-append [] fs placed x = omega arith
pending-append ((j, y) ∷ es) fs placed x = omega (arith, pending-append es fs placed x)

children-add_edge :
    (dep id : String) (g : Graph) (k : String) (es : List (String × String))
    → (add_edge dep id g).children k ++ targets k es ≡ g.children k ++ targets k ((dep, id) ∷ es)
unfolding targets
children-add_edge dep id g k es = elim (Bool-cases (dep == k)) [
  | inl same ↦
      rw same (cc ((eq_iff dep k).0 same, append_assoc (g.children k) (id ∷ []) (targets k es)))
  | inr other ↦ rw other
]

module _ (in_layer : String → Bool) where
  children-link_deps :
      (id : String) (deps : List String) (g : Graph) (k : String)
      → (link_deps in_layer id deps g).children k
        ≡ g.children k ++ targets k (edges_of in_layer id deps)
  unfolding link_deps edges_of targets
  children-link_deps id [] g k = sym (append-nil _)
  children-link_deps id (dep ∷ deps) g k = elim (Bool-cases (in_layer dep)) [
    | inl here ↦
        rw (here, link_deps)
          (children-link_deps id deps (add_edge dep id g) k
            ∙ children-add_edge dep id g k (edges_of in_layer id deps))
    | inr away ↦ rw (away, link_deps) (children-link_deps id deps g k)
  ]

  pub children-link :
      (ns : List Action) (g : Graph) (k : String)
      → (link in_layer ns g).children k ≡ g.children k ++ targets k (edges in_layer ns)
  unfolding link edges
  children-link [] g k = unfold targets in sym (append-nil _)
  children-link (n ∷ ns) g k =
      children-link ns (link_deps in_layer n.spec_node_id n.dep_spec_node_ids g) k
      ∙ simp (children-link_deps, targets-append, append_assoc)

  indegree-link_deps :
      (id : String) (deps : List String) (g : Graph) (x : String) (m : ℕ)
      → g.indegree x ≡ pos m
      → (link_deps in_layer id deps g).indegree x
        ≡ pos (m + pending (edges_of in_layer id deps) [] x)
  unfolding link_deps edges_of pending contains
  indegree-link_deps id [] g x m h = ground arith
  indegree-link_deps id (dep ∷ deps) g x m h = elim (Bool-cases (in_layer dep)) [
    | inl here ↦ elim (Bool-cases (id == x)) [
      | inl same ↦
          rw (here, same, link_deps)
            (indegree-link_deps id deps (add_edge dep id g) x (suc m) (ground (arith, eq_iff id x))
              ∙ ap pos (omega arith))
      | inr other ↦
          rw (here, other, link_deps)
            (indegree-link_deps id deps (add_edge dep id g) x m (ground (arith, eq_iff id x))
              ∙ ap pos (omega arith))
    ]
    | inr away ↦ rw (away, link_deps) (indegree-link_deps id deps g x m h)
  ]

  pub indegree-link :
      (ns : List Action) (g : Graph) (x : String) (m : ℕ)
      → g.indegree x ≡ pos m
      → (link in_layer ns g).indegree x ≡ pos (m + pending (edges in_layer ns) [] x)
  unfolding link edges
  indegree-link [] g x m h = unfold pending in ground arith
  indegree-link (n ∷ ns) g x m h =
      let es = edges_of in_layer n.spec_node_id n.dep_spec_node_ids in
      indegree-link ns (link_deps in_layer n.spec_node_id n.dep_spec_node_ids g) x
        (m + pending es [] x) (indegree-link_deps n.spec_node_id n.dep_spec_node_ids g x m h)
      ∙ ap pos (omega (arith, pending-append es (edges in_layer ns) [] x))

contains-append_one :
    (xs : List String) (k j : String)
    → contains (xs ++ k ∷ []) j ≡ (if k == j then true else contains xs j)
unfolding contains
contains-append_one [] k j = ground arith
contains-append_one (x ∷ xs) k j = ground (arith, contains-append_one xs k j)

-- Placing a new node releases one pending edge of each of its dependents.
pub pending-place :
    (es : List (String × String)) (placed : List String) (k x : String)
    → contains placed k ≡ false
    → pending es (placed ++ k ∷ []) x + count x (targets k es) ≡ pending es placed x
unfolding pending targets count
pending-place [] placed k x new = omega arith
pending-place ((j, y) ∷ es) placed k x new =
    ground (
      arith,
      pending-place es placed k x new,
      contains-append_one placed k j,
      eq_iff k j,
      eq_iff j k,
    )

pub pending-le :
    (es : List (String × String)) (placed : List String) (x : String)
    → pending es placed x ≤ pending es [] x
unfolding pending contains
pending-le [] placed x = omega arith
pending-le ((j, y) ∷ es) placed x = ground (arith, pending-le es placed x)

-- ===== src/Plan/Classifier/Walk.antt =====
-- The loop of collectDeps over the required modules: it ends, with the fuel that collect_deps gives it.
use spexmachina.Prelude.{
  String, ℕ, zero, suc, ◌+◌, ◌≤◌, false, List, [], ◌∷◌, ◌++◌, some, eq_iff, if◌then◌else◌, length,
  length-append, fetch, contains, arith, ◌≡◌, refl, Bool-cases, Option-cases, inl, inr,
}
use spexmachina.Schema.Profile.{append_new}
use spexmachina.Plan.Graph.{SpecGraph, ModuleEntry, module_by_id}
use spexmachina.Plan.Classifier.Deps.{walk, edge_count, component_ids}

-- The edges of the modules that are not visited yet.
unvisited : List (String × ModuleEntry) → List String → ℕ
unvisited [] visited = 0
unvisited (entry ∷ modules) visited =
    (if contains visited entry.0 then 0 else length entry.1.module_decl.requires_module)
    + unvisited modules visited

unvisited_le :
    (modules : List (String × ModuleEntry)) (visited : List String) (id : String)
    → unvisited modules (id ∷ visited) ≤ unvisited modules visited
unfolding unvisited contains
unvisited_le [] visited id = omega arith
unvisited_le (entry ∷ modules) visited id = ground (arith, unvisited_le modules visited id)

unvisited_visit :
    (modules : List (String × ModuleEntry)) (visited : List String) (id : String)
    (entry : ModuleEntry)
    → contains visited id ≡ false
    → fetch modules id ≡ some entry
    → unvisited modules (id ∷ visited) + length entry.module_decl.requires_module
      ≤ unvisited modules visited
unfolding unvisited contains fetch
unvisited_visit [] visited id entry new e = ground arith
unvisited_visit (m ∷ modules) visited id entry new e = ground (
  arith,
  unvisited_visit modules visited id entry new,
  unvisited_le modules visited id,
  eq_iff m.0 id,
  eq_iff id m.0,
)

edge_count-unvisited :
    (modules : List (String × ModuleEntry)) (visited : List String)
    → unvisited modules visited ≤ edge_count modules
unfolding unvisited
edge_count-unvisited [] visited = omega arith
edge_count-unvisited (entry ∷ modules) visited =
    ground (arith, edge_count-unvisited modules visited)

walk_ends :
    (fuel : ℕ) (queue visited deps : List String) (graph : SpecGraph)
    → length queue + unvisited graph.by_id visited ≤ fuel
    → (found : List String) × (walk fuel queue visited deps graph ≡ some found)
unfolding walk
walk_ends fuel [] visited deps graph h = (deps, refl)
walk_ends zero (id ∷ queue) visited deps graph h = ground (arith, h)
walk_ends (suc fuel) (id ∷ queue) visited deps graph h = elim (Bool-cases (contains visited id)) [
  | inl old ↦ rw (old, walk) (walk_ends fuel queue visited deps graph (omega (arith, h)))
  | inr new ↦ elim (Option-cases (module_by_id graph id)) [
    | inl e ↦
        rw (new, e, walk)
          (walk_ends fuel queue (id ∷ visited) deps graph
            (omega (arith, h, unvisited_le graph.by_id visited id)))
    | inr (entry, e) ↦
        rw (new, e, walk)
          (walk_ends fuel (queue ++ entry.module_decl.requires_module) (id ∷ visited)
            (append_new deps (component_ids entry)) graph
            (omega (
              arith,
              h,
              unvisited_visit graph.by_id visited id entry new e,
              length-append queue entry.module_decl.requires_module,
            )))
  ]
]

-- The loop over the required modules ends within the fuel that it is given, whatever the graph, its
-- cycles and unknown ids included: it empties the queue.
pub walk_total :
    (entry : ModuleEntry) (visited deps : List String) (graph : SpecGraph)
    → (found : List String) × (walk
          (length entry.module_decl.requires_module + edge_count graph.by_id)
          entry.module_decl.requires_module
          visited
          deps
          graph
        ≡ some found)
walk_total entry visited deps graph =
    walk_ends _ entry.module_decl.requires_module visited deps graph
      (omega (arith, edge_count-unvisited graph.by_id visited))

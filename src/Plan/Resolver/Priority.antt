-- ===== src/Plan/Resolver/Priority.antt =====
-- The priority of a component: the least one that its requirements lead to.
use mathlib.Core.Bool.{◌||◌}
use spexmachina.Prelude.{
  String, ℕ, ◌≤◌, Bool, true, false, if◌then◌else◌, List, [], ◌∷◌, none, some, All, ltb, nat_eq,
  arith, ◌≡◌, refl, ap, ◌∙◌, sym, subst, Option-cases, inl, inr,
}
use spexmachina.Schema.Spec.{Component, ModuleSpec}
use spexmachina.Plan.Graph.{SpecGraph, ModuleEntry, module_by_name, find_component}
use spexmachina.Plan.Resolver.{
  lower, priority_of, best_priority, or_fallback, resolve_priority, fallback_priority,
}

-- The priorities that the requirements of `implements` lead to.
abbrev pub priorities : ModuleSpec → SpecGraph → List String → List ℕ
priorities spec graph [] = []
priorities spec graph (r ∷ rs) =
    let rest = priorities spec graph rs in
    elim (priority_of spec graph r) [ none ↦ rest | some p ↦ p ∷ rest ]

abbrev pub contains_nat : List ℕ → ℕ → Bool
contains_nat [] n = false
contains_nat (x ∷ xs) n = nat_eq x n || contains_nat xs n

-- The least number of a list, and the fallback for an empty list.
abbrev pub IsLeast : List ℕ → ℕ → Type 0
IsLeast [] n = n ≡ fallback_priority
IsLeast (p ∷ ps) n = (contains_nat (p ∷ ps) n ≡ true) × All (λ q. n ≤ q) (p ∷ ps)

-- The loop over the priorities alone.
lower_all : ℕ → List ℕ → ℕ
lower_all best [] = best
lower_all best (p ∷ ps) = lower_all (if ltb p best then p else best) ps

lower_all_le :
    (best : ℕ) (ps : List ℕ) → (lower_all best ps ≤ best) × All (λ q. lower_all best ps ≤ q) ps
unfolding lower_all
lower_all_le best [] = (omega arith, tt)
lower_all_le best (p ∷ ps) =
    let (below, all) = lower_all_le (if ltb p best then p else best) ps in
    (ground (arith, below), (ground (arith, below), all))

lower_all_mem : (best : ℕ) (ps : List ℕ) → contains_nat (best ∷ ps) (lower_all best ps) ≡ true
unfolding lower_all
lower_all_mem best [] = ground arith
lower_all_mem best (p ∷ ps) = ground (arith, lower_all_mem (if ltb p best then p else best) ps)

lower-some : (best p : ℕ) → lower (some best) p ≡ some (if ltb p best then p else best)
lower-some best p = ground arith

best_some :
    (best : ℕ) (rs : List String) (spec : ModuleSpec) (graph : SpecGraph)
    → best_priority (some best) rs spec graph ≡ some (lower_all best (priorities spec graph rs))
unfolding best_priority lower_all
best_some best [] spec graph = refl
best_some best (r ∷ rs) spec graph = elim (Option-cases (priority_of spec graph r)) [
  | inl e ↦ rw (e, priorities) (best_some best rs spec graph)
  | inr (p, e) ↦
      rw (e, priorities)
        (ap (λ o. best_priority o rs spec graph) (lower-some best p)
          ∙ best_some (if ltb p best then p else best) rs spec graph)
]

best_first-IsLeast :
    (p : ℕ) (rs : List String) (spec : ModuleSpec) (graph : SpecGraph)
    → IsLeast (p ∷ priorities spec graph rs) (or_fallback (best_priority (some p) rs spec graph))
best_first-IsLeast p rs spec graph =
    let ps = priorities spec graph rs in
    subst (λ o. IsLeast (p ∷ ps) (or_fallback o)) (sym (best_some p rs spec graph))
      (lower_all_mem p ps, lower_all_le p ps)

best_IsLeast :
    (rs : List String) (spec : ModuleSpec) (graph : SpecGraph)
    → IsLeast (priorities spec graph rs) (or_fallback (best_priority none rs spec graph))
unfolding best_priority
best_IsLeast [] spec graph = refl
best_IsLeast (r ∷ rs) spec graph = elim (Option-cases (priority_of spec graph r)) [
  | inl e ↦ rw (e, priorities) (best_IsLeast rs spec graph)
  | inr (p, e) ↦ rw (e, priorities) (best_first-IsLeast p rs spec graph)
]

-- For a component that the graph finds in the module, ResolvePriority is the least of the priorities
-- that the requirements it implements lead to, and the fallback if they lead to none.
pub resolve_priority-IsLeast :
    (module_name id : String) (graph : SpecGraph) (entry : ModuleEntry) (comp : Component)
    → module_by_name graph module_name ≡ some entry
    → find_component entry.spec id ≡ some comp
    → IsLeast (priorities entry.spec graph comp.implements) (resolve_priority module_name id graph)
unfolding resolve_priority
resolve_priority-IsLeast module_name id graph entry comp e f =
    rw (e, f, resolve_priority) (best_IsLeast comp.implements entry.spec graph)

-- ===== src/Plan/Classifier/AddOn.antt =====
-- The data-flow add-on: which components gain a dep on a changed data flow.
use mathlib.Core.List.{Forall₂}
use spexmachina.Prelude.{
  contains-append, contains-sort_strings, String, Bool, false, ◌&&◌, ◌||◌, List, [], ◌∷◌, ◌++◌, map,
  Option, none, some, ◌==◌, eq_iff, eq_refl, if◌then◌else◌, contains, fetch, store, fetch-store,
  arith, ◌≡◌, refl, not, ap, ◌∙◌, Bool-cases, Option-cases, inl, inr,
}
use spexmachina.Merkle.Impact.{ClassifiedChange}
use spexmachina.Schema.Profile.{append_new}
use spexmachina.Plan.Types.{Action, action_create}
use spexmachina.Plan.Graph.{SpecGraph, module_by_name, find_data_flow}
use spexmachina.Plan.Matcher.{Match, Unmatched}
use spexmachina.Plan.Classifier.Deps.{
  add_on, flows_of, add_uses, add_flow, add_flows, changed_data_flow_uses, with_deps,
  apply_data_flow_add_on,
}

pub contains-append_new :
    (xs ys : List String) (x : String)
    → contains (append_new xs ys) x ≡ (contains xs x || contains ys x)
unfolding append_new contains
contains-append_new xs [] x = ground arith
contains-append_new xs (y ∷ ys) x = ground (
  arith,
  contains-append_new (if contains xs y then xs else xs ++ y ∷ []) ys x,
  contains-append xs (y ∷ []) x,
  eq_iff y x,
)

-- The deps of an action after the add-on are its own and the flows.
contains-add_on :
    (a : Action) (flows : List String) (x : String)
    → contains (add_on a flows).dep_spec_node_ids x
      ≡ (contains a.dep_spec_node_ids x || contains flows x)
unfolding add_on contains
contains-add_on a [] x = ground arith
contains-add_on a (f ∷ flows) x =
    contains-sort_strings (append_new (append_new [] a.dep_spec_node_ids) (f ∷ flows)) x
    ∙ contains-append_new (append_new [] a.dep_spec_node_ids) (f ∷ flows) x
    ∙ ap (λ b. b || contains (f ∷ flows) x) (contains-append_new [] a.dep_spec_node_ids x)

abbrev pub changes_of : List Match → List Unmatched → List ClassifiedChange
changes_of matches unmatched =
    map (λ (m : Match). m.change) matches ++ map (λ (u : Unmatched). u.change) unmatched

-- The flows of a lookup.
abbrev or_none : Option (List String) → List String
or_none none = []
or_none (some flows) = flows

-- Whether the change is a data flow with the given id that the graph says the component is used by.
abbrev pub names_component : SpecGraph → String → String → ClassifiedChange → Bool
names_component graph comp_id flow change =
    (change.change.key == flow)
    && (if change.change.node_type == "data_flow"
        then elim (module_by_name graph change.module_name) [
          | none ↦ false
          | some entry ↦ elim (find_data_flow entry.spec change.change.key) [
            | none ↦ false
            | some df ↦ contains df.uses comp_id
          ]
        ]
        else false)

unfoldable pub names_any : SpecGraph → String → String → List ClassifiedChange → Bool
names_any graph comp_id flow [] = false
names_any graph comp_id flow (c ∷ changes) =
    names_component graph comp_id flow c || names_any graph comp_id flow changes

flows_of-store :
    (result : List (String × List String)) (u flow comp_id x : String)
    → contains (flows_of (store result u (flows_of result u ++ flow ∷ [])) comp_id) x
      ≡ (contains (flows_of result comp_id) x || ((u == comp_id) && (flow == x)))
unfolding contains
flows_of-store result u flow comp_id x = elim (Bool-cases (u == comp_id)) [
  | inl e ↦
      ap (λ o. contains (or_none o) x)
        (fetch-store result u (flows_of result u ++ flow ∷ []) comp_id)
      ∙ rw ((eq_iff u comp_id).0 e, eq_refl comp_id)
          (ground (arith, contains-append (flows_of result comp_id) (flow ∷ []) x))
  | inr e ↦
      ap (λ o. contains (or_none o) x)
        (fetch-store result u (flows_of result u ++ flow ∷ []) comp_id)
      ∙ rw e (ground arith)
]

add_uses-flows :
    (uses : List String) (flow : String) (result : List (String × List String)) (comp_id x : String)
    → contains (flows_of (add_uses uses flow result) comp_id) x
      ≡ (contains (flows_of result comp_id) x || (contains uses comp_id && (flow == x)))
unfolding add_uses contains
add_uses-flows [] flow result comp_id x = ground arith
add_uses-flows (u ∷ uses) flow result comp_id x =
    add_uses-flows uses flow (store result u (flows_of result u ++ flow ∷ [])) comp_id x
    ∙ ap (λ b. b || (contains uses comp_id && (flow == x))) (flows_of-store result u flow comp_id x)
    ∙ ground arith

add_flow-flows :
    (c : ClassifiedChange) (graph : SpecGraph) (result : List (String × List String))
    (comp_id x : String)
    → contains (flows_of (add_flow c graph result) comp_id) x
      ≡ (contains (flows_of result comp_id) x || names_component graph comp_id x c)
unfolding add_flow
add_flow-flows c graph result comp_id x = elim (Bool-cases (c.change.node_type == "data_flow")) [
  | inr e ↦ rw (e, add_flow) (ground arith)
  | inl e ↦ elim (Option-cases (module_by_name graph c.module_name)) [
    | inl f ↦ rw (e, f, add_flow) (ground arith)
    | inr (entry, f) ↦ elim (Option-cases (find_data_flow entry.spec c.change.key)) [
      | inl g ↦ rw (e, f, g, add_flow) (ground arith)
      | inr (df, g) ↦
          rw (e, f, g, add_flow)
            (add_uses-flows df.uses c.change.key result comp_id x ∙ ground arith)
    ]
  ]
]

add_flows-flows :
    (changes : List ClassifiedChange) (graph : SpecGraph) (result : List (String × List String))
    (comp_id x : String)
    → contains (flows_of (add_flows changes graph result) comp_id) x
      ≡ (contains (flows_of result comp_id) x || names_any graph comp_id x changes)
unfolding add_flows names_any
add_flows-flows [] graph result comp_id x = ground arith
add_flows-flows (c ∷ changes) graph result comp_id x =
    add_flows-flows changes graph (add_flow c graph result) comp_id x
    ∙ ap (λ b. b || names_any graph comp_id x changes) (add_flow-flows c graph result comp_id x)
    ∙ ground arith

add_on-deps :
    (matches : List Match) (unmatched : List Unmatched) (graph : SpecGraph) (a : Action)
    (x : String)
    → contains
        (add_on a (
          flows_of
            (changed_data_flow_uses matches unmatched graph)
            a.spec_node_id)).dep_spec_node_ids
        x
      ≡ (contains a.dep_spec_node_ids x
          || names_any graph a.spec_node_id x (changes_of matches unmatched))
unfolding changed_data_flow_uses contains fetch
add_on-deps matches unmatched graph a x =
    contains-add_on a (flows_of (changed_data_flow_uses matches unmatched graph) a.spec_node_id) x
    ∙ ap (λ b. contains a.dep_spec_node_ids x || b)
        (add_flows-flows (changes_of matches unmatched) graph [] a.spec_node_id x)

add_on-with_deps :
    (a : Action) (flows : List String)
    → add_on a flows ≡ with_deps a (add_on a flows).dep_spec_node_ids
unfolding add_on
add_on-with_deps a [] = refl
add_on-with_deps a (f ∷ flows) = refl

-- Creates a component that the current spec still has.
abbrev pub gains_flows : Action → Bool
gains_flows a =
    not (a.spec_hash == "") && ((a.node_type == "component") && (a.type == action_create))

guard-gains_flows :
    (a : Action)
    → ((a.type == action_create) && ((a.node_type == "component") && not (a.spec_hash == "")))
      ≡ gains_flows a
guard-gains_flows a = ground arith

-- The second action is the first, but that it also depends on the changed data flows that name its
-- node if it creates a component that the spec has; no other field changes.
abbrev pub AddsFlows : SpecGraph → List ClassifiedChange → Action → Action → Type 0
AddsFlows graph changes a b =
    (b ≡ (if gains_flows a then with_deps a b.dep_spec_node_ids else a))
    × ((x : String)
        → contains b.dep_spec_node_ids x ≡ (
            contains a.dep_spec_node_ids x
            || (gains_flows a && names_any graph a.spec_node_id x changes)))

-- With the flows that ClassifyActions collects from the matched and unmatched changes, the add-on
-- keeps the actions in their order and keeps as it is every action that is no create, has a node
-- type other than component or has no spec hash. Each other action keeps all fields but its deps,
-- which are those that it had and the key of each changed data flow that the graph finds and whose
-- uses name the action's node.
pub apply_data_flow_add_on-AddsFlows :
    (matches : List Match) (unmatched : List Unmatched) (graph : SpecGraph) (actions : List Action)
    → Forall₂
        (AddsFlows graph (changes_of matches unmatched))
        actions
        (apply_data_flow_add_on actions (changed_data_flow_uses matches unmatched graph))
unfolding apply_data_flow_add_on
apply_data_flow_add_on-AddsFlows matches unmatched graph [] = Forall₂.nil
apply_data_flow_add_on-AddsFlows matches unmatched graph (a ∷ actions) =
    let rest = apply_data_flow_add_on-AddsFlows matches unmatched graph actions in
    elim (Bool-cases (gains_flows a)) [
      | inl e ↦ rw (guard-gains_flows a ∙ e) (
          Forall₂.cons (rw e (add_on-with_deps a _, λ x. add_on-deps matches unmatched graph a x))
            rest)
      | inr e ↦ rw (guard-gains_flows a ∙ e) (Forall₂.cons (rw e (refl, λ x. ground arith)) rest)
    ]

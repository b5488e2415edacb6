-- ===== src/Plan/Builder/Earlier.antt =====
-- What the batch and the layer edges name for a create: the op ids of creates before it.
use mathlib.Core.List.{append_assoc, append-nil, map-append}
use spexmachina.Prelude.{
  String, ℕ, ◌+◌, ◌≤◌, true, false, List, [], ◌∷◌, ◌++◌, map, Option, none, some, length, ◌==◌,
  nat_eq, All, All-imp, contains, contains-append, count, count-contains, count-append, fetch,
  store, fetch-store, OnOk, OnOk-ok, ◌≡◌, refl, sym, ap, subst, ◌∙◌, inl, inr, arith, ◌⊎◌,
  Bool-cases, Result-cases, eq_iff,
}
use spexmachina.Plan.Types.{Action}
use spexmachina.Plan.Kahn.{ids}
use spexmachina.Plan.Sorter.{layer_index, layer_for}
use spexmachina.Plan.Resolver.{Batch}
use spexmachina.Plan.Builder.{
  create_op_id, batch_of, LayerGroup, cons_group, layer_groups, edges_of_groups, layer_edges_for,
}
use spexmachina.Plan.Builder.Compose.{next_edges}

abbrev pub op_ids_of : List Action → List String
op_ids_of = map create_op_id

-- A node that none of the actions is for keeps its op.
fetch-batch_of :
    (xs : List Action) (batch : Batch) (dep : String)
    → contains (ids xs) dep ≡ false
    → fetch (batch_of xs batch) dep ≡ fetch batch dep
unfolding batch_of contains
fetch-batch_of [] batch dep h = refl
fetch-batch_of (a ∷ xs) batch dep h =
    fetch-batch_of xs (store batch a.spec_node_id (create_op_id a)) dep (ground (arith, h))
    ∙ fetch-store batch a.spec_node_id (create_op_id a) dep
    ∙ ground (arith, h)

-- Every op that the batch maps to is one of a create.
pub batch_of-known :
    (xs : List Action) (batch : Batch) (dep v : String)
    → fetch (batch_of xs batch) dep ≡ some v
    → (fetch batch dep ≡ some v) ⊎ (contains (op_ids_of xs) v ≡ true)
unfolding batch_of contains
batch_of-known [] batch dep v h = inl h
batch_of-known (a ∷ xs) batch dep v h =
    elim (batch_of-known xs (store batch a.spec_node_id (create_op_id a)) dep v h) [
      | inr e ↦ inr (ground (arith, e))
      | inl e ↦
          let stored = sym (fetch-store batch a.spec_node_id (create_op_id a) dep) ∙ e in
          elim (Bool-cases (a.spec_node_id == dep)) [
            | inl k ↦
                let same : create_op_id a ≡ v = cc (rw k at stored) in
                inr (ground (arith, eq_iff (create_op_id a) v, same))
            | inr k ↦ inl (rw k at stored)
          ]
    ]

batch_of-append :
    (xs ys : List Action) (batch : Batch)
    → batch_of (xs ++ ys) batch ≡ batch_of ys (batch_of xs batch)
unfolding batch_of
batch_of-append [] ys batch = refl
batch_of-append (a ∷ xs) ys batch =
    batch_of-append xs ys (store batch a.spec_node_id (create_op_id a))

-- If the creates are for distinct nodes, the op of a dep that an earlier one is for is an earlier op.
pub earlier_op :
    (before after : List Action) (dep v : String)
    → count dep (ids (before ++ after)) ≤ 1
    → contains (ids before) dep ≡ true
    → fetch (batch_of (before ++ after) []) dep ≡ some v
    → contains (op_ids_of before) v ≡ true
unfolding fetch
earlier_op before after dep v unique there h =
    let later : contains (ids after) dep ≡ false = ground (
      arith,
      unique,
      there,
      map-append (λ (a : Action). a.spec_node_id) before after,
      count-append dep (ids before) (ids after),
      count-contains (ids before) dep,
      count-contains (ids after) dep,
    ) in
    let found : fetch (batch_of before []) dep ≡ some v =
      sym (fetch-batch_of after (batch_of before []) dep later)
      ∙ ap (λ b. fetch b dep) (sym (batch_of-append before after []))
      ∙ h in
    elim (batch_of-known before [] dep v found) [ inl e ↦ cc e | inr e ↦ e ]

-- A dep that the batch has is the node of a create.
pub batch_dep :
    (xs : List Action) (dep v : String)
    → fetch (batch_of xs []) dep ≡ some v
    → contains (ids xs) dep ≡ true
unfolding fetch
batch_dep xs dep v h = elim (Bool-cases (contains (ids xs) dep)) [
  | inl e ↦ e
  | inr e ↦ let nothing : none ≡ some v = sym (fetch-batch_of xs [] dep e) ∙ h in cc nothing
]

-- The op ids of the groups, in order.
abbrev group_ids : List LayerGroup → List String
group_ids [] = []
group_ids (g ∷ groups) = g.1 ++ group_ids groups

group_ids-cons_group :
    (layer : ℕ) (id : String) (groups : List LayerGroup)
    → group_ids (cons_group layer id groups) ≡ id ∷ group_ids groups
group_ids-cons_group layer id [] = refl
group_ids-cons_group layer id (g ∷ groups) = elim (Bool-cases (nat_eq g.0 layer)) [
  | inl e ↦ rw (e, cons_group) refl
  | inr e ↦ rw (e, cons_group) refl
]

group_ids-layer_groups :
    (index : String → Option ℕ) (cleanup_layer : ℕ) (sorted : List Action)
    → OnOk (λ groups. group_ids groups ≡ op_ids_of sorted) (layer_groups index cleanup_layer sorted)
unfolding layer_groups
group_ids-layer_groups index cleanup_layer [] = refl
group_ids-layer_groups index cleanup_layer (a ∷ sorted) =
    elim (Result-cases (layer_for a index cleanup_layer)) [
      | inl (e, f) ↦ rw (f, layer_groups) tt
      | inr (layer, f) ↦ elim (Result-cases (layer_groups index cleanup_layer sorted)) [
        | inl (e, g) ↦ rw (f, g, layer_groups) tt
        | inr (groups, g) ↦
            let rest =
              OnOk-ok _ (layer_groups index cleanup_layer sorted)
                (group_ids-layer_groups index cleanup_layer sorted) g in
            rw (f, g, layer_groups)
              (group_ids-cons_group layer (create_op_id a) groups
                ∙ ap (λ l. create_op_id a ∷ l) rest)
      ]
    ]

-- The layer edges of each create name ops before it.
abbrev pub EdgesEarlier : List String → List String → List (List String) → Type 0
EdgesEarlier seen [] edges = Unit
EdgesEarlier seen (id ∷ ids) edges =
    All (λ x. contains seen x ≡ true) (next_edges edges).0
    × EdgesEarlier (seen ++ id ∷ []) ids (next_edges edges).1

contains_left :
    (xs ys : List String) (x : String) → contains xs x ≡ true → contains (xs ++ ys) x ≡ true
contains_left xs ys x h = ground (arith, contains-append xs ys x, h)

contains_right :
    (xs ys : List String) (x : String) → contains ys x ≡ true → contains (xs ++ ys) x ≡ true
contains_right xs ys x h = ground (arith, contains-append xs ys x, h)

group-EdgesEarlier :
    (seen previous group later : List String) (edges : List (List String))
    → All (λ x. contains seen x ≡ true) previous
    → EdgesEarlier (seen ++ group) later edges
    → EdgesEarlier seen (group ++ later) (map (λ id. previous) group ++ edges)
group-EdgesEarlier seen previous [] later edges h k = rw append-nil at k
group-EdgesEarlier seen previous (id ∷ group) later edges h k = (
  h,
  group-EdgesEarlier (seen ++ id ∷ []) previous group later edges
      (All-imp previous (λ x e. contains_left seen (id ∷ []) x e) h) (rw append_assoc k),
)

All-members : (xs : List String) → All (λ x. contains xs x ≡ true) xs
unfolding contains
All-members [] = tt
All-members (x ∷ xs) = (
  ground (arith, eq_iff x x),
  All-imp xs (λ y e. contains_right (x ∷ []) xs y e) (All-members xs),
)

edges_of_groups-EdgesEarlier :
    (seen previous : List String) (groups : List LayerGroup)
    → All (λ x. contains seen x ≡ true) previous
    → EdgesEarlier seen (group_ids groups) (edges_of_groups previous groups)
unfolding edges_of_groups
edges_of_groups-EdgesEarlier seen previous [] h = tt
edges_of_groups-EdgesEarlier seen previous (g ∷ groups) h = elim (Bool-cases (nat_eq g.0 0)) [
  | inl e ↦
      rw (e, edges_of_groups)
        (group-EdgesEarlier seen [] g.1 (group_ids groups) _ tt (
          edges_of_groups-EdgesEarlier (seen ++ g.1) previous groups
            (All-imp previous (λ x k. contains_left seen g.1 x k) h)))
  | inr e ↦
      rw (e, edges_of_groups)
        (group-EdgesEarlier seen previous g.1 (group_ids groups) _ h (
          edges_of_groups-EdgesEarlier (seen ++ g.1) g.1 groups
            (All-imp g.1 (λ x k. contains_right seen g.1 x k) (All-members g.1))))
]

pub layer_edges_for-EdgesEarlier :
    (sorted : List Action) (plan_relevant : List String)
    → OnOk (EdgesEarlier [] (op_ids_of sorted)) (layer_edges_for sorted plan_relevant)
unfolding layer_edges_for
layer_edges_for-EdgesEarlier sorted plan_relevant =
    let grouped =
      layer_groups (layer_index 0 plan_relevant (λ t. none)) (length plan_relevant + 1) sorted in
    elim (Result-cases grouped) [
      | inl (e, f) ↦ rw (f, layer_edges_for) tt
      | inr (groups, f) ↦
          let same =
            OnOk-ok _ grouped
              (group_ids-layer_groups (layer_index 0 plan_relevant (λ t. none))
                (length plan_relevant + 1) sorted)
              f in
          rw (f, layer_edges_for)
            (subst (λ l. EdgesEarlier [] l (edges_of_groups [] groups)) same
              (edges_of_groups-EdgesEarlier [] [] groups tt))
    ]

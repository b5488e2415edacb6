-- ===== src/Plan/Builder/Answer.antt =====
-- What Build answers with.
use mathlib.Core.List.Permᴰ as PermD
use mathlib.Core.List.{Permᴰ}
use spexmachina.Prelude.{
  String, true, List, [], ◌++◌, map, contains, contains_of_count, count-contains, count-Permᴰ, OnOk,
  OnOk-ok, ok, ◌≡◌, refl, inl, inr, arith, Result-cases,
}
use spexmachina.Plan.Types.{Action, Op, Changeset, action_retarget, action_obsolete}
use spexmachina.Plan.Graph.{plan_relevant_of}
use spexmachina.Plan.Kahn.{ids}
use spexmachina.Plan.Kahn.Run.{IsUnique}
use spexmachina.Plan.Sorter.{sort}
use spexmachina.Plan.Sorter.Correct.{sort-ok}
use spexmachina.Plan.Builder.{
  Builder, wrap, sort_error, create_op_id, retarget_op_id, close_op_id, actions_of_type,
  layer_edges_for,
}
use spexmachina.Plan.Builder.Compose.{compose, creates_with_epic, sorted_creates, build}
use spexmachina.Plan.Builder.Earlier.{batch_dep, layer_edges_for-EdgesEarlier}
use spexmachina.Plan.Builder.Ordered.{
  OpsFirst, ids_of_ops, all_op_ids, batch_earlier, compose-Emitted, wrap-ok,
}

-- The ops come from a permutation of the creates, and stand behind those that their deps name.
abbrev IsBuilt : List Action → List Action → Changeset → Type 0
IsBuilt creates actions cs =
    (sorted : List Action) × Permᴰ creates sorted
    × (ids_of_ops cs.ops ≡ all_op_ids sorted actions)
    × OpsFirst [] cs.ops

ids-Permᴰ : {xs ys : List Action} → Permᴰ xs ys → Permᴰ (ids xs) (ids ys)
ids-Permᴰ p = PermD.map (λ (a : Action). a.spec_node_id) p

IsUnique-Permᴰ : {xs ys : List Action} → Permᴰ xs ys → IsUnique xs → IsUnique ys
IsUnique-Permᴰ p unique x = omega (arith, unique x, count-Permᴰ x (ids-Permᴰ p))

contains-back :
    {xs ys : List Action}
    → Permᴰ xs ys
    → (x : String) → contains (ids ys) x ≡ true
    → contains (ids xs) x ≡ true
contains-back {xs} {ys} p x h =
    contains_of_count (ids xs) x
      (omega (arith, count-Permᴰ x (ids-Permᴰ p), count-contains (ids ys) x h))

build-IsBuilt :
    (join_path : List String → String) (b : Builder) (actions creates : List Action)
    → creates_with_epic b actions ≡ ok creates
    → IsUnique creates
    → OnOk (IsBuilt creates actions) (build join_path b actions)
unfolding build sorted_creates
build-IsBuilt join_path b actions creates made unique =
    let relevant = plan_relevant_of b.spec_graph in
    elim (Result-cases (wrap sort_error (sort creates relevant))) [
      | inl (x, f) ↦ rw (made, f, build, sorted_creates) tt
      | inr (sorted, f) ↦
          let (same, first) =
            sort-ok creates relevant sorted unique (wrap-ok sort_error (sort creates relevant) f) in
          let behind =
            batch_earlier sorted [] sorted (contains (ids creates)) refl
              (IsUnique-Permᴰ same unique)
              (λ dep v found. contains-back same dep (batch_dep sorted dep v found)) first in
          elim (Result-cases (wrap sort_error (layer_edges_for sorted relevant))) [
            | inl (x, g) ↦ rw (made, f, g, build, sorted_creates) tt
            | inr (edges, g) ↦
                let earlier =
                  OnOk-ok _ (layer_edges_for sorted relevant)
                    (layer_edges_for-EdgesEarlier sorted relevant)
                    (wrap-ok sort_error (layer_edges_for sorted relevant) g) in
                elim (Result-cases (compose join_path b sorted actions edges)) [
                  | inl (x, h) ↦ rw (made, f, g, h, build, sorted_creates) tt
                  | inr (ops, h) ↦
                      let emitted =
                        OnOk-ok _ (compose join_path b sorted actions edges)
                          (compose-Emitted join_path b sorted actions edges behind earlier) h in
                      rw (made, f, g, h, build, sorted_creates) (sorted, same, emitted.0, emitted.1)
                ]
          ]
    ]

-- If the creates of a batch, the epic included, are for distinct spec nodes and Build succeeds, then its
-- ops are one for each create, in some order of the creates, then one for each retarget and one for each
-- obsolete action, each with the canonical op id of its action; and each op that a dep of an op names
-- stands before that op in the changeset.
pub build-OpsFirst :
    (join_path : List String → String) (b : Builder) (actions creates : List Action)
    (cs : Changeset)
    → creates_with_epic b actions ≡ ok creates
    → IsUnique creates
    → build join_path b actions ≡ ok cs
    → (sorted : List Action) × Permᴰ creates sorted
      × (map (λ (o : Op). o.op_id) cs.ops
          ≡ map create_op_id sorted
            ++ map retarget_op_id (actions_of_type action_retarget actions)
            ++ map close_op_id (actions_of_type action_obsolete actions))
      × OpsFirst [] cs.ops
build-OpsFirst join_path b actions creates cs made unique e =
    OnOk-ok (IsBuilt creates actions) (build join_path b actions)
      (build-IsBuilt join_path b actions creates made unique) e

-- ===== src/Plan/Builder/Compose.antt =====
-- Build of plan/builder.go and the ops that it makes.
use spexmachina.Prelude.{
  String, ℕ, List, [], ◌∷◌, ◌++◌, map, Option, none, some, ◌==◌, ◌⊕◌, if◌then◌else◌, sort_strings,
  Result, ok, err, ◌>>=◌,
}
use spexmachina.Plan.Types.{
  Action, task, Op, Changeset, kind_proposal_epic, kind_cleanup, action_create, action_retarget,
  action_obsolete, op_create, op_close,
}
use spexmachina.Plan.Graph.{
  SpecGraph, ModuleEntry, module_by_name, plan_relevant_of, find_component, find_data_flow,
  find_test_section,
}
use spexmachina.Plan.Labeler.{Labeler, is_cleanup, label_for}
use spexmachina.Plan.Resolver.{
  Batch, resolve_epic_action, resolve_parent, resolve_priority, fallback_priority,
}
use spexmachina.Plan.Sorter.{sort}
use spexmachina.Plan.Builder.{
  Builder, BuilderError, resolve_error, sort_error, label_error, wrap, actions_of_type,
  create_op_id, retarget_op_id, close_op_id, batch_of, index_of, layer_edges_for, compose_deps,
}

unfoldable pub title_for : Action → String
title_for a =
    if a.node_type == "data_flow"
    then a.module_name ⊕ (": data_flow " ⊕ a.node)
    else if a.node_type == "test_section"
    then a.module_name ⊕ (": test " ⊕ a.node)
    else a.module_name ⊕ (": " ⊕ a.node)

-- `content` of bodyFor
unfoldable pub content_of : Action → ModuleEntry → String
content_of a mod_entry =
    if a.node_type == "component"
    then elim (find_component mod_entry.spec a.spec_node_id) [ none ↦ "" | some c ↦ c.content ]
    else if a.node_type == "data_flow"
    then elim (find_data_flow mod_entry.spec a.spec_node_id) [ none ↦ "" | some f ↦ f.content ]
    else if a.node_type == "test_section"
    then elim (find_test_section mod_entry.spec a.spec_node_id) [ none ↦ "" | some t ↦ t.content ]
    else ""

unfoldable pub body_for : (List String → String) → Action → SpecGraph → String
unfolding content_of
body_for join_path a graph = elim (module_by_name graph a.module_name) [
  | none ↦ ""
  | some mod_entry ↦
      let content = content_of a mod_entry in
      let path = mod_entry.module_decl.path in
      if content == ""
      then ""
      else "Spec context:\n\n- "
        ⊕ (join_path ("spec" ∷ path ∷ content ∷ [])
            ⊕ ("\n- " ⊕ (join_path ("spec" ∷ path ∷ "module.json" ∷ []) ⊕ "\n")))
]

-- The fields that the composite literals leave out are zero.
abbrev pub plain_op : String → String → Op
plain_op op_id type = record {
  op_id = op_id;
  type = type;
  spec_node_kind = "";
  spec_node_id = "";
  spec_hash = "";
  idempotency = none;
  parent = none;
  deps = [];
  priority = 0;
  title = "";
  body = "";
  target = none;
  labels = [];
  reason = "";
}

abbrev pub labelled : Action → String → String → Op
labelled a op_id label = record (plain_op op_id op_create) {
  spec_node_id = a.spec_node_id;
  idempotency = some (record { label = label });
  priority = fallback_priority;
}

-- The variables of Build that the ops are made from.
pub record Plan : Type 0 where
  pub batch : Batch
  pub op_index : List (String × ℕ)
  pub retarget_targets : List String

unfoldable pub create_op :
    (List String → String)
    → Builder
    → Plan
    → Action
    → String
    → String
    → List String
    → Result BuilderError Op
unfolding is_cleanup resolve_parent compose_deps resolve_priority title_for body_for
create_op join_path b p a op_id label layer_edges =
    if a.node_type == kind_proposal_epic
    then ok
        (record (labelled a op_id label) { spec_node_kind = kind_proposal_epic; title = a.reason })
    else elim (resolve_parent b.proposal b.lookup b.registration p.batch) [
      | err e ↦ err (resolve_error e)
      | ok parent ↦
          elim (compose_deps a b.lookup p.batch p.op_index layer_edges
            (if is_cleanup a then p.retarget_targets else [])) [
              | err e ↦ err e
              | ok deps ↦
                  if is_cleanup a
                  then ok (record (labelled a op_id label) {
                    spec_node_kind = kind_cleanup;
                    parent = some parent;
                    deps = deps;
                    title = a.reason;
                  })
                  else ok (record (labelled a op_id label) {
                    spec_node_kind = a.node_type;
                    parent = some parent;
                    deps = deps;
                    priority = resolve_priority a.module_name a.spec_node_id b.spec_graph;
                    title = title_for a;
                    body = body_for join_path a b.spec_graph;
                  })
            ]
    ]

abbrev pub labeler_of : Builder → Labeler
labeler_of b = record { git_head = b.git_head; fold = some b.removal }

unfoldable pub retarget_op : Builder → Plan → Action → Result BuilderError Op
unfolding retarget_op_id compose_deps label_for
retarget_op b p a = elim (compose_deps a b.lookup p.batch p.op_index [] []) [
  | err e ↦ err e
  | ok deps ↦ elim (label_for (labeler_of b) a (retarget_op_id a) b.registration) [
    | err e ↦ err (label_error e)
    | ok label ↦ ok (record (plain_op (retarget_op_id a) "retarget") {
      spec_node_id = a.spec_node_id;
      spec_hash = a.spec_hash;
      target = some (task a.task_id);
      deps = deps;
      labels = label ∷ [];
      reason = a.reason;
    })
  ]
]

unfoldable pub close_op : Action → Op
unfolding close_op_id
close_op a = record (plain_op (close_op_id a) op_close) {
  target = some (task a.task_id);
  reason = a.reason;
}

-- The label and the op of one sorted create.
unfoldable pub labelled_create_op :
    (List String → String) → Builder → Plan → Action → List String → Result BuilderError Op
unfolding label_for create_op create_op_id
labelled_create_op join_path b p a layer_edges =
    elim (label_for (labeler_of b) a (create_op_id a) b.registration) [
      | err e ↦ err (label_error e)
      | ok label ↦ create_op join_path b p a (create_op_id a) label layer_edges
    ]

-- layerEdges[i], with the list's rest.
abbrev pub next_edges : List (List String) → List String × List (List String)
next_edges [] = ([], [])
next_edges (edges ∷ rest) = (edges, rest)

unfoldable pub create_ops :
    (List String → String)
    → Builder
    → Plan
    → List Action
    → List (List String)
    → Result BuilderError (List Op)
unfolding labelled_create_op
create_ops join_path b p [] layer_edges = ok []
create_ops join_path b p (a ∷ sorted) layer_edges = do
  first ← labelled_create_op join_path b p a (next_edges layer_edges).0
  rest ← create_ops join_path b p sorted (next_edges layer_edges).1
  ok (first ∷ rest)

unfoldable pub retarget_ops : Builder → Plan → List Action → Result BuilderError (List Op)
unfolding retarget_op
retarget_ops b p [] = ok []
retarget_ops b p (a ∷ retargets) = do
  first ← retarget_op b p a
  rest ← retarget_ops b p retargets
  ok (first ∷ rest)

abbrev pub with_epic : Option Action → List Action → List Action
with_epic none creates = creates
with_epic (some epic) creates = epic ∷ creates

abbrev pub plan_of : List Action → List Action → Plan
plan_of sorted retargets = record {
  batch = batch_of sorted [];
  op_index = index_of 0 (map create_op_id sorted) [];
  retarget_targets = sort_strings (map (λ (a : Action). a.task_id) retargets);
}

-- The ops of the sorted creates, the retargets and the obsoletes.
unfoldable pub compose :
    (List String → String)
    → Builder
    → List Action
    → List Action
    → List (List String)
    → Result BuilderError (List Op)
unfolding create_ops retarget_ops batch_of index_of sort_strings close_op create_op_id
compose join_path b sorted actions layer_edges = do
  let retargets = actions_of_type action_retarget actions
  let p = plan_of sorted retargets
  creates ← create_ops join_path b p sorted layer_edges
  moves ← retarget_ops b p retargets
  ok (creates ++ moves ++ map close_op (actions_of_type action_obsolete actions))

-- The creates, with the epic first if one is needed.
unfoldable pub creates_with_epic : Builder → List Action → Result BuilderError (List Action)
unfolding resolve_epic_action
creates_with_epic b actions = do
  epic ← wrap resolve_error (resolve_epic_action b.proposal b.lookup b.registration)
  ok (with_epic epic (actions_of_type action_create actions))

unfoldable pub sorted_creates : Builder → List Action → Result BuilderError (List Action)
unfolding creates_with_epic sort
sorted_creates b actions = do
  creates ← creates_with_epic b actions
  wrap sort_error (sort creates (plan_relevant_of b.spec_graph))

unfoldable pub build :
    (List String → String) → Builder → List Action → Result BuilderError Changeset
unfolding sorted_creates layer_edges_for compose
build join_path b actions = do
  sorted ← sorted_creates b actions
  layer_edges ← wrap sort_error (layer_edges_for sorted (plan_relevant_of b.spec_graph))
  ops ← compose join_path b sorted actions layer_edges
  ok (record {
    version = 4;
    git_head = b.git_head;
    proposal = b.proposal;
    ops = ops;
    absorbed = b.absorbed;
  })

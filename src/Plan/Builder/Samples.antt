-- ===== src/Plan/Builder/Samples.antt =====
-- Build on a batch with an epic, a flow, a component that uses it, a cleanup, a retarget and an obsolete.
use mathlib.Core.List.{Permᴰ}
use spexmachina.Plan.Builder.Union.{order_deps-union}
use spexmachina.Plan.Builder.{ops_of, tasks_of, order_deps}
use spexmachina.Prelude.{
  ◌||◌, count, String, List, [], ◌∷◌, ◌++◌, map, none, some, ◌==◌, ◌⊕◌, if◌then◌else◌, contains,
  count-le_one, no_repeats, fetch, store, sort_by, insert_by, Result, ok, err, ◌≡◌, refl,
}
use spexmachina.Schema.Profile.{append_new}
use spexmachina.Plan.Types.{
  Action, Ref, task, op, Op, Changeset, action_create, action_retarget, action_obsolete,
}
use spexmachina.Plan.Graph.{plan_relevant_of}
use spexmachina.Plan.Matcher.{Pairing}
use spexmachina.Plan.Kahn.Run.{IsUnique}
use spexmachina.Plan.Resolver.{epic_action}
use spexmachina.Plan.Builder.{Builder, BuilderError, create_op_id, retarget_op_id, close_op_id}
use spexmachina.Plan.Builder.Compose.{creates_with_epic, build}
use spexmachina.Plan.Builder.Ordered.{OpsFirst}
use spexmachina.Plan.Builder.Answer.{build-OpsFirst}

abbrev action : String → String → String → List String → String → Action
action type node_type id deps reason = record {
  type = type;
  task_id = "t-" ⊕ id;
  module_name = "m";
  node = id;
  node_type = node_type;
  spec_node_id = id;
  spec_hash = "h";
  dep_spec_node_ids = deps;
  change_type = "";
  reason = reason;
}

abbrev component : Action
component = action action_create "component" "c1" ("f1" ∷ "c9" ∷ []) "New spec node: m/c1"

abbrev cleanup : Action
cleanup = action action_create "component" "gone" [] "Code cleanup: m/gone"

abbrev flow : Action
flow = action action_create "data_flow" "f1" [] "New spec node: m/f1"

abbrev moved : Action
moved = action action_retarget "component" "c2" ("c1" ∷ []) "Spec node modified: m/c2"

abbrev dropped : Action
dropped = action action_obsolete "component" "c3" [] "Spec node removed: m/c3"

abbrev actions : List Action
actions = component ∷ moved ∷ cleanup ∷ flow ∷ dropped ∷ []

abbrev paired : Pairing
paired = record {
  spec_node_id = "c9";
  task_id = "t9";
  node_type = "component";
  module_name = "m";
  name = "c9";
  bead_status = "open";
  after = "h9";
}

abbrev builder : Builder
builder = record {
  spec_graph = record { by_name = []; by_id = []; project_reqs = []; profile = none };
  lookup = λ key. if key == "c9" then some paired else none;
  removal = λ id. none;
  registration = record { eid = "e1" };
  git_head = "a1";
  proposal = "p";
  absorbed = [];
}

abbrev join_path : List String → String
join_path [] = ""
join_path (x ∷ xs) = x ⊕ ("/" ⊕ join_path xs)

abbrev creates : List Action
creates = epic_action "p" ∷ component ∷ cleanup ∷ flow ∷ []

creates_with_epic-actions : creates_with_epic builder actions ≡ ok creates
unfolding creates_with_epic
creates_with_epic-actions = refl

creates-IsUnique : IsUnique creates
unfolding no_repeats contains
creates-IsUnique x = count-le_one _ x refl

abbrev summary : Result BuilderError Changeset → List (String × List Ref)
summary (err e) = []
summary (ok cs) = map (λ (o : Op). (o.op_id, o.deps)) cs.ops

build-summary :
    summary (build join_path builder actions)
    ≡ ("op-proposal_epic-p", [])
      ∷ ("op-data_flow-f1", [])
      ∷ ("op-component-c1", op "op-data_flow-f1" ∷ task "t9" ∷ [])
      ∷ ("op-cleanup-gone", op "op-component-c1" ∷ task "t-c2" ∷ [])
      ∷ ("op-retarget-c2", op "op-component-c1" ∷ [])
      ∷ ("op-close-t-c3", [])
      ∷ []
unfolding build contains fetch store sort_by insert_by append_new plan_relevant_of
build-summary = refl

abbrev changeset : Changeset
unfolding build contains fetch store sort_by insert_by append_new plan_relevant_of
changeset = elim (build join_path builder actions) [
  | ok cs ↦ cs
  | err e ↦ record { version = 0; git_head = ""; proposal = ""; ops = []; absorbed = [] }
]

built : build join_path builder actions ≡ ok changeset
unfolding build contains fetch store sort_by insert_by append_new plan_relevant_of
built = refl

build-OpsFirst_example :
    (sorted : List Action) × Permᴰ creates sorted
    × (map (λ (o : Op). o.op_id) changeset.ops
        ≡ map create_op_id sorted
          ++ map retarget_op_id (moved ∷ [])
          ++ map close_op_id (dropped ∷ []))
    × OpsFirst [] changeset.ops
build-OpsFirst_example =
    build-OpsFirst join_path builder actions creates changeset creates_with_epic-actions
      creates-IsUnique built

order_deps-union_example :
    (count "a"
        (ops_of (order_deps (op "a" ∷ task "t" ∷ op "a" ∷ []) [] ("b" ∷ "a" ∷ []) ("t" ∷ [])))
      ≡ (if contains ("a" ∷ "a" ∷ []) "a" || contains ("b" ∷ "a" ∷ []) "a" then 1 else 0))
    × (count "a"
          (tasks_of (order_deps (op "a" ∷ task "t" ∷ op "a" ∷ []) [] ("b" ∷ "a" ∷ []) ("t" ∷ [])))
        ≡ (if contains ("t" ∷ []) "a" || contains ("t" ∷ []) "a" then 1 else 0))
order_deps-union_example =
    order_deps-union (op "a" ∷ task "t" ∷ op "a" ∷ []) [] ("b" ∷ "a" ∷ []) ("t" ∷ []) "a"

-- ===== src/Merkle/Completeness/Rules.antt =====
-- The loops of CheckCompletenessFS over the changes.
use spexmachina.Prelude.{
  String, Bool, not, ◌&&◌, List, [], ◌∷◌, ◌++◌, map, Option, none, some, ◌==◌, ◌⊕◌, if◌then◌else◌,
  keep, contains, fetch, store,
}
use spexmachina.Schema.Spec.{Module, Project, Requirement, ModuleSpec}
use spexmachina.Schema.Profile.{NodeType, Profile, append_new}
use spexmachina.Merkle.Diff.{added, modified, removed}
use spexmachina.Merkle.Impact.{ClassifiedChange}
use spexmachina.Merkle.Completeness.{
  DiffError, incomplete, LoadModule, unchanged_errors, check_modified_requirement,
  check_added_requirement, check_removed_requirement, check_project_requirement_kept,
  check_project_requirement_removed,
}

-- completenessTriggerTypes, for one scope
unfoldable pub trigger_types : List NodeType → String → List String
trigger_types [] scope = []
trigger_types (t ∷ types) scope =
    let rest = trigger_types types scope in
    if not t.completeness_trigger then rest else if t.scope == scope then t.name ∷ rest else rest

-- The three cases of the switch.
unfoldable pub is_module_req : Profile → ClassifiedChange → Bool
unfolding contains trigger_types
is_module_req profile c =
    contains (trigger_types profile.node_types "module") c.change.node_type
    && not (c.change.module_hash == "")

unfoldable pub is_project_req : Profile → ClassifiedChange → Bool
unfolding contains trigger_types
is_project_req profile c =
    contains (trigger_types profile.node_types "project") c.change.node_type
    && (c.change.module_hash == "")

unfoldable pub is_meta : Profile → ClassifiedChange → Bool
unfolding is_module_req
is_meta profile c =
    not (is_module_req profile c)
    && ((c.change.node_type == "meta") && not (c.change.module_hash == ""))

abbrev pub module_of : ClassifiedChange → String
module_of c = c.change.module_hash

abbrev pub is_changed : List ClassifiedChange → String → Bool
is_changed changes = contains (map (λ (c : ClassifiedChange). c.change.key) changes)

unfoldable pub check_module_req : LoadModule → (String → Bool) → ClassifiedChange → List DiffError
unfolding check_modified_requirement check_added_requirement check_removed_requirement
check_module_req load_module changed c = elim (load_module c.change.module_hash) [
  | none ↦ []
  | some spec ↦ elim c.change.type [
    | modified ↦ check_modified_requirement c.change.key spec changed
    | added ↦ check_added_requirement c.change.key spec changed
    | removed ↦ check_removed_requirement c.change.key spec
  ]
]

-- projReqByID: the last requirement with an id.
unfoldable pub title_of : List Requirement → String → String → String
title_of [] title id = title
title_of (r ∷ reqs) title id = title_of reqs (if r.id == id then r.title else title) id

unfoldable pub check_project_req :
    Project → LoadModule → (String → Bool) → ClassifiedChange → List DiffError
unfolding title_of check_project_requirement_kept check_project_requirement_removed
check_project_req proj load_module changed c =
    let title = title_of proj.requirements "" c.change.key in
    elim c.change.type [
      | modified ↦
          check_project_requirement_kept c.change.key title proj.modules load_module changed
      | added ↦ check_project_requirement_kept c.change.key title proj.modules load_module changed
      | removed ↦ check_project_requirement_removed c.change.key title proj.modules load_module
    ]

unfoldable pub check_meta : LoadModule → (String → Bool) → List String → String → List DiffError
unfolding contains unchanged_errors
check_meta load_module changed req_modules mod_hash =
    if contains req_modules mod_hash then [] else elim (load_module mod_hash) [
      | none ↦ []
      | some spec ↦
          unchanged_errors
            (λ comp.
              incomplete
                ("module "
                  ⊕ (spec.name
                      ⊕ (" meta changed but component " ⊕ (comp.name ⊕ " content leaf unchanged"))))
                ("meta/" ⊕ mod_hash) (comp.id ∷ []))
            changed spec.components
    ]

-- `for _, c := range cs { errs = append(errs, ...) }`
abbrev pub all_errors {ℓ} : {A : Type ℓ} → (A → List DiffError) → List A → List DiffError
all_errors f [] = []
all_errors f (x ∷ xs) = f x ++ all_errors f xs

-- moduleByHash: the last module with a hash.
unfoldable pub module_by_hash : List Module → List (String × Module) → List (String × Module)
module_by_hash [] m = m
module_by_hash (x ∷ modules) m = module_by_hash modules (store m x.id x)

-- loadModule; `read_module` is readModuleSpec on the module.json of a module's path.
unfoldable pub load_module_of : (String → Option ModuleSpec) → Project → LoadModule
unfolding module_by_hash
load_module_of read_module proj hash = elim (fetch (module_by_hash proj.modules []) hash) [
  | none ↦ none
  | some m ↦ read_module m.path
]

unfoldable pub check_completeness :
    List ClassifiedChange → Option Project → (String → Option ModuleSpec) → Profile → List DiffError
unfolding is_module_req is_project_req is_meta check_module_req check_project_req check_meta
    load_module_of append_new contains
check_completeness changes project read_module profile = elim project [
  | none ↦ []
  | some proj ↦
      let load_module = load_module_of read_module proj in
      let module_reqs = keep (is_module_req profile) changes in
      all_errors (check_module_req load_module (is_changed changes)) module_reqs
      ++ all_errors (check_project_req proj load_module (is_changed changes))
          (keep (is_project_req profile) changes)
      ++ all_errors (check_meta load_module (is_changed changes) (map module_of module_reqs))
          (append_new [] (map module_of (keep (is_meta profile) changes)))
]

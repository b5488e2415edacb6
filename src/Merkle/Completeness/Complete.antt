-- ===== src/Merkle/Completeness/Complete.antt =====
-- CheckCompleteness reports nothing exactly if the changes are complete.
use spexmachina.Prelude.{
  String, Bool, true, false, List, [], ◌∷◌, map, Option, none, some, keep, All, contains, ◌≡◌, ◌↔◌,
  refl, subst, inl, inr, Bool-cases,
}
use spexmachina.Schema.Spec.{Module, Project, Component, ModuleSpec}
use spexmachina.Schema.Profile.{Profile, append_new}
use spexmachina.Merkle.Diff.{ChangeType, added, modified, removed}
use spexmachina.Merkle.Impact.{ClassifiedChange}
use spexmachina.Merkle.Completeness.{
  DiffError, LoadModule, check_modified_requirement, check_added_requirement,
  check_removed_requirement, check_project_requirement_kept, check_project_requirement_removed,
}
use spexmachina.Merkle.Completeness.Rules.{
  is_module_req, is_project_req, is_meta, module_of, is_changed, check_module_req,
  check_project_req, check_meta, all_errors, load_module_of, check_completeness,
}
use spexmachina.Merkle.Completeness.Clear.{
  Clears, Clears-append, Clears-nothing, ImplementorsChanged, NoneImplements,
  unchanged_errors-Clears, modified-Clears, added-Clears, removed-Clears,
}
use spexmachina.Merkle.Completeness.Verdict.{
  NoneDerives, DerivedChanged, project_kept-Clears, project_removed-Clears,
}

-- What a change of a requirement of a module asks of the components of the module.
abbrev pub RequirementComplete : ChangeType → (String → Bool) → ModuleSpec → String → Type 0
RequirementComplete modified changed spec req_hash =
    ImplementorsChanged changed spec.components req_hash
RequirementComplete added changed spec req_hash =
    (¬ NoneImplements spec.components req_hash)
    × ImplementorsChanged changed spec.components req_hash
RequirementComplete removed changed spec req_hash = NoneImplements spec.components req_hash

-- What a change of a project requirement asks of the requirements that derive from it.
abbrev pub ProjectRequirementComplete :
    ChangeType → (String → Bool) → List Module → LoadModule → String → Type 0
ProjectRequirementComplete modified changed modules load_module proj_req =
    (¬ NoneDerives proj_req modules load_module)
    × DerivedChanged changed proj_req modules load_module
ProjectRequirementComplete added changed modules load_module proj_req =
    (¬ NoneDerives proj_req modules load_module)
    × DerivedChanged changed proj_req modules load_module
ProjectRequirementComplete removed changed modules load_module proj_req =
    NoneDerives proj_req modules load_module

all_errors-Clears :
    {A : Type 0} {P : A → Type 0} (f : A → List DiffError) (xs : List A)
    → ((x : A) → Clears (f x) (P x))
    → Clears (all_errors f xs) (All P xs)
all_errors-Clears f [] h = Clears-nothing tt
all_errors-Clears f (x ∷ xs) h =
    Clears-append (f x) (all_errors f xs) (h x) (all_errors-Clears f xs h)

-- An error list of a loaded module.
loaded-Clears :
    {P : ModuleSpec → Type 0} (o : Option ModuleSpec) (f : ModuleSpec → List DiffError)
    → ((spec : ModuleSpec) → Clears (f spec) (P spec))
    → Clears
        (elim o [ none ↦ [] | some spec ↦ f spec ])
        ((spec : ModuleSpec) → o ≡ some spec → P spec)
loaded-Clears none f h = Clears-nothing (λ spec k. cc k)
loaded-Clears {P = P} (some spec) f h =
    ((λ e spec' k. subst P (cc k) ((h spec).0 e)), λ k. (h spec).1 (k spec refl))

module _ (load_module : LoadModule) (changed : String → Bool) where
  abbrev pub ModuleReqComplete : ClassifiedChange → Type 0
  ModuleReqComplete c =
      (spec : ModuleSpec)
      → load_module c.change.module_hash ≡ some spec
      → RequirementComplete c.change.type changed spec c.change.key

  abbrev pub MetaComplete : List String → String → Type 0
  MetaComplete req_modules mod_hash =
      contains req_modules mod_hash ≡ false
      → (spec : ModuleSpec) → load_module mod_hash ≡ some spec
      → All (λ (comp : Component). changed comp.id ≡ true) spec.components

  by_type-Clears :
      (type : ChangeType) (req_hash : String) (spec : ModuleSpec)
      → Clears
          (elim type [
            | modified ↦ check_modified_requirement req_hash spec changed
            | added ↦ check_added_requirement req_hash spec changed
            | removed ↦ check_removed_requirement req_hash spec
          ])
          (RequirementComplete type changed spec req_hash)
  by_type-Clears modified req_hash spec = modified-Clears req_hash spec changed
  by_type-Clears added req_hash spec = added-Clears req_hash spec changed
  by_type-Clears removed req_hash spec = removed-Clears req_hash spec

  module_req-Clears :
      (c : ClassifiedChange) → Clears (check_module_req load_module changed c) (ModuleReqComplete c)
  unfolding check_module_req
  module_req-Clears c =
      loaded-Clears (load_module c.change.module_hash) _ (by_type-Clears c.change.type c.change.key)

  project_by_type-Clears :
      (type : ChangeType) (proj_req title : String) (modules : List Module)
      → Clears
          (elim type [
            | modified ↦ check_project_requirement_kept proj_req title modules load_module changed
            | added ↦ check_project_requirement_kept proj_req title modules load_module changed
            | removed ↦ check_project_requirement_removed proj_req title modules load_module
          ])
          (ProjectRequirementComplete type changed modules load_module proj_req)
  project_by_type-Clears modified proj_req title modules =
      project_kept-Clears proj_req title modules load_module changed
  project_by_type-Clears added proj_req title modules =
      project_kept-Clears proj_req title modules load_module changed
  project_by_type-Clears removed proj_req title modules =
      project_removed-Clears proj_req title modules load_module

  project_req-Clears :
      (proj : Project) (c : ClassifiedChange)
      → Clears
          (check_project_req proj load_module changed c)
          (ProjectRequirementComplete c.change.type changed proj.modules load_module c.change.key)
  unfolding check_project_req
  project_req-Clears proj c = project_by_type-Clears c.change.type c.change.key _ proj.modules

  meta-Clears :
      (req_modules : List String) (mod_hash : String)
      → Clears
          (check_meta load_module changed req_modules mod_hash)
          (MetaComplete req_modules mod_hash)
  unfolding check_meta
  meta-Clears req_modules mod_hash = elim (Bool-cases (contains req_modules mod_hash)) [
    | inl e ↦ rw (e, check_meta) (Clears-nothing (λ k. cc k))
    | inr e ↦
        let clears =
          loaded-Clears (load_module mod_hash) _
            (λ spec. unchanged_errors-Clears _ changed spec.components) in
        rw (e, check_meta) ((λ h k. clears.0 h), λ h. clears.1 (h refl))
  ]

-- The requirement changes of modules, those of the project, and the modules of which only the meta leaf
-- has changed.
abbrev pub IsComplete : List ClassifiedChange → Project → LoadModule → Profile → Type 0
IsComplete changes proj load_module profile =
    (All (ModuleReqComplete load_module (is_changed changes)) (keep (is_module_req profile) changes)
      × All
          (λ c.
            ProjectRequirementComplete c.change.type (is_changed changes) proj.modules load_module
              c.change.key)
          (keep (is_project_req profile) changes))
    × All
        (MetaComplete load_module (is_changed changes)
          (map module_of (keep (is_module_req profile) changes)))
        (append_new [] (map module_of (keep (is_meta profile) changes)))

-- CheckCompleteness reports no error exactly if: for each change of a requirement in a module, every
-- component that implements it has changed too if it was modified, the same and some component does if
-- it was added, and no component does if it was removed; for each change of a project requirement, some
-- requirement of a module derives from it and the components that implement such have changed if it was
-- modified or added, and none derives from it if it was removed; and every component of a module has
-- changed of which the meta leaf and no requirement has changed.
pub check_completeness-IsComplete :
    (changes : List ClassifiedChange) (proj : Project) (read_module : String → Option ModuleSpec)
    (profile : Profile)
    → (check_completeness changes (some proj) read_module profile ≡ [])
      ↔ IsComplete changes proj (load_module_of read_module proj) profile
unfolding check_completeness
check_completeness-IsComplete changes proj read_module profile =
    let load_module = load_module_of read_module proj in
    let changed = is_changed changes in
    let module_reqs = keep (is_module_req profile) changes in
    Clears-append _ _
      (Clears-append _ _ (all_errors-Clears _ module_reqs (module_req-Clears load_module changed)) (
        all_errors-Clears _ (keep (is_project_req profile) changes)
          (project_req-Clears load_module changed proj)))
      (all_errors-Clears _ (append_new [] (map module_of (keep (is_meta profile) changes)))
        (meta-Clears load_module changed (map module_of module_reqs)))

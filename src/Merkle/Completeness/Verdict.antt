-- ===== src/Merkle/Completeness/Verdict.antt =====
-- What CheckCompleteness reports nothing for.
use spexmachina.Prelude.{
  String, Bool, true, List, [], ◌∷◌, ◌++◌, some, ◌==◌, All, ◌≡◌, ◌↔◌, refl, subst, inl, inr,
  Bool-cases, Option-cases, List-cases,
}
use spexmachina.Schema.Spec.{Module, ModuleRequirement, ModuleSpec}
use spexmachina.Merkle.Completeness.{
  find_implementors, LoadModule, Derived, derived_in, find_derived, unchanged_derived,
  check_project_requirement_kept, check_project_requirement_removed,
}
use spexmachina.Merkle.Completeness.Clear.{
  Clears, Clears-append, Clears-nothing, Clears-one, Clears-trans, map_empty, ImplementorsChanged,
  unchanged_errors-Clears, implementors-All,
}

-- For each requirement of a loaded module that derives from the project requirement.
abbrev pub ForDerived : (ModuleSpec → String → Type 0) → String → List Module → LoadModule → Type 0
ForDerived P proj_req modules load_module =
    All
      (λ (m : Module).
        (spec : ModuleSpec)
        → load_module m.id ≡ some spec
        → All (λ (r : ModuleRequirement). (r.preq_id == proj_req) ≡ true → P spec r.id)
            spec.requirements)
      modules

-- The derived requirements have the property.
abbrev EachDerived : (ModuleSpec → String → Type 0) → List Derived → Type 0
EachDerived P = All (λ d. P d.1 d.0)

each_in :
    (P : ModuleSpec → String → Type 0) (proj_req : String) (spec : ModuleSpec)
    (reqs : List ModuleRequirement) (more : List Derived)
    → EachDerived P (derived_in proj_req spec reqs ++ more)
      ↔ All (λ (r : ModuleRequirement). (r.preq_id == proj_req) ≡ true → P spec r.id) reqs
        × EachDerived P more
unfolding derived_in
each_in P proj_req spec [] more = ((λ h. (tt, h)), λ h. h.1)
each_in P proj_req spec (r ∷ reqs) more =
    let rest = each_in P proj_req spec reqs more in
    elim (Bool-cases (r.preq_id == proj_req)) [
      | inl e ↦
          rw (e, derived_in)
            (
              (λ h. let (p, q) = rest.0 h.1 in (((λ k. h.0), p), q)),
              λ h. (h.0.0 refl, rest.1 (h.0.1, h.1)),
            )
      | inr e ↦
          rw (e, derived_in)
            ((λ h. let (p, q) = rest.0 h in (((λ k. cc k), p), q)), λ h. rest.1 (h.0.1, h.1))
    ]

derived-each :
    (P : ModuleSpec → String → Type 0) (proj_req : String) (modules : List Module)
    (load_module : LoadModule)
    → EachDerived P (find_derived proj_req modules load_module)
      ↔ ForDerived P proj_req modules load_module
unfolding find_derived
derived-each P proj_req [] load_module = ((λ h. tt), λ h. tt)
derived-each P proj_req (m ∷ modules) load_module =
    let rest = derived-each P proj_req modules load_module in
    elim (Option-cases (load_module m.id)) [
      | inl e ↦ rw (e, find_derived) ((λ h. ((λ spec k. cc k), rest.0 h)), λ h. rest.1 h.1)
      | inr (spec, e) ↦
          let here =
            each_in P proj_req spec spec.requirements (find_derived proj_req modules load_module) in
          rw (e, find_derived)
            (
              (λ h.
                  let (p, q) = here.0 h in
                  (
                    (λ spec' k.
                        subst
                          (λ (s : ModuleSpec).
                            All
                              (λ (r : ModuleRequirement). (r.preq_id == proj_req) ≡ true → P s r.id)
                              s.requirements)
                          (cc k) p),
                    rest.0 q,
                  )),
              λ h. here.1 (h.0 spec refl, rest.1 h.1),
            )
    ]

abbrev pub DerivedChanged : (String → Bool) → String → List Module → LoadModule → Type 0
DerivedChanged changed =
    ForDerived (λ spec req_hash. ImplementorsChanged changed spec.components req_hash)

-- No requirement derives from it.
abbrev pub NoneDerives : String → List Module → LoadModule → Type 0
NoneDerives = ForDerived (λ spec req_hash. ⊥)

unchanged_derived-Clears :
    (proj_req label : String) (changed : String → Bool) (derived : List Derived)
    → Clears (unchanged_derived proj_req label changed derived) (
        EachDerived (λ spec req_hash. ImplementorsChanged changed spec.components req_hash) derived)
unfolding unchanged_derived
unchanged_derived-Clears proj_req label changed [] = Clears-nothing tt
unchanged_derived-Clears proj_req label changed (d ∷ derived) =
    Clears-append _ _
      (Clears-trans _ (unchanged_errors-Clears _ changed (find_implementors d.1.components d.0))
        (implementors-All changed d.1.components d.0))
      (unchanged_derived-Clears proj_req label changed derived)

none_each : (derived : List Derived) → (derived ≡ []) ↔ EachDerived (λ spec req_hash. ⊥) derived
none_each [] = ((λ h. tt), λ h. refl)
none_each (d ∷ derived) = ((λ h. cc h), λ h. elim h.0 [ ])

pub project_kept-Clears :
    (proj_req title : String) (modules : List Module) (load_module : LoadModule)
    (changed : String → Bool)
    → Clears (check_project_requirement_kept proj_req title modules load_module changed) (
        (¬ NoneDerives proj_req modules load_module)
        × DerivedChanged changed proj_req modules load_module)
unfolding check_project_requirement_kept
project_kept-Clears proj_req title modules load_module changed =
    let found = find_derived proj_req modules load_module in
    let each =
      derived-each (λ spec req_hash. ImplementorsChanged changed spec.components req_hash) proj_req
        modules load_module in
    let nothing = derived-each (λ spec req_hash. ⊥) proj_req modules load_module in
    elim (List-cases found) [
      | inl e ↦
          rw (e, check_project_requirement_kept)
            (Clears-one _ [] (λ h. h.0 (nothing.0 ((none_each found).0 e))))
      | inr (d, derived, e) ↦
          let clears = unchanged_derived-Clears proj_req _ changed (d ∷ derived) in
          rw (e, check_project_requirement_kept)
            (
              (λ h. ((λ n. cc ((none_each found).1 (nothing.1 n), e)), each.0 (rw e (clears.0 h)))),
              λ h. clears.1 (rw e at (each.1 h.1)),
            )
    ]

pub project_removed-Clears :
    (proj_req title : String) (modules : List Module) (load_module : LoadModule)
    → Clears
        (check_project_requirement_removed proj_req title modules load_module)
        (NoneDerives proj_req modules load_module)
unfolding check_project_requirement_removed
project_removed-Clears proj_req title modules load_module =
    let found = find_derived proj_req modules load_module in
    let nothing = derived-each (λ spec req_hash. ⊥) proj_req modules load_module in
    Clears-trans _ (Clears-trans _ (map_empty _ found) (none_each found)) nothing

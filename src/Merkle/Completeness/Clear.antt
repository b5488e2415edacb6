-- ===== src/Merkle/Completeness/Clear.antt =====
-- Lists of errors that are empty exactly if a property holds.
use spexmachina.Prelude.{
  append_empty, String, Bool, true, false, List, [], ◌∷◌, ◌++◌, map, All, ◌≡◌, ◌↔◌, refl, inl, inr,
  Bool-cases, List-cases,
}
use spexmachina.Schema.Spec.{Component, ModuleSpec}
use spexmachina.Merkle.Completeness.{
  DiffError, implements_req, find_implementors, unchanged_errors, check_modified_requirement,
  check_added_requirement, check_removed_requirement,
}

-- There are no errors exactly if P.
abbrev pub Clears : List DiffError → Type 0 → Type 0
Clears errs P = (errs ≡ []) ↔ P

pub Clears-append :
    {P Q : Type 0} (xs ys : List DiffError) → Clears xs P → Clears ys Q → Clears (xs ++ ys) (P × Q)
Clears-append xs ys p q =
    ((λ h. let (e, f) = append_empty xs ys h in (p.0 e, q.0 f)), λ h. rw (p.1 h.0, q.1 h.1) refl)

pub Clears-nothing : {P : Type 0} → P → Clears [] P
Clears-nothing p = ((λ h. p), λ h. refl)

-- A property that fails.
pub Clears-one :
    {P : Type 0} (e : DiffError) (errs : List DiffError) → (P → ⊥) → Clears (e ∷ errs) P
Clears-one e errs no_p = ((λ h. cc h), λ h. elim (no_p h) [ ])

pub unchanged_errors-Clears :
    (error : Component → DiffError) (changed : String → Bool) (comps : List Component)
    → Clears (unchanged_errors error changed comps) (All (λ comp. changed comp.id ≡ true) comps)
unfolding unchanged_errors
unchanged_errors-Clears error changed [] = ((λ h. tt), λ h. refl)
unchanged_errors-Clears error changed (comp ∷ comps) =
    let rest = unchanged_errors-Clears error changed comps in
    elim (Bool-cases (changed comp.id)) [
      | inl e ↦ rw (e, unchanged_errors) ((λ h. (refl, rest.0 h)), λ h. rest.1 h.1)
      | inr e ↦ rw (e, unchanged_errors) ((λ h. cc h), λ h. cc h.0)
    ]

-- Every component that implements the requirement has changed.
abbrev pub ImplementorsChanged : (String → Bool) → List Component → String → Type 0
ImplementorsChanged changed comps req_hash =
    All (λ comp. implements_req comp req_hash ≡ true → changed comp.id ≡ true) comps

-- No component implements it.
abbrev pub NoneImplements : List Component → String → Type 0
NoneImplements comps req_hash = All (λ comp. implements_req comp req_hash ≡ false) comps

pub implementors-All :
    (changed : String → Bool) (comps : List Component) (req_hash : String)
    → All (λ comp. changed comp.id ≡ true) (find_implementors comps req_hash)
      ↔ ImplementorsChanged changed comps req_hash
unfolding find_implementors
implementors-All changed [] req_hash = ((λ h. tt), λ h. tt)
implementors-All changed (comp ∷ comps) req_hash =
    let rest = implementors-All changed comps req_hash in
    elim (Bool-cases (implements_req comp req_hash)) [
      | inl e ↦
          rw (e, find_implementors) ((λ h. ((λ k. h.0), rest.0 h.1)), λ h. (h.0 refl, rest.1 h.1))
      | inr e ↦ rw (e, find_implementors) ((λ h. ((λ k. cc k), rest.0 h)), λ h. rest.1 h.1)
    ]

implementors-none :
    (comps : List Component) (req_hash : String)
    → (find_implementors comps req_hash ≡ []) ↔ NoneImplements comps req_hash
unfolding find_implementors
implementors-none [] req_hash = ((λ h. tt), λ h. refl)
implementors-none (comp ∷ comps) req_hash =
    let rest = implementors-none comps req_hash in
    elim (Bool-cases (implements_req comp req_hash)) [
      | inl e ↦ rw (e, find_implementors) ((λ h. cc h), λ h. cc h.0)
      | inr e ↦ rw (e, find_implementors) ((λ h. (refl, rest.0 h)), λ h. rest.1 h.1)
    ]

pub Clears-trans : {P Q : Type 0} (errs : List DiffError) → Clears errs P → (P ↔ Q) → Clears errs Q
Clears-trans errs c i = ((λ h. i.0 (c.0 h)), λ h. c.1 (i.1 h))

pub map_empty {ℓ} : {A : Type ℓ} (f : A → DiffError) (xs : List A) → (map f xs ≡ []) ↔ (xs ≡ [])
map_empty f [] = ((λ h. refl), λ h. refl)
map_empty f (x ∷ xs) = ((λ h. cc h), λ h. cc h)

pub modified-Clears :
    (req_hash : String) (spec : ModuleSpec) (changed : String → Bool)
    → Clears
        (check_modified_requirement req_hash spec changed)
        (ImplementorsChanged changed spec.components req_hash)
unfolding check_modified_requirement
modified-Clears req_hash spec changed =
    Clears-trans _ (unchanged_errors-Clears _ changed (find_implementors spec.components req_hash))
      (implementors-All changed spec.components req_hash)

pub removed-Clears :
    (req_hash : String) (spec : ModuleSpec)
    → Clears (check_removed_requirement req_hash spec) (NoneImplements spec.components req_hash)
unfolding check_removed_requirement
removed-Clears req_hash spec =
    Clears-trans _ (map_empty _ (find_implementors spec.components req_hash))
      (implementors-none spec.components req_hash)

pub added-Clears :
    (req_hash : String) (spec : ModuleSpec) (changed : String → Bool)
    → Clears (check_added_requirement req_hash spec changed) (
        (¬ NoneImplements spec.components req_hash)
        × ImplementorsChanged changed spec.components req_hash)
unfolding check_added_requirement
added-Clears req_hash spec changed =
    let empty = implementors-none spec.components req_hash in
    let all = implementors-All changed spec.components req_hash in
    elim (List-cases (find_implementors spec.components req_hash)) [
      | inl e ↦ rw (e, check_added_requirement) (Clears-one _ [] (λ h. h.0 (empty.0 e)))
      | inr (comp, comps, e) ↦
          let each = unchanged_errors-Clears _ changed (comp ∷ comps) in
          rw (e, check_added_requirement)
            (
              (λ h. ((λ n. cc (empty.1 n, e)), all.0 (rw e (each.0 h)))),
              λ h. each.1 (rw e at (all.1 h.1)),
            )
    ]

-- ===== src/Validator/Dag/Decide.antt =====
-- Checks that end, and without errors exactly if a property holds, and how they compose.
use spexmachina.Prelude.{
  append_empty, String, Bool, true, false, List, [], ◌∷◌, ◌++◌, Option, none, some, if◌then◌else◌,
  fetch, contains, ◌≡◌, ◌↔◌, refl, ap, subst, ◌∙◌,
}
use spexmachina.Validator.Dag.{Adjacency, neighbors}
use spexmachina.Validator.Dag.Trail.{IsCycle, IsWalk}
use spexmachina.Validator.Dag.Cycles.{detect_string_cycles-IsCycle, detect_string_cycles-none}
use spexmachina.Validator.Dag.Check.{
  ValidationError, Labels, Found, append_found, report_cycles, check_graph, graph_of,
}
use spexmachina.Validator.Dag.Extra.{RawEntry, generic_graph, check_entries}

abbrev pub IsAcyclic : Adjacency → Type 0
IsAcyclic adj = (path : List String) → ¬ IsCycle adj path

-- The check ends, and without errors exactly if P.
abbrev pub Decides : Found → Type 0 → Type 0
Decides r P = (errs : List ValidationError) × (r ≡ some errs) × ((errs ≡ []) ↔ P)

pub append_found-Decides :
    {P Q : Type 0} (r r' : Found) → Decides r P → Decides r' Q → Decides (append_found r r') (P × Q)
append_found-Decides r r' (errs, e, p) (errs', e', q) = (
  errs ++ errs',
  rw (e, e') refl,
  (
    (λ h. let (f, g) = append_empty errs errs' h in (p.0 f, q.0 g)),
    λ h. rw (p.1 h.0, q.1 h.1) refl,
  ),
)

pub if-Decides :
    {P : Type 0} (b : Bool) (r : Found)
    → Decides r P
    → Decides (if b then r else some []) (b ≡ true → P)
if-Decides true r (errs, e, p) = (errs, e, ((λ h k. p.0 h), λ h. p.1 (h refl)))
if-Decides false r d = ([], refl, ((λ h k. cc k), λ h. refl))

-- The value that an option holds, if it holds one, and the rest.
pub option-Decides :
    {A : Type 0} {P : A → Type 0} {Q : Type 0} (o : Option A) (rest : Found) (f : A → Found)
    → Decides rest Q
    → ((a : A) → Decides (f a) (P a × Q))
    → Decides (elim o [ none ↦ rest | some a ↦ f a ]) (((a : A) → o ≡ some a → P a) × Q)
option-Decides none rest f (errs, e, q) d = (errs, e, ((λ h. ((λ a k. cc k), q.0 h)), λ h. q.1 h.1))
option-Decides {P = P} (some a) rest f r d =
    let (errs, e, p) = d a in
    (errs, e, ((λ h. ((λ b k. subst P (cc k) (p.0 h).0), (p.0 h).1)), λ h. p.1 (h.0 a refl, h.1)))

pub only-Decides :
    {A : Type 0} {P : A → Type 0} (o : Option A) (f : A → Found)
    → ((a : A) → Decides (f a) (P a))
    → Decides (elim o [ none ↦ some [] | some a ↦ f a ]) ((a : A) → o ≡ some a → P a)
only-Decides none f d = ([], refl, ((λ h a k. cc k), λ h. refl))
only-Decides {P = P} (some a) f d =
    let (errs, e, p) = d a in (errs, e, ((λ h b k. subst P (cc k) (p.0 h)), λ h. p.1 (h a refl)))

pub regrouped : {P P' Q : Type 0} (r : Found) → Decides r (P × (P' × Q)) → Decides r ((P × P') × Q)
regrouped r (errs, e, p) =
    (errs, e, ((λ h. let (a, (b, c)) = p.0 h in ((a, b), c)), λ h. p.1 (h.0.0, (h.0.1, h.1))))

pub nothing-Decides : Decides (some []) Unit
nothing-Decides = ([], refl, ((λ h. tt), λ h. refl))

report_cycles-empty :
    (cycles : List (List String)) (labels : Labels) (edge_kind path : String)
    → report_cycles cycles labels edge_kind path ≡ []
    → cycles ≡ []
unfolding report_cycles
report_cycles-empty [] labels edge_kind path h = refl
report_cycles-empty (c ∷ cycles) labels edge_kind path h = cc h

pub check_graph-Decides :
    (adj : Adjacency) (labels : Labels) (edge_kind path : String)
    → Decides (check_graph adj labels edge_kind path) (IsAcyclic adj)
unfolding check_graph report_cycles
check_graph-Decides adj labels edge_kind path =
    let (cycles, e, all) = detect_string_cycles-IsCycle adj in
    let acyclic = detect_string_cycles-none adj in
    (
      report_cycles cycles labels edge_kind path,
      rw (e, check_graph) refl,
      (
        (λ h. acyclic.0 (e ∙ ap some (report_cycles-empty cycles labels edge_kind path h))),
        λ h.
            let none_found : cycles ≡ [] = cc (e, acyclic.1 h) in
            ap (λ c. report_cycles c labels edge_kind path) none_found,
      ),
    )

-- A graph without nodes.
empty-IsAcyclic : IsAcyclic []
unfolding neighbors fetch contains
empty-IsAcyclic path (v, [], e, walk) = let w = subst (IsWalk []) e walk in cc w.0
empty-IsAcyclic path (v, b ∷ mid, e, walk) = let w = subst (IsWalk []) e walk in cc w.0

pub check_entries-Decides :
    (entries : List RawEntry) (edge_kind path : String)
    → Decides (check_entries entries edge_kind path) (IsAcyclic (generic_graph entries edge_kind))
unfolding check_entries graph_of
check_entries-Decides [] edge_kind path = ([], refl, ((λ h. empty-IsAcyclic), λ h. refl))
check_entries-Decides (x ∷ entries) edge_kind path = check_graph-Decides _ _ edge_kind path

-- ===== src/Validator/Dag/Total.antt =====
-- The fuel is enough for dfs, and what it answers.
use spexmachina.Prelude.{
  String, ℕ, zero, suc, ◌+◌, ◌≤◌, List, [], ◌∷◌, ◌++◌, Option, some, ◌==◌, All-append, contains,
  length, true, ◌≡◌, ◌≢◌, refl, sym, ap, subst, inl, inr, arith, ◌∙◌, Bool-cases, eq_iff, eq_refl,
}
use spexmachina.Validator.Dag.{
  Adjacency, white, gray, black, Search, paint, set_parent, neighbors, close_path, report, visit,
  visit_all, dfs, mentions,
}
use spexmachina.Validator.Dag.Trail.{
  IsEdge, IsCycle, IsChain, not_first, path_back-LeadsBack, close_path-IsCycle,
}
use spexmachina.Validator.Dag.Paint.{
  Color-cases, whites, whites-le, whites-lt, Grows-kept, Grows-black, Grows-white, Grows-paint,
  Grows-set_parent, paint-here, paint-else, parent-here,
}
use spexmachina.Validator.Dag.Order.{gray-IsOrder, finished-IsOrder}
use spexmachina.Validator.Dag.Dive.{
  IsStack, member_first, member_rest, Outcome, Outcome-refl, Outcome-trans, Grows-IsStack,
  gray-IsStack, set_parent-IsStack,
}

append_one_not_empty : (cycles : List (List String)) (c : List String) → cycles ++ c ∷ [] ≢ []
append_one_not_empty [] c e = cc e
append_one_not_empty (x ∷ xs) c e = cc e

gray_white :
    (node : String) (s : Search) (x : String)
    → (paint gray node s).color x ≡ white
    → s.color x ≡ white
gray_white node s x h = elim (Bool-cases (node == x)) [
  | inl e ↦ cc (ap (paint gray node s).color (sym ((eq_iff node x).0 e)), paint-here gray node s, h)
  | inr e ↦ sym (paint-else gray node s x e) ∙ h
]

module _ (adj : Adjacency) (bound : ℕ) where
  -- A step ends with this outcome.
  abbrev Ends : Option Search → Search → (Search → Type 0) → Type 0
  Ends r s P = (s' : Search) × (r ≡ some s') × Outcome adj s s' × P s'

  -- What dfs promises with so much fuel.
  abbrev pub Dives : ℕ → Type 0
  Dives fuel =
      (stack : List String) (node : String) (s : Search)
      → IsStack adj stack s
      → IsChain adj s.parent (node ∷ stack)
      → s.color node ≡ white
      → contains (mentions adj) node ≡ true
      → whites s.color (mentions adj) ≤ fuel
      → length stack + fuel ≤ bound
      → Ends (dfs adj bound fuel node s) s (λ s'. s'.color node ≡ black)

  report-Ends :
      (stack : List String) (node neighbor : String) (s : Search)
      → IsStack adj (node ∷ stack) s
      → IsEdge adj node neighbor
      → s.color neighbor ≡ gray
      → length stack ≤ bound
      → Ends (report bound node neighbor s) s (λ s'. s'.cycles ≡ [] → s'.color neighbor ≡ black)
  unfolding report
  report-Ends stack node neighbor s (grays, there, chain) edge g fits =
      let (path, e, walk) =
        path_back-LeadsBack adj s.parent bound node stack neighbor (neighbor ∷ []) fits chain
          (there neighbor g) (edge, tt) in
      let cycle = close_path-IsCycle adj neighbor path walk in
      (
        record s { cycles = s.cycles ++ close_path neighbor path ∷ [] },
        rw (e, report) refl,
        (
          (λ x. inl (refl, refl)),
          (
            (λ h. All-append (IsCycle adj) s.cycles (close_path neighbor path ∷ []) h (cycle, tt)),
            λ h. elim (append_one_not_empty s.cycles (close_path neighbor path) h) [ ],
          ),
        ),
        λ h. elim (append_one_not_empty s.cycles (close_path neighbor path) h) [ ],
      )

  module _ (fuel : ℕ) (dives : Dives fuel)
      (edges : (a b : String) → IsEdge adj a b → contains (mentions adj) b ≡ true) where
    visit-Ends :
        (stack : List String) (node neighbor : String) (s : Search)
        → IsStack adj (node ∷ stack) s
        → IsEdge adj node neighbor
        → whites s.color (mentions adj) ≤ fuel
        → length (node ∷ stack) + fuel ≤ bound
        → Ends
            (visit (dfs adj bound fuel) bound node neighbor s)
            s
            (λ s'. s'.cycles ≡ [] → s'.color neighbor ≡ black)
    unfolding visit
    visit-Ends stack node neighbor s st edge few fits = elim (Color-cases (s.color neighbor)) [
      | inl w ↦
          let (s', e, (g, faithful), b) =
            dives (node ∷ stack) neighbor (set_parent neighbor node s)
              (set_parent-IsStack adj (node ∷ stack) neighbor node s w st)
              (
                parent-here neighbor node s,
                edge,
                (set_parent-IsStack adj (node ∷ stack) neighbor node s w st).2,
              )
              w (edges node neighbor edge) few fits in
          (s', rw (w, e, visit) refl, (Grows-set_parent neighbor node s s' w b g, faithful), λ h. b)
      | inr (inl g) ↦
          let (s', e, outcome, b) = report-Ends stack node neighbor s st edge g (omega arith) in
          (s', rw (g, visit) e, outcome, b)
      | inr (inr b) ↦ (s, rw (b, visit) refl, Outcome-refl adj s, λ h. b)
    ]

    visit_all-Ends :
        (stack : List String) (node : String) (ns : List String) (s : Search)
        → IsStack adj (node ∷ stack) s
        → ((t : String) → contains ns t ≡ true → IsEdge adj node t)
        → whites s.color (mentions adj) ≤ fuel
        → length (node ∷ stack) + fuel ≤ bound
        → Ends
            (visit_all (dfs adj bound fuel) bound node ns s)
            s
            (λ s'. s'.cycles ≡ [] → (t : String) → contains ns t ≡ true → s'.color t ≡ black)
    unfolding visit_all contains
    visit_all-Ends stack node [] s st all few fits = (s, refl, Outcome-refl adj s, λ h t k. cc k)
    visit_all-Ends stack node (n ∷ ns) s st all few fits =
        let (s', e, (g, faithful), b) =
          visit-Ends stack node n s st (all n (member_first n n ns (eq_refl n))) few fits in
        let fewer = whites-le s.color s'.color (mentions adj) (Grows-white s s' g) in
        let (s'', e', (g', faithful'), b') =
          visit_all-Ends stack node ns s' (Grows-IsStack adj (node ∷ stack) s s' g st)
            (λ t k. all t (member_rest n t ns k)) (omega (arith, fewer, few)) fits in
        (
          s'',
          rw (e, visit_all) e',
          Outcome-trans adj s s' s'' (g, faithful) (g', faithful'),
          λ h t k. elim (Bool-cases (n == t)) [
            | inl same ↦
                subst (λ x. s''.color x ≡ black) ((eq_iff n t).0 same)
                  (Grows-black s' s'' g' n (b (faithful'.1 h).0))
            | inr other ↦ b' h t (not_first n t ns other k)
          ],
        )

    dfs_step :
        (stack : List String) (node : String) (s : Search)
        → IsStack adj stack s
        → IsChain adj s.parent (node ∷ stack)
        → s.color node ≡ white
        → contains (mentions adj) node ≡ true
        → whites s.color (mentions adj) ≤ suc fuel
        → length stack + suc fuel ≤ bound
        → Ends (dfs adj bound (suc fuel) node s) s (λ s'. s'.color node ≡ black)
    unfolding dfs
    dfs_step stack node s st chain w there few fits =
        let painted = paint gray node s in
        let fewer =
          whites-lt s.color painted.color (mentions adj) node (gray_white node s) there w
            (paint-here gray node s) in
        let (s', e, (g, (sound, back)), b) =
          visit_all-Ends stack node (neighbors adj node) painted
            (gray-IsStack adj stack node s w st chain) (λ t k. k) (omega (arith, fewer, few))
            (omega (arith, fits)) in
        let is_gray =
          (Grows-kept painted s' g node (λ k. cc (k, paint-here gray node s))).0
          ∙ paint-here gray node s in
        (
          paint black node s',
          rw (e, dfs) refl,
          (
            Grows-paint node s s' w g,
            (
              sound,
              λ h.
                  let (none_before, orders) = back h in
                  (
                    none_before,
                    λ order o.
                        let (order', o') = orders order (gray-IsOrder adj node s order w o) in
                        (node ∷ order', finished-IsOrder adj node s' order' is_gray (b h) o'),
                  ),
            ),
          ),
          paint-here black node s',
        )

  pub dfs-Dives :
      ((a b : String) → IsEdge adj a b → contains (mentions adj) b ≡ true) → (fuel : ℕ) → Dives fuel
  dfs-Dives edges zero = λ stack node s st chain w there few fits.
      let fewer =
        whites-lt s.color (paint gray node s).color (mentions adj) node (gray_white node s) there w
          (paint-here gray node s) in
      let no_fuel : ⊥ = omega (arith, fewer, few) in elim no_fuel [ ]
  dfs-Dives edges (suc fuel) = dfs_step fuel (dfs-Dives edges fuel) edges

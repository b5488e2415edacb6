-- ===== src/Validator/Dag/Dive.antt =====
-- What a call of dfs and the loop over the neighbors do, under the invariant of the gray nodes.
use spexmachina.Prelude.{
  String, List, [], ◌∷◌, ◌==◌, All, All-imp, contains, true, ◌≡◌, refl, sym, inl, inr, arith,
  Bool-cases, eq_iff, ◌∙◌,
}
use spexmachina.Validator.Dag.{Adjacency, white, gray, Search, paint, set_parent}
use spexmachina.Validator.Dag.Trail.{IsCycle, IsChain}
use spexmachina.Validator.Dag.Paint.{
  Grows, Grows-refl, Grows-trans, Grows-kept, Grows-gray, paint-here, paint-else, parent-else,
}
use spexmachina.Validator.Dag.Order.{IsOrder}

-- The stack holds the gray nodes, each the child of the next.
abbrev pub IsStack : Adjacency → List String → Search → Type 0
IsStack adj stack s =
    All (λ x. s.color x ≡ gray) stack
    × ((x : String) → s.color x ≡ gray → contains stack x ≡ true)
    × IsChain adj s.parent stack

-- The cycles stay cycles, and if there are none, then there were none and the finished nodes are in
-- order again.
abbrev pub IsFaithful : Adjacency → Search → Search → Type 0
IsFaithful adj s s' =
    (All (IsCycle adj) s.cycles → All (IsCycle adj) s'.cycles)
    × (s'.cycles ≡ []
        → (s.cycles ≡ [])
          × ((order : List String)
              → IsOrder adj s order
              → (order' : List String) × IsOrder adj s' order'))

abbrev pub Outcome : Adjacency → Search → Search → Type 0
Outcome adj s s' = Grows s s' × IsFaithful adj s s'

IsChain-cong :
    (adj : Adjacency) (parent parent' : String → String) (stack : List String)
    → All (λ x. parent' x ≡ parent x) stack
    → IsChain adj parent stack
    → IsChain adj parent' stack
IsChain-cong adj parent parent' [] h c = tt
IsChain-cong adj parent parent' (a ∷ []) h c = tt
IsChain-cong adj parent parent' (a ∷ b ∷ rest) h c =
    (h.0 ∙ c.0, c.1, IsChain-cong adj parent parent' (b ∷ rest) h.1 c.2)

pub Outcome-refl : (adj : Adjacency) (s : Search) → Outcome adj s s
Outcome-refl adj s = (Grows-refl s, ((λ h. h), λ e. (e, λ order o. (order, o))))

pub Outcome-trans :
    (adj : Adjacency) (s t u : Search) → Outcome adj s t → Outcome adj t u → Outcome adj s u
Outcome-trans adj s t u (g, (sound, back)) (h, (sound', back')) = (
  Grows-trans s t u g h,
  (
    (λ c. sound' (sound c)),
    λ e.
        let (e', orders') = back' e in
        let (e'', orders) = back e' in
        (e'', λ order o. let (order', o') = orders order o in orders' order' o'),
  ),
)

pub Grows-IsStack :
    (adj : Adjacency) (stack : List String) (s s' : Search)
    → Grows s s'
    → IsStack adj stack s
    → IsStack adj stack s'
Grows-IsStack adj stack s s' g (grays, there, chain) = (
  All-imp stack (λ x e. (Grows-kept s s' g x (λ w. cc (e, w))).0 ∙ e) grays,
  (λ x e. there x (Grows-gray s s' g x e)),
  IsChain-cong adj s.parent s'.parent stack
      (All-imp stack (λ x e. (Grows-kept s s' g x (λ w. cc (e, w))).1) grays) chain,
)

pub member_first :
    (y x : String) (stack : List String) → (y == x) ≡ true → contains (y ∷ stack) x ≡ true
unfolding contains
member_first y x stack h = rw h refl

pub member_rest :
    (y x : String) (stack : List String) → contains stack x ≡ true → contains (y ∷ stack) x ≡ true
unfolding contains
member_rest y x stack h = ground (arith, h)

pub gray-IsStack :
    (adj : Adjacency) (stack : List String) (node : String) (s : Search)
    → s.color node ≡ white
    → IsStack adj stack s
    → IsChain adj s.parent (node ∷ stack)
    → IsStack adj (node ∷ stack) (paint gray node s)
gray-IsStack adj stack node s w (grays, there, chain) next = (
  (
    paint-here gray node s,
    All-imp stack
        (λ x e. elim (Bool-cases (node == x)) [
          | inl k ↦ cc e
          | inr k ↦ paint-else gray node s x k ∙ e
        ])
        grays,
  ),
  (λ x e. elim (Bool-cases (node == x)) [
    | inl k ↦ member_first node x stack k
    | inr k ↦ member_rest node x stack (there x (sym (paint-else gray node s x k) ∙ e))
  ]),
  next,
)

pub set_parent-IsStack :
    (adj : Adjacency) (stack : List String) (child node : String) (s : Search)
    → s.color child ≡ white
    → IsStack adj stack s
    → IsStack adj stack (set_parent child node s)
set_parent-IsStack adj stack child node s w (grays, there, chain) = (
  grays,
  there,
  IsChain-cong adj s.parent (set_parent child node s).parent stack
      (All-imp stack
        (λ x e. elim (Bool-cases (child == x)) [
          | inl k ↦ cc ((eq_iff child x).0 k, w, e)
          | inr k ↦ parent-else child node s x k
        ])
        grays)
      chain,
)

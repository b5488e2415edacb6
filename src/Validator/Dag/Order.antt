-- ===== src/Validator/Dag/Order.antt =====
-- The black nodes in the order in which they were finished, the last one first.
use spexmachina.Prelude.{
  String, List, [], ◌∷◌, ◌==◌, contains, true, false, ◌≡◌, ◌≢◌, ◌↔◌, refl, sym, ap, inl, inr, Bool,
  Bool-cases, eq_iff, eq_refl, ◌∙◌,
}
use spexmachina.Validator.Dag.{Adjacency, white, gray, black, Search, paint}
use spexmachina.Validator.Dag.Trail.{IsEdge}
use spexmachina.Validator.Dag.Paint.{paint-here, paint-else}

-- Every edge leads to a node that was finished earlier.
abbrev pub IsClosed : Adjacency → List String → Type 0
IsClosed adj [] = Unit
IsClosed adj (x ∷ rest) =
    (contains rest x ≡ false)
    × ((t : String) → IsEdge adj x t → contains rest t ≡ true)
    × IsClosed adj rest

abbrev pub IsOrder : Adjacency → Search → List String → Type 0
IsOrder adj s order =
    IsClosed adj order × ((x : String) → (contains order x ≡ true) ↔ (s.color x ≡ black))

not_there : (b : Bool) → (b ≡ true → ⊥) → b ≡ false
not_there true h = elim (h refl) [ ]
not_there false h = refl

pub order-misses :
    (adj : Adjacency) (s : Search) (order : List String) (x : String)
    → IsOrder adj s order
    → s.color x ≢ black
    → contains order x ≡ false
order-misses adj s order x o h = not_there (contains order x) (λ e. h ((o.1 x).0 e))

pub gray-IsOrder :
    (adj : Adjacency) (node : String) (s : Search) (order : List String)
    → s.color node ≡ white
    → IsOrder adj s order
    → IsOrder adj (paint gray node s) order
gray-IsOrder adj node s order w o = (
  o.0,
  λ x. elim (Bool-cases (node == x)) [
    | inl e ↦
        let same = (eq_iff node x).0 e in
        let was : s.color x ≡ white = ap s.color (sym same) ∙ w in
        let is : (paint gray node s).color x ≡ gray =
          ap (paint gray node s).color (sym same) ∙ paint-here gray node s in
        ((λ h. cc (was, (o.1 x).0 h)), (λ h. cc (is, h)))
    | inr e ↦ (
      (λ h. paint-else gray node s x e ∙ (o.1 x).0 h),
      (λ h. (o.1 x).1 (sym (paint-else gray node s x e) ∙ h)),
    )
  ],
)

contains-here : (x : String) (xs : List String) → contains (x ∷ xs) x ≡ true
unfolding contains
contains-here x xs = rw (eq_refl x) refl

contains-else :
    (y x : String) (xs : List String) → (y == x) ≡ false → contains (y ∷ xs) x ≡ contains xs x
unfolding contains
contains-else y x xs h = rw h refl

pub finished-IsOrder :
    (adj : Adjacency) (node : String) (s : Search) (order : List String)
    → s.color node ≡ gray
    → ((t : String) → IsEdge adj node t → s.color t ≡ black)
    → IsOrder adj s order
    → IsOrder adj (paint black node s) (node ∷ order)
finished-IsOrder adj node s order g h o = (
  (order-misses adj s order node o (λ b. cc (g, b)), (λ t e. (o.1 t).1 (h t e)), o.0),
  λ x. elim (Bool-cases (node == x)) [
    | inl e ↦
        let same = (eq_iff node x).0 e in
        (
          (λ k. ap (paint black node s).color (sym same) ∙ paint-here black node s),
          (λ k. ap (contains (node ∷ order)) (sym same) ∙ contains-here node order),
        )
    | inr e ↦ (
      (λ k. paint-else black node s x e ∙ (o.1 x).0 (sym (contains-else node x order e) ∙ k)),
      (λ k. contains-else node x order e ∙ (o.1 x).1 (sym (paint-else black node s x e) ∙ k)),
    )
  ],
)

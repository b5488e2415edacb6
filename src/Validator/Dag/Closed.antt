-- ===== src/Validator/Dag/Closed.antt =====
-- No cycle passes through nodes that were finished in order.
use spexmachina.Prelude.{
  String, List, [], ◌∷◌, ◌++◌, ◌==◌, All, contains, true, ◌≡◌, sym, ap, subst, inl, inr, Bool-cases,
  eq_iff,
}
use spexmachina.Validator.Dag.{Adjacency}
use spexmachina.Validator.Dag.Trail.{IsEdge, IsWalk, not_first}
use spexmachina.Validator.Dag.Order.{IsClosed}
use spexmachina.Validator.Dag.Dive.{member_rest}

closed_step :
    (adj : Adjacency) (order : List String) (a b : String)
    → IsClosed adj order
    → contains order a ≡ true
    → IsEdge adj a b
    → contains order b ≡ true
unfolding contains
closed_step adj [] a b closed there edge = cc there
closed_step adj (x ∷ order) a b closed there edge = elim (Bool-cases (x == a)) [
  | inl e ↦
      member_rest x b order
        (closed.1 b (subst (λ (y : String). IsEdge adj y b) (sym ((eq_iff x a).0 e)) edge))
  | inr e ↦
      member_rest x b order (closed_step adj order a b closed.2 (not_first x a order e there) edge)
]

walk_stays :
    (adj : Adjacency) (order : List String) (a : String) (rest : List String)
    → IsClosed adj order
    → contains order a ≡ true
    → IsWalk adj (a ∷ rest)
    → All (λ x. contains order x ≡ true) rest
walk_stays adj order a [] closed there walk = tt
walk_stays adj order a (b ∷ rest) closed there walk =
    let next = closed_step adj order a b closed there walk.0 in
    (next, walk_stays adj order b rest closed next walk.1)

All-last : (P : String → Type 0) (mid : List String) (v : String) → All P (mid ++ v ∷ []) → P v
All-last P [] v h = h.0
All-last P (x ∷ mid) v h = All-last P mid v h.1

-- A closed walk from the last node that was finished comes back to it.
comes_back :
    (adj : Adjacency) (order : List String) (v : String) (mid : List String)
    → IsClosed adj order
    → ((t : String) → IsEdge adj v t → contains order t ≡ true)
    → IsWalk adj (v ∷ mid ++ v ∷ [])
    → contains order v ≡ true
comes_back adj order v [] closed edges walk = edges v walk.0
comes_back adj order v (b ∷ mid) closed edges walk =
    All-last (λ x. contains order x ≡ true) mid v
      (walk_stays adj order b (mid ++ v ∷ []) closed (edges b walk.0) walk.1)

pub closed_acyclic :
    (adj : Adjacency) (order : List String) (v : String) (mid : List String)
    → IsClosed adj order
    → contains order v ≡ true
    → IsWalk adj (v ∷ mid ++ v ∷ [])
    → ⊥
unfolding contains
closed_acyclic adj [] v mid closed there walk = cc there
closed_acyclic adj (x ∷ order) v mid closed there walk = elim (Bool-cases (x == v)) [
  | inl e ↦
      let same = (eq_iff x v).0 e in
      let again =
        comes_back adj order v mid closed.2
          (subst (λ (y : String). (t : String) → IsEdge adj y t → contains order t ≡ true) same
            closed.1)
          walk in
      cc (closed.0, ap (contains order) same, again)
  | inr e ↦ closed_acyclic adj order v mid closed.2 (not_first x v order e there) walk
]

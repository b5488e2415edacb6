-- ===== src/Plan/Sorter/Layers.antt =====
-- What the two checks of Sort establish before any layer is sorted: every action has a layer, and
-- no dep lies in a later layer than its dependent.
use mathlib.Core.List.{append-eq-nil_iff}
use spexmachina.Prelude.{
  ℕ, suc, ◌+◌, ◌≤◌, String, List, [], ◌∷◌, false, Option, none, some, eq_refl, length, All, count,
  contains, contains-count, update, ok, bind-ok, ◌≡◌, refl, arith,
}
use spexmachina.Plan.Types.{Action}
use spexmachina.Plan.Kahn.{ids}
use spexmachina.Plan.Kahn.Run.{IsUnique}
use spexmachina.Plan.Sorter.{
  layer_index, layer_for, assign, layer_or_zero, forward_deps, all_forward_deps,
  check_no_forward_layer_deps,
}

-- The layer of a placed action is the one that layerFor answers.
abbrev pub HasLayer : (String → Option ℕ) → ℕ → (String → Option ℕ) → Action → Type 0
HasLayer index cleanup_layer layer_of a =
    (l : ℕ) × (layer_for a index cleanup_layer ≡ ok l) × (layer_of a.spec_node_id ≡ some l)

module _ (index : String → Option ℕ) (cleanup_layer : ℕ) where
  assign_absent :
      (actions : List Action) (start layer_of : String → Option ℕ) (x : String)
      → assign index cleanup_layer actions start ≡ ok layer_of
      → count x (ids actions) ≡ 0
      → layer_of x ≡ start x
  unfolding assign count
  assign_absent [] start layer_of x e none_here = ground arith
  assign_absent (a ∷ rest) start layer_of x e none_here =
      let (l, _, e') = bind-ok (layer_for a index cleanup_layer) _ e in
      ground (arith, assign_absent rest (update start a.spec_node_id (some l)) layer_of x e')

  pub assign-ok :
      (actions : List Action) (start layer_of : String → Option ℕ)
      → IsUnique actions
      → assign index cleanup_layer actions start ≡ ok layer_of
      → All (HasLayer index cleanup_layer layer_of) actions
  unfolding assign count
  assign-ok [] start layer_of unique e = tt
  assign-ok (a ∷ rest) start layer_of unique e =
      let (l, here, e') = bind-ok (layer_for a index cleanup_layer) _ e in
      (
        (
          l,
          here,
          ground (
            arith,
            unique a.spec_node_id,
            eq_refl a.spec_node_id,
            assign_absent rest (update start a.spec_node_id (some l)) layer_of a.spec_node_id e',
          ),
        ),
        assign-ok rest (update start a.spec_node_id (some l)) layer_of
            (λ x. ground (arith, unique x)) e',
      )

  pub assign-absent_none :
      (actions : List Action) (layer_of : String → Option ℕ) (x : String)
      → assign index cleanup_layer actions (λ id. none) ≡ ok layer_of
      → contains (ids actions) x ≡ false
      → layer_of x ≡ none
  assign-absent_none actions layer_of x e h =
      assign_absent actions (λ id. none) layer_of x e (contains-count (ids actions) x h)

  -- An action that layerFor places lets the loop go on.
  pub assign_total :
      (actions : List Action) (start : String → Option ℕ)
      → All (λ a. (l : ℕ) × (layer_for a index cleanup_layer ≡ ok l)) actions
      → (layer_of : String → Option ℕ) × (assign index cleanup_layer actions start ≡ ok layer_of)
  unfolding assign
  assign_total [] start h = (start, refl)
  assign_total (a ∷ rest) start h =
      rw h.0.1 (assign_total rest (update start a.spec_node_id (some h.0.0)) h.1)

layer_index-le :
    (i : ℕ) (ts : List String) (m : String → Option ℕ) (t : String) (l : ℕ)
    → ((l : ℕ) → m t ≡ some l → l ≤ i)
    → layer_index i ts m t ≡ some l
    → l ≤ i + length ts
unfolding layer_index
layer_index-le i [] m t l bound e = omega (arith, bound l e)
layer_index-le i (u ∷ ts) m t l bound e = omega (
  arith,
  layer_index-le (suc i) ts (update m u (some (suc i))) t l (λ l' e'. ground (arith, bound l')) e,
)

-- No layer lies behind the cleanup layer.
pub layer_for-le :
    (a : Action) (plan_relevant : List String) (l : ℕ)
    → layer_for a (layer_index 0 plan_relevant (λ t. none)) (length plan_relevant + 1) ≡ ok l
    → l ≤ length plan_relevant + 1
unfolding layer_for
layer_for-le a plan_relevant l e =
    ground (arith, layer_index-le 0 plan_relevant (λ t. none) a.node_type l (λ l' e'. cc))

-- No dep of the action lies in a later layer.
abbrev pub NoForward : (String → Option ℕ) → Action → Type 0
NoForward layer_of a =
    All (λ dep. layer_or_zero layer_of dep ≤ layer_or_zero layer_of a.spec_node_id)
      a.dep_spec_node_ids

module _ (layer_of : String → Option ℕ) where
  forward_deps_none :
      (id : String) (deps : List String)
      → forward_deps layer_of id deps ≡ []
      → All (λ dep. layer_or_zero layer_of dep ≤ layer_or_zero layer_of id) deps
  unfolding forward_deps
  forward_deps_none id [] e = tt
  forward_deps_none id (d ∷ deps) e = (ground arith, forward_deps_none id deps (ground arith))

  all_forward_deps_none :
      (actions : List Action)
      → all_forward_deps layer_of actions ≡ []
      → All (NoForward layer_of) actions
  unfolding all_forward_deps
  all_forward_deps_none [] e = tt
  all_forward_deps_none (a ∷ rest) e =
      let (here, there) = append-eq-nil_iff.0 e in
      (forward_deps_none a.spec_node_id a.dep_spec_node_ids here, all_forward_deps_none rest there)

  pub check-ok :
      (actions : List Action)
      → check_no_forward_layer_deps actions layer_of ≡ ok tt
      → All (NoForward layer_of) actions
  unfolding check_no_forward_layer_deps
  check-ok actions e = all_forward_deps_none actions (ground arith)

  forward_deps_of_none :
      (id : String) (deps : List String)
      → All (λ dep. layer_or_zero layer_of dep ≤ layer_or_zero layer_of id) deps
      → forward_deps layer_of id deps ≡ []
  unfolding forward_deps
  forward_deps_of_none id [] h = refl
  forward_deps_of_none id (d ∷ deps) h = ground (arith, h.0, forward_deps_of_none id deps h.1)

  all_forward_deps_of_none :
      (actions : List Action)
      → All (NoForward layer_of) actions
      → all_forward_deps layer_of actions ≡ []
  unfolding all_forward_deps
  all_forward_deps_of_none [] h = refl
  all_forward_deps_of_none (a ∷ rest) h = append-eq-nil_iff.1 (
    forward_deps_of_none a.spec_node_id a.dep_spec_node_ids h.0,
    all_forward_deps_of_none rest h.1,
  )

  pub check_total :
      (actions : List Action)
      → All (NoForward layer_of) actions
      → check_no_forward_layer_deps actions layer_of ≡ ok tt
  unfolding check_no_forward_layer_deps
  check_total actions h = rw (all_forward_deps_of_none actions h, check_no_forward_layer_deps)

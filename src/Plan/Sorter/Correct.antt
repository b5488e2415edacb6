-- ===== src/Plan/Sorter/Correct.antt =====
-- Sort returns the batch, each create once and behind every dep of it that is in the batch.
use mathlib.Core.List.{Permᴰ, append_assoc, append-nil, map-append}
use mathlib.Core.List.Permᴰ as PermD
use mathlib.Core.Path.{subst₂}
use spexmachina.Prelude.{
  ℕ, zero, suc, ◌+◌, ◌<◌, String, List, [], ◌∷◌, ◌++◌, true, false, Option, none, length, All,
  All-imp, All-of_forall, All-Permᴰ, keep, contains, count-contains, contains_of_count, leb, nat_eq,
  nat_eq_iff, ok, bind-ok, ◌≡◌, subst, List-cases, contains-Permᴰ, arith, inl, inr, ◌⊎◌,
}
use spexmachina.Plan.Types.{Action}
use spexmachina.Plan.Kahn.{ids, kahn_sort}
use spexmachina.Plan.Kahn.Run.{IsUnique}
use spexmachina.Plan.Kahn.Order.{DepsFirst, kahn_sort-ok}
use spexmachina.Plan.Sorter.{
  layer_index, layer_or_zero, assign, check_no_forward_layer_deps, in_layer, sort_layers, sort,
}
use spexmachina.Plan.Sorter.Layers.{NoForward, HasLayer, assign-ok, layer_for-le, check-ok}
use spexmachina.Plan.Sorter.Batch.{
  keep_from, keep_none, keep_whole, All-keep, count-ids-keep, count-ids-keep_by, contains-append,
  DepsFirst-append, DepsFirst-behind,
}

pub IsUnique-in_layer :
    (actions : List Action) (layer_of : String → Option ℕ)
    → IsUnique actions
    → (layer : ℕ) → IsUnique (in_layer actions layer_of layer)
IsUnique-in_layer actions layer_of unique layer x = omega (
  arith,
  unique x,
  count-ids-keep (λ a. nat_eq (layer_or_zero layer_of a.spec_node_id) layer) actions x,
)

module _ (actions : List Action) (layer_of : String → Option ℕ) where
  -- What stands in `ordered` before layer `layer` is sorted.
  record Progress (layer : ℕ) (ordered : List Action) : Type 0 where
    placed :
        Permᴰ actions
          (ordered ++ keep (λ a. leb layer (layer_or_zero layer_of a.spec_node_id)) actions)
    first : DepsFirst (contains (ids actions)) [] ordered
    covers :
        (x : String)
        → contains (ids actions) x ≡ true
        → layer_or_zero layer_of x < layer
        → contains (ids ordered) x ≡ true

  begin : Progress 0 []
  begin = record {
    placed =
        rw
          (keep_whole (λ a. leb 0 (layer_or_zero layer_of a.spec_node_id)) actions
            (All-of_forall _ actions (λ a. ground arith)))
          (PermD.refl actions);
    first = tt;
    covers = λ x here le. absurd (omega arith);
  }

  module _ (unique : IsUnique actions) (forward : All (NoForward layer_of) actions) where
    contains-kept :
        (layer : ℕ) (x : String)
        → contains (ids actions) x ≡ true
        → layer_or_zero layer_of x ≡ layer
        → contains (ids (in_layer actions layer_of layer)) x ≡ true
    contains-kept layer x here e = contains_of_count (ids (in_layer actions layer_of layer)) x (
        omega (
          arith,
          count-contains (ids actions) x here,
          count-ids-keep_by (λ y. nat_eq (layer_or_zero layer_of y) layer) actions x
              ((nat_eq_iff (layer_or_zero layer_of x) layer).1 e),
        ))

    -- The deps of a layer's actions lie in the layer or are placed.
    layer_deps :
        (layer : ℕ) (ordered : List Action)
        → Progress layer ordered
        → All
            (λ a.
              All
                (λ dep.
                  contains (ids actions) dep ≡ true
                  → (contains (ids (in_layer actions layer_of layer)) dep ≡ true)
                    ⊎ (contains (ids ordered) dep ≡ true))
                a.dep_spec_node_ids)
            (in_layer actions layer_of layer)
    layer_deps layer ordered p =
        All-imp (in_layer actions layer_of layer)
          (λ a h.
            All-imp a.dep_spec_node_ids
              (λ dep le here. ground (arith, contains-kept layer dep here, p.covers dep here)) h.0)
          (All-keep (NoForward layer_of) (λ a. nat_eq (layer_or_zero layer_of a.spec_node_id) layer)
            actions forward)

    advance :
        (layer : ℕ) (ordered layer_order : List Action)
        → Progress layer ordered
        → Permᴰ (in_layer actions layer_of layer) layer_order
        → DepsFirst (contains (ids (in_layer actions layer_of layer))) [] layer_order
        → Progress (suc layer) (ordered ++ layer_order)
    advance layer ordered layer_order p perm deps = record {
      placed = Permᴰ.trans p.placed (
          rw append_assoc (
            PermD.append_left ordered (
              Permᴰ.trans (keep_from (λ a. layer_or_zero layer_of a.spec_node_id) layer actions)
                (PermD.append_right _ perm))));
      first = DepsFirst-append (contains (ids actions)) [] ordered layer_order p.first (
          rw append-nil at (
            DepsFirst-behind (contains (ids (in_layer actions layer_of layer)))
              (contains (ids actions)) (ids ordered) [] layer_order
              (All-Permᴰ _ perm (layer_deps layer ordered p)) deps));
      covers = λ x here le.
          rw (map-append, contains-append)
            (ground (
              arith,
              p.covers x here,
              contains-kept layer x here,
              contains-Permᴰ {xs = ids (in_layer actions layer_of layer)} {ys = ids layer_order} x
                  (PermD.map (λ a. a.spec_node_id) perm),
            ));
    }

    sort_layers-ok :
        (rounds layer : ℕ) (ordered out : List Action)
        → Progress layer ordered
        → sort_layers actions layer_of rounds layer ordered ≡ ok out
        → Progress (layer + rounds) out
    unfolding sort_layers
    sort_layers-ok zero layer ordered out p e =
        subst₂ Progress {x = layer} (omega arith) (ground arith) p
    sort_layers-ok (suc rounds) layer ordered out p e =
        elim (List-cases (in_layer actions layer_of layer)) [
          | inl empty ↦
              let stays : Progress (suc layer) ordered =
                rw append-nil at (advance layer ordered [] p (rw empty Permᴰ.nil) tt) in
              subst (λ l. Progress l out) (omega arith)
                (sort_layers-ok rounds (suc layer) ordered out stays (rw (empty, sort_layers) at e))
          | inr (n, ns, some_here) ↦
              let (layer_order, sorted, rest) =
                bind-ok (kahn_sort (n ∷ ns))
                  (λ l. sort_layers actions layer_of rounds (suc layer) (ordered ++ l))
                  (rw (some_here, sort_layers) at e) in
              let (perm, deps) =
                kahn_sort-ok (in_layer actions layer_of layer)
                  (IsUnique-in_layer actions layer_of unique layer) layer_order
                  (rw some_here sorted) in
              subst (λ l. Progress l out) (omega arith)
                (sort_layers-ok rounds (suc layer) (ordered ++ layer_order) out
                  (advance layer ordered layer_order p perm deps) rest)
        ]

-- Every layer lies before the bound of the loop.
within :
    (actions : List Action) (plan_relevant : List String) (layer_of : String → Option ℕ)
    → All
        (HasLayer (layer_index 0 plan_relevant (λ t. none)) (length plan_relevant + 1) layer_of)
        actions
    → All
        (λ a.
          leb (0 + (length plan_relevant + 1 + 1)) (layer_or_zero layer_of a.spec_node_id) ≡ false)
        actions
within actions plan_relevant layer_of h =
    All-imp actions
      (λ a (l, e, e'). rw (e', layer_or_zero) (ground (arith, layer_for-le a plan_relevant l e))) h

-- If Sort succeeds on a batch with one create for each spec node, it returns the creates of the
-- batch, each as often as given, and every create stands behind each of its deps that is in the batch.
pub sort-ok :
    (actions : List Action) (plan_relevant : List String) (out : List Action)
    → IsUnique actions
    → sort actions plan_relevant ≡ ok out
    → Permᴰ actions out × DepsFirst (contains (ids actions)) [] out
unfolding sort
sort-ok actions plan_relevant out unique e =
    let (layer_of, assigned, e₁) =
      bind-ok
        (assign (layer_index 0 plan_relevant (λ t. none)) (length plan_relevant + 1) actions
          (λ id. none))
        _ e in
    let (u, checked, e₂) = bind-ok (check_no_forward_layer_deps actions layer_of) _ e₁ in
    let end =
      sort_layers-ok actions layer_of unique (check-ok layer_of actions checked)
        (length plan_relevant + 1 + 1) 0 [] out (begin actions layer_of) e₂ in
    (
      rw
          (
            keep_none _ actions (
                within actions plan_relevant layer_of
                  (assign-ok _ _ actions (λ id. none) layer_of unique assigned)),
            append-nil,
          )
          at end.placed,
      end.first,
    )

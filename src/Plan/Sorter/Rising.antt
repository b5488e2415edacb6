-- ===== src/Plan/Sorter/Rising.antt =====
-- Sort emits the layers in order: the epic first, the plan-relevant types as declared, cleanups last.
use spexmachina.Prelude.{
  ℕ, Bool, zero, suc, ◌+◌, ◌≤◌, String, List, [], ◌∷◌, ◌++◌, Option, none, false, length, All,
  All-imp, All-zip, All-append, All-Permᴰ, All-of_forall, ltb, nat_eq, nat_eq_iff, IsSorted, ok,
  err, bind-ok, ◌≡◌, subst, arith, inl, inr, List-cases,
}
use spexmachina.Plan.Types.{Action}
use spexmachina.Plan.Kahn.{kahn_sort}
use spexmachina.Plan.Kahn.Run.{IsUnique}
use spexmachina.Plan.Kahn.Order.{kahn_sort-ok}
use spexmachina.Plan.Sorter.{
  layer_index, layer_for, layer_or_zero, assign, check_no_forward_layer_deps, in_layer, sort_layers,
  sort,
}
use spexmachina.Plan.Sorter.Layers.{assign-ok}
use spexmachina.Plan.Sorter.Batch.{All-keep}
use spexmachina.Plan.Sorter.Correct.{sort-ok, IsUnique-in_layer}

-- The layer number that layerFor answers for an action, 0 where it refuses.
abbrev pub layer_number : List String → Action → ℕ
layer_number plan_relevant a =
    elim (layer_for a (layer_index 0 plan_relevant (λ t. none)) (length plan_relevant + 1)) [
      | ok l ↦ l
      | err e ↦ 0
    ]

abbrev pub by_number : (Action → ℕ) → Action → Action → Bool
by_number f a b = ltb (f a) (f b)

module _ (f : Action → ℕ) where
  above_level :
      (x : Action) (k : ℕ) (ys : List Action)
      → f x ≤ k
      → All (λ y. f y ≡ k) ys
      → All (λ y. by_number f y x ≡ false) ys
  above_level x k ys le h = All-imp ys (λ y e. ground arith) h

  level : (k : ℕ) (ys : List Action) → All (λ y. f y ≡ k) ys → IsSorted (by_number f) ys
  level k [] h = tt
  level k (y ∷ ys) h = (above_level y k ys (omega (arith, h.0)) h.1, level k ys h.1)

  pub IsSorted-append_level :
      (k : ℕ) (xs ys : List Action)
      → All (λ x. f x ≤ k) xs
      → IsSorted (by_number f) xs
      → All (λ y. f y ≡ k) ys
      → IsSorted (by_number f) (xs ++ ys)
  IsSorted-append_level k [] ys low sorted h = level k ys h
  IsSorted-append_level k (x ∷ xs) ys low sorted h = (
    All-append _ xs ys sorted.0 (above_level x k ys low.0 h),
    IsSorted-append_level k xs ys low.1 sorted.1 h,
  )

IsSorted-cong :
    (f g : Action → ℕ) (xs : List Action)
    → All (λ a. f a ≡ g a) xs
    → IsSorted (by_number f) xs
    → IsSorted (by_number g) xs
IsSorted-cong f g [] e h = tt
IsSorted-cong f g (x ∷ xs) e h =
    (All-zip xs (λ y same below. ground (arith, e.0)) e.1 h.0, IsSorted-cong f g xs e.1 h.1)

module _ (actions : List Action) (layer_of : String → Option ℕ) (unique : IsUnique actions) where
  abbrev number : Action → ℕ
  number a = layer_or_zero layer_of a.spec_node_id

  layer_level :
      (layer : ℕ) (layer_order : List Action)
      → kahn_sort (in_layer actions layer_of layer) ≡ ok layer_order
      → All (λ a. number a ≡ layer) layer_order
  layer_level layer layer_order e =
      let (perm, deps) =
        kahn_sort-ok (in_layer actions layer_of layer)
          (IsUnique-in_layer actions layer_of unique layer) layer_order e in
      All-Permᴰ _ perm (
        All-imp (in_layer actions layer_of layer) (λ a h. (nat_eq_iff (number a) layer).0 h.1)
          (All-keep (λ a. Unit {0}) (λ a. nat_eq (number a) layer) actions
            (All-of_forall _ actions (λ a. tt))))

  sort_layers-IsSorted :
      (rounds layer : ℕ) (ordered out : List Action)
      → All (λ a. number a ≤ layer) ordered
      → IsSorted (by_number number) ordered
      → sort_layers actions layer_of rounds layer ordered ≡ ok out
      → IsSorted (by_number number) out
  unfolding sort_layers
  sort_layers-IsSorted zero layer ordered out low sorted e =
      subst (IsSorted (by_number number)) (ground arith) sorted
  sort_layers-IsSorted (suc rounds) layer ordered out low sorted e =
      elim (List-cases (in_layer actions layer_of layer)) [
        | inl empty ↦
            sort_layers-IsSorted rounds (suc layer) ordered out
              (All-imp ordered (λ a h. omega arith) low) sorted (rw (empty, sort_layers) at e)
        | inr (n, ns, some_here) ↦
            let (layer_order, now, rest) =
              bind-ok (kahn_sort (n ∷ ns))
                (λ l. sort_layers actions layer_of rounds (suc layer) (ordered ++ l))
                (rw (some_here, sort_layers) at e) in
            let flat = layer_level layer layer_order (rw some_here now) in
            sort_layers-IsSorted rounds (suc layer) (ordered ++ layer_order) out
              (All-append _ ordered layer_order (All-imp ordered (λ a h. omega arith) low)
                (All-imp layer_order (λ a h. omega arith) flat))
              (IsSorted-append_level number layer ordered layer_order low sorted flat) rest
      ]

-- If Sort succeeds on a batch with one create for each spec node, no create is emitted behind one
-- of a later layer.
pub sort-IsSorted :
    (actions : List Action) (plan_relevant : List String) (out : List Action)
    → IsUnique actions
    → sort actions plan_relevant ≡ ok out
    → IsSorted (by_number (layer_number plan_relevant)) out
unfolding sort
sort-IsSorted actions plan_relevant out unique e =
    let (layer_of, assigned, e₁) =
      bind-ok
        (assign (layer_index 0 plan_relevant (λ t. none)) (length plan_relevant + 1) actions
          (λ id. none))
        _ e in
    let (u, checked, e₂) = bind-ok (check_no_forward_layer_deps actions layer_of) _ e₁ in
    let placed = assign-ok _ _ actions (λ id. none) layer_of unique assigned in
    IsSorted-cong (number actions layer_of unique) (layer_number plan_relevant) out
      (All-Permᴰ _ (sort-ok actions plan_relevant out unique e).0
        (All-imp actions (λ a (l, here, found). ground arith) placed))
      (sort_layers-IsSorted actions layer_of unique _ 0 [] out tt tt e₂)

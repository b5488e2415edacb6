-- ===== src/Plan/Classifier/Order.antt =====
-- sortActions of plan/action_classifier.go.
use spexmachina.Prelude.{
  String, Bool, List, ◌==◌, eq_iff, if◌then◌else◌, str_lt, str_lt_asymm, str_lt_trans, str_lt_total,
  sort_by, IsWeakOrder, key_order, arith,
}
use spexmachina.Plan.Types.{Action}

-- Compares by two keys in turn.
abbrev pub then_by {ℓ} : {A : Type ℓ} → (A → String) → (A → A → Bool) → A → A → Bool
then_by key next a b = if key a == key b then next a b else str_lt (key a) (key b)

unfoldable pub action_less : Action → Action → Bool
action_less =
    then_by (λ a. a.type)
      (then_by (λ a. a.module_name)
        (then_by (λ a. a.node)
          (then_by (λ a. a.task_id) (λ a b. str_lt a.spec_node_id b.spec_node_id))))

unfoldable pub sort_actions : List Action → List Action
unfolding action_less
sort_actions = sort_by action_less

then_by-IsWeakOrder {ℓ} :
    {A : Type ℓ} (key : A → String) (next : A → A → Bool)
    → IsWeakOrder next
    → IsWeakOrder (then_by key next)
then_by-IsWeakOrder key next order = record {
  asymm = λ x y. ground (
    arith,
    order.asymm x y,
    str_lt_asymm (key x) (key y),
    eq_iff (key x) (key y),
    eq_iff (key y) (key x),
  );
  not_lt_trans = λ x y z. ground (
    arith,
    order.not_lt_trans x y z,
    str_lt_trans (key y) (key z) (key x),
    str_lt_trans (key z) (key x) (key y),
    str_lt_trans (key z) (key y) (key x),
    str_lt_total (key z) (key y),
    str_lt_total (key y) (key x),
    str_lt_asymm (key z) (key x),
    str_lt_asymm (key z) (key y),
    str_lt_asymm (key y) (key x),
    eq_iff (key z) (key x),
    eq_iff (key y) (key x),
    eq_iff (key z) (key y),
  );
}

pub action_less-IsWeakOrder : IsWeakOrder action_less
unfolding action_less
action_less-IsWeakOrder =
    then_by-IsWeakOrder (λ a. a.type) _
      (then_by-IsWeakOrder (λ a. a.module_name) _
        (then_by-IsWeakOrder (λ a. a.node) _
          (then_by-IsWeakOrder (λ a. a.task_id) _ (key_order (λ a. a.spec_node_id)))))

-- ===== src/Plan/Classifier/AnyOrder.antt =====
-- sortActions of plan/action_classifier.go: the order of its result, whatever that of its input.
use mathlib.Core.List.{Permᴰ, Pairwise}
use mathlib.Core.List.Pairwise
use spexmachina.Prelude.{
  String, Bool, true, false, ◌&&◌, List, [], ◌∷◌, ◌==◌, eq_iff, if◌then◌else◌, str_lt, str_lt_ne,
  str_lt_total, refl, sort_by-Permᴰ, sort_by-IsSorted, Comparable, IsSorted, arith, ◌≡◌, subst,
}
use spexmachina.Plan.Types.{Action}
use spexmachina.Plan.Classifier.Order.{action_less, sort_actions, action_less-IsWeakOrder}

-- The fields of an action that order it.
abbrev pub sort_fields : Action → List String
sort_fields a = a.type ∷ a.module_name ∷ a.node ∷ a.task_id ∷ a.spec_node_id ∷ []

-- The first different fields decide.
unfoldable pub fields_lt : List String → List String → Bool
fields_lt [] [] = false
fields_lt [] (y ∷ ys) = true
fields_lt (x ∷ xs) [] = false
fields_lt (x ∷ xs) (y ∷ ys) = let rest = fields_lt xs ys in if x == y then rest else str_lt x y

abbrev pub by_fields : Action → Action → Bool
by_fields a b = fields_lt (sort_fields a) (sort_fields b)

unfoldable pub same_fields : List String → List String → Bool
same_fields [] [] = true
same_fields [] (y ∷ ys) = false
same_fields (x ∷ xs) [] = false
same_fields (x ∷ xs) (y ∷ ys) = (x == y) && same_fields xs ys

abbrev pub AreDistinct : Action → Action → Type 0
AreDistinct a b = same_fields (sort_fields a) (sort_fields b) ≡ false

action_less-by_fields : (a b : Action) → action_less a b ≡ by_fields a b
unfolding action_less fields_lt
action_less-by_fields a b = ground (arith, str_lt_ne a.spec_node_id b.spec_node_id)

fields_total : (xs ys : List String) → same_fields xs ys ≡ false → Comparable fields_lt xs ys
unfolding fields_lt same_fields
fields_total [] [] h = ground (arith, h)
fields_total [] (y ∷ ys) h = refl
fields_total (x ∷ xs) [] h = refl
fields_total (x ∷ xs) (y ∷ ys) h =
    ground (arith, h, fields_total xs ys, str_lt_total x y, eq_iff x y, eq_iff y x)

AreDistinct-Comparable : (a b : Action) → AreDistinct a b → Comparable action_less a b
AreDistinct-Comparable a b h = ground (
  arith,
  fields_total (sort_fields a) (sort_fields b) h,
  action_less-by_fields a b,
  action_less-by_fields b a,
)

less-by_fields : action_less ≡ by_fields
less-by_fields = λ i a b. action_less-by_fields a b i

-- If no two actions agree in type, module, node, task and spec node, sortActions gives one list for
-- every order of the actions, and this list is in the order of these fields, the first field that
-- differs deciding.
pub sort_actions-Permᴰ :
    {actions actions' : List Action}
    → Permᴰ actions actions'
    → Pairwise AreDistinct actions
    → IsSorted by_fields (sort_actions actions) × (sort_actions actions ≡ sort_actions actions')
unfolding sort_actions
sort_actions-Permᴰ {actions} p h = (
  subst (λ less. IsSorted less (sort_actions actions)) less-by_fields
      (sort_by-IsSorted action_less action_less-IsWeakOrder actions),
  sort_by-Permᴰ action_less action_less-IsWeakOrder p (Pairwise.imp AreDistinct-Comparable h),
)

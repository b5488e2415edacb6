-- ===== src/Plan/Builder/Union.antt =====
-- The deps that composeDeps puts together are the union of what it is given, each once.
use spexmachina.Prelude.{
  ltb, String, ℕ, ◌+◌, ◌≤◌, Bool, ◌||◌, List, [], ◌∷◌, ◌++◌, map, ◌==◌, if◌then◌else◌, contains,
  contains-count, count-contains, count, count-append, count-sort_strings, sort_by, insert_by,
  sort_strings, ◌≡◌, refl, ◌∙◌, ap, arith, inl, inr, Bool-cases, eq_iff,
}
use spexmachina.Schema.Profile.{append_new}
use spexmachina.Plan.Types.{Ref, task, op}
use spexmachina.Plan.Classifier.AddOn.{contains-append_new}
use spexmachina.Plan.Builder.{ops_of, tasks_of, index_or_zero, order_deps}

module _ (lt : String → String → Bool) where
  count-insert_by :
      (y : String) (ys : List String) (x : String)
      → count x (insert_by lt y ys) ≡ (if y == x then 1 else 0) + count x ys
  unfolding insert_by count
  count-insert_by y [] x = refl
  count-insert_by y (z ∷ zs) x = ground (arith, count-insert_by y zs x)

  count-sort_by : (xs : List String) (x : String) → count x (sort_by lt xs) ≡ count x xs
  unfolding sort_by count
  count-sort_by [] x = refl
  count-sort_by (y ∷ ys) x = omega (arith, count-insert_by y (sort_by lt ys) x, count-sort_by ys x)

-- Appending what is new leaves each string there once.
count-append_new :
    (xs ys : List String) (x : String) → count x xs ≤ 1 → count x (append_new xs ys) ≤ 1
unfolding append_new count
count-append_new xs [] x h = h
count-append_new xs (y ∷ ys) x h = elim (Bool-cases (contains xs y)) [
  | inl e ↦ rw (e, append_new) (count-append_new xs ys x h)
  | inr e ↦
      rw (e, append_new)
        (count-append_new (xs ++ y ∷ []) ys x
          (ground (arith, h, count-append x xs (y ∷ []), contains-count xs y e, eq_iff y x)))
]

-- How often a string is in a union of two lists.
count-union :
    (xs ys : List String) (x : String)
    → count x (append_new (append_new [] xs) ys) ≡ (if contains xs x || contains ys x then 1 else 0)
unfolding count contains
count-union xs ys x = ground (
  arith,
  count-append_new (append_new [] xs) ys x (count-append_new [] xs x (omega arith)),
  contains-append_new (append_new [] xs) ys x,
  contains-append_new [] xs x,
  contains-count (append_new (append_new [] xs) ys) x,
  count-contains (append_new (append_new [] xs) ys) x,
)

ops_of-refs : (xs ys : List String) → ops_of (map op xs ++ map task ys) ≡ xs
ops_of-refs [] [] = refl
ops_of-refs [] (y ∷ ys) = ops_of-refs [] ys
ops_of-refs (x ∷ xs) ys = ap (λ l. x ∷ l) (ops_of-refs xs ys)

tasks_of-refs : (xs ys : List String) → tasks_of (map op xs ++ map task ys) ≡ ys
tasks_of-refs [] [] = refl
tasks_of-refs [] (y ∷ ys) = ap (λ l. y ∷ l) (tasks_of-refs [] ys)
tasks_of-refs (x ∷ xs) ys = tasks_of-refs xs ys

-- The deps that composeDeps emits refer to each op once that the resolved deps or the layer edges name,
-- to each task once that the resolved deps or the extra tasks name, and to nothing else.
pub order_deps-union :
    (spec_deps : List Ref) (op_index : List (String × ℕ)) (layer_edges extra_tasks : List String)
    (id : String)
    → (count id (ops_of (order_deps spec_deps op_index layer_edges extra_tasks))
        ≡ (if contains (ops_of spec_deps) id || contains layer_edges id then 1 else 0))
      × (count id (tasks_of (order_deps spec_deps op_index layer_edges extra_tasks))
          ≡ (if contains (tasks_of spec_deps) id || contains extra_tasks id then 1 else 0))
unfolding order_deps
order_deps-union spec_deps op_index layer_edges extra_tasks id =
    let op_refs = append_new (append_new [] (ops_of spec_deps)) layer_edges in
    let task_refs = append_new (append_new [] (tasks_of spec_deps)) extra_tasks in
    let earlier = λ (a b : String). ltb (index_or_zero op_index a) (index_or_zero op_index b) in
    (
      ap (count id) (ops_of-refs (sort_by earlier op_refs) (sort_strings task_refs))
          ∙ count-sort_by earlier op_refs id
          ∙ count-union (ops_of spec_deps) layer_edges id,
      ap (count id) (tasks_of-refs (sort_by earlier op_refs) (sort_strings task_refs))
          ∙ count-sort_strings id task_refs
          ∙ count-union (tasks_of spec_deps) extra_tasks id,
    )

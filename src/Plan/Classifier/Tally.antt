-- ===== src/Plan/Classifier/Tally.antt =====
-- Counts of actions: what appending, sorting and the data-flow add-on do to them.
use spexmachina.Prelude.{
  String, ℕ, ◌+◌, Bool, List, [], ◌∷◌, ◌++◌, if◌then◌else◌, sort_by, insert_by, ok, arith, ◌≡◌,
  refl,
}
use spexmachina.Plan.Types.{Action}
use spexmachina.Plan.Classifier.Deps.{add_on}
use spexmachina.Plan.Classifier.{refuse_claims}

-- How many elements pass a test.
abbrev pub tally {ℓ} : {A : Type ℓ} → (A → Bool) → List A → ℕ
tally p [] = 0
tally p (x ∷ xs) = (if p x then 1 else 0) + tally p xs

pub tally-append {ℓ} :
    {A : Type ℓ} (p : A → Bool) (xs ys : List A) → tally p (xs ++ ys) ≡ tally p xs + tally p ys
tally-append p [] ys = omega arith
tally-append p (x ∷ xs) ys = omega (arith, tally-append p xs ys)

pub tally-insert_by {ℓ} :
    {A : Type ℓ} (lt : A → A → Bool) (p : A → Bool) (x : A) (xs : List A)
    → tally p (insert_by lt x xs) ≡ tally p (x ∷ xs)
unfolding insert_by
tally-insert_by lt p x [] = refl
tally-insert_by lt p x (y ∷ ys) = ground (arith, tally-insert_by lt p x ys)

pub tally-sort_by {ℓ} :
    {A : Type ℓ} (lt : A → A → Bool) (p : A → Bool) (xs : List A)
    → tally p (sort_by lt xs) ≡ tally p xs
unfolding sort_by
tally-sort_by lt p [] = refl
tally-sort_by lt p (x ∷ xs) =
    ground (arith, tally-insert_by lt p x (sort_by lt xs), tally-sort_by lt p xs)

-- The data-flow add-on changes only deps.
pub add_on-same :
    (a : Action) (flows : List String)
    → ((add_on a flows).type ≡ a.type)
      × ((add_on a flows).task_id ≡ a.task_id)
      × ((add_on a flows).spec_node_id ≡ a.spec_node_id)
unfolding add_on
add_on-same a [] = (refl, refl, refl)
add_on-same a (f ∷ flows) = (refl, refl, refl)

pub accepted :
    (claimed : List String) (planned actions : List Action)
    → refuse_claims claimed planned ≡ ok actions
    → planned ≡ actions
accepted [] planned actions e = cc e
accepted (t ∷ claimed) planned actions e = cc e

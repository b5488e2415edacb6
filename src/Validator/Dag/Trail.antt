-- ===== src/Validator/Dag/Trail.antt =====
-- Walks and cycles of a graph, and the path that the parents lead back.
use spexmachina.Prelude.{
  String, ℕ, zero, suc, ◌≤◌, List, [], ◌∷◌, ◌++◌, Option, none, some, ◌==◌, if◌then◌else◌, contains,
  length, true, false, ◌≡◌, refl, sym, ap, subst, inl, inr, arith, Bool-cases, eq_iff, ◌∙◌,
}
use spexmachina.Validator.Dag.{Adjacency, neighbors, reverse_onto, path_back, close_path}

abbrev pub IsEdge : Adjacency → String → String → Type 0
IsEdge adj a b = contains (neighbors adj a) b ≡ true

abbrev pub IsWalk : Adjacency → List String → Type 0
IsWalk adj [] = Unit
IsWalk adj (a ∷ []) = Unit
IsWalk adj (a ∷ b ∷ rest) = IsEdge adj a b × IsWalk adj (b ∷ rest)

-- A walk along at least one edge that ends where it starts.
abbrev pub IsCycle : Adjacency → List String → Type 0
IsCycle adj path = (v : String) × (mid : List String) × (path ≡ v ∷ mid ++ v ∷ []) × IsWalk adj path

-- The gray nodes, the current one first: each is the child of the next.
abbrev pub IsChain : Adjacency → (String → String) → List String → Type 0
IsChain adj parent [] = Unit
IsChain adj parent (a ∷ []) = Unit
IsChain adj parent (a ∷ b ∷ rest) = (parent a ≡ b) × IsEdge adj b a × IsChain adj parent (b ∷ rest)

reverse_onto-append :
    (xs acc ys : List String) → reverse_onto xs acc ++ ys ≡ reverse_onto xs (acc ++ ys)
reverse_onto-append [] acc ys = refl
reverse_onto-append (x ∷ xs) acc ys = reverse_onto-append xs (x ∷ acc) ys

reverse_onto-last :
    (xs : List String) (y : String) (acc : List String)
    → reverse_onto (xs ++ y ∷ []) acc ≡ y ∷ reverse_onto xs acc
reverse_onto-last [] y acc = refl
reverse_onto-last (x ∷ xs) y acc = reverse_onto-last xs y (x ∷ acc)

close_path-parts :
    (neighbor : String) (path : List String)
    → close_path neighbor path ≡ neighbor ∷ reverse_onto path [] ++ neighbor ∷ []
close_path-parts neighbor path =
    ap (λ (l : List String). l ++ neighbor ∷ []) (reverse_onto-last path neighbor [])

close_path-onto :
    (neighbor : String) (path : List String)
    → close_path neighbor path ≡ neighbor ∷ reverse_onto path (neighbor ∷ [])
close_path-onto neighbor path =
    close_path-parts neighbor path
    ∙ ap (λ l. neighbor ∷ l) (reverse_onto-append path [] (neighbor ∷ []))

-- What the loop of the parents returns in front of a walk `acc`.
abbrev LeadsBack : Adjacency → Option (List String) → String → List String → Type 0
LeadsBack adj r neighbor acc =
    (path : List String) × (r ≡ some path) × IsWalk adj (neighbor ∷ reverse_onto path acc)

back_one :
    (adj : Adjacency) (n neighbor : String) (acc : List String) (r : Option (List String))
    → (n == neighbor) ≡ false
    → LeadsBack adj r neighbor (n ∷ acc)
    → LeadsBack adj
        (if n == neighbor then some [] else elim r [ none ↦ none | some path ↦ some (n ∷ path) ])
        neighbor
        acc
back_one adj n neighbor acc r h (path, e, walk) = (n ∷ path, rw (h, e) refl, walk)

back_here :
    (adj : Adjacency) (n neighbor : String) (acc : List String) (r : Option (List String))
    → (n == neighbor) ≡ true
    → IsWalk adj (n ∷ acc)
    → LeadsBack adj (if n == neighbor then some [] else r) neighbor acc
back_here adj n neighbor acc r e walk =
    ([], rw e refl, subst (λ v. IsWalk adj (v ∷ acc)) ((eq_iff n neighbor).0 e) walk)

only_one : (n neighbor : String) → contains (n ∷ []) neighbor ≡ true → (n == neighbor) ≡ true
unfolding contains
only_one n neighbor h = ground (arith, h)

pub not_first :
    (n neighbor : String) (rest : List String)
    → (n == neighbor) ≡ false
    → contains (n ∷ rest) neighbor ≡ true
    → contains rest neighbor ≡ true
unfolding contains
not_first n neighbor rest e h = ground (arith, e, h)

pub path_back-LeadsBack :
    (adj : Adjacency) (parent : String → String) (fuel : ℕ) (n : String) (rest : List String)
    (neighbor : String) (acc : List String)
    → length rest ≤ fuel
    → IsChain adj parent (n ∷ rest)
    → contains (n ∷ rest) neighbor ≡ true
    → IsWalk adj (n ∷ acc)
    → LeadsBack adj (path_back fuel parent n neighbor) neighbor acc
unfolding path_back contains
path_back-LeadsBack adj parent zero n [] neighbor acc bound chain there walk =
    back_here adj n neighbor acc _ (only_one n neighbor there) walk
path_back-LeadsBack adj parent zero n (b ∷ rest) neighbor acc bound chain there walk =
    let none_left : ⊥ = omega arith in elim none_left [ ]
path_back-LeadsBack adj parent (suc fuel) n [] neighbor acc bound chain there walk =
    back_here adj n neighbor acc _ (only_one n neighbor there) walk
path_back-LeadsBack adj parent (suc fuel) n (b ∷ rest) neighbor acc bound chain there walk =
    elim (Bool-cases (n == neighbor)) [
      | inl e ↦ back_here adj n neighbor acc _ e walk
      | inr e ↦ back_one adj n neighbor acc _ e (
          subst (λ x. LeadsBack adj (path_back fuel parent x neighbor) neighbor (n ∷ acc))
            (sym chain.0)
            (path_back-LeadsBack adj parent fuel b rest neighbor (n ∷ acc) (omega arith) chain.2
              (not_first n neighbor (b ∷ rest) e there) (chain.1, walk)))
    ]

-- The path that is reported for a gray neighbor is a cycle.
pub close_path-IsCycle :
    (adj : Adjacency) (neighbor : String) (path : List String)
    → IsWalk adj (neighbor ∷ reverse_onto path (neighbor ∷ []))
    → IsCycle adj (close_path neighbor path)
close_path-IsCycle adj neighbor path walk = (
  neighbor,
  reverse_onto path [],
  close_path-parts neighbor path,
  subst (IsWalk adj) (sym (close_path-onto neighbor path)) walk,
)

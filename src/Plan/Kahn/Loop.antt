-- ===== src/Plan/Kahn/Loop.antt =====
-- The outer loop of kahnSort: its invariant, and that the bound on its rounds is enough.
use mathlib.Core.List.{append_assoc, append-nil, map-append}
use spexmachina.Prelude.{
  ℕ, zero, suc, ◌+◌, ◌≤◌, String, List, [], ◌∷◌, ◌++◌, map, false, eq_refl, if◌then◌else◌, length,
  length-append, count, count-append, contains, count-contains, ℤ, pos, nat_eq, ok, ◌≡◌, refl, ap,
  ◌∙◌, arith, length-le_of_count,
}
use spexmachina.Plan.Types.{Action}
use spexmachina.Plan.Kahn.{release, kahn_loop}
use spexmachina.Plan.Kahn.Edges.{targets, pending, pending-place, pending-le}
use spexmachina.Plan.Kahn.Release.{release_lem}

-- Each id has its edges' sources among `seen` and the ids before it.
abbrev pub IsOrdered : List (String × String) → List String → List String → Type 0
IsOrdered es seen [] = Unit
IsOrdered es seen (x ∷ xs) = (pending es seen x ≡ 0) × IsOrdered es (seen ++ x ∷ []) xs

IsOrdered-snoc :
    (es : List (String × String)) (seen xs : List String) (k : String)
    → IsOrdered es seen xs
    → pending es (seen ++ xs) k ≡ 0
    → IsOrdered es seen (xs ++ k ∷ [])
IsOrdered-snoc es seen [] k h e = (rw append-nil at e, tt)
IsOrdered-snoc es seen (x ∷ xs) k h e =
    (h.0, IsOrdered-snoc es (seen ++ x ∷ []) xs k h.1 (rw append_assoc e))

module _ (es : List (String × String)) (nodes : List String) where
  -- The counters count the edges whose source is not placed, and an id that has none is ready or
  -- placed, as often as it is a node.
  pub record Inv (ind : String → ℤ) (ready placed : List String) : Type 0 where
    pub degrees : (x : String) → ind x ≡ pos (pending es placed x)
    pub shares :
        (x : String)
        → count x ready + count x placed
          ≡ (if nat_eq (pending es placed x) 0 then count x nodes else 0)
    pub ordered : IsOrdered es [] placed

module _ (es : List (String × String)) (nodes : List String)
    (unique : (x : String) → count x nodes ≤ 1)
    (known : (x : String) → 1 ≤ pending es [] x → 1 ≤ count x nodes)
    (children : String → List String) (children_eq : (k : String) → children k ≡ targets k es)
    (by_id : String → Action) where
  fresh :
      (ind : String → ℤ) (k : String) (ready placed : List String)
      → Inv es nodes ind (k ∷ ready) placed
      → (contains placed k ≡ false) × (pending es placed k ≡ 0)
  unfolding count
  fresh ind k ready placed inv =
      ground (arith, inv.shares k, unique k, eq_refl k, count-contains placed k)

  step-shares :
      (ind : String → ℤ) (k : String) (ready placed : List String)
      → Inv es nodes ind (k ∷ ready) placed
      → contains placed k ≡ false
      → (x : String)
      → count x (release (children k) ind ready).1 + count x (placed ++ k ∷ [])
        ≡ (if nat_eq (pending es (placed ++ k ∷ []) x) 0 then count x nodes else 0)
  unfolding count
  step-shares ind k ready placed inv new x = ground (
    arith,
    inv.shares x,
    unique x,
    known x,
    pending-place es placed k x new,
    pending-le es placed x,
    count-append x placed (k ∷ []),
    children_eq k,
    release_lem (children k) ind ready x (pending es placed x) (inv.degrees x)
        (rw (children_eq k) (omega (arith, pending-place es placed k x new))),
  )

  step :
      (ind : String → ℤ) (k : String) (ready placed : List String)
      → Inv es nodes ind (k ∷ ready) placed
      → Inv es nodes
          (release (children k) ind ready).0
          (release (children k) ind ready).1
          (placed ++ k ∷ [])
  step ind k ready placed inv =
      let (new, free) = fresh ind k ready placed inv in
      record {
        degrees = λ x.
            (release_lem (children k) ind ready x (pending es placed x) (inv.degrees x)
              (rw (children_eq k) (omega (arith, pending-place es placed k x new)))).0
            ∙ ap pos (rw (children_eq k) (omega (arith, pending-place es placed k x new)));
        shares = λ x. step-shares ind k ready placed inv new x;
        ordered = IsOrdered-snoc es [] placed k inv.ordered free;
      }

  not_full :
      (ind : String → ℤ) (k : String) (ready placed : List String)
      → Inv es nodes ind (k ∷ ready) placed
      → suc (length placed) ≤ length nodes
  unfolding count
  not_full ind k ready placed inv =
      length-le_of_count (k ∷ placed) nodes (λ a. ground (arith, inv.shares a))

  pub kahn_loop_ends :
      (fuel : ℕ) (ind : String → ℤ) (ready placed : List String)
      → Inv es nodes ind ready placed
      → length nodes ≤ fuel + length placed
      → (ind' : String → ℤ) × (placed' : List String) × (kahn_loop fuel children by_id ind ready
            (map by_id placed)
          ≡ ok (ind', map by_id placed'))
        × Inv es nodes ind' [] placed'
  unfolding kahn_loop
  kahn_loop_ends fuel ind [] placed inv le = (ind, placed, refl, inv)
  kahn_loop_ends zero ind (k ∷ ready) placed inv le =
      absurd (omega (arith, not_full ind k ready placed inv))
  kahn_loop_ends (suc fuel) ind (k ∷ ready) placed inv le =
      let (ind', placed', e, inv') =
        kahn_loop_ends fuel (release (children k) ind ready).0 (release (children k) ind ready).1
          (placed ++ k ∷ []) (step ind k ready placed inv)
          (omega (arith, length-append placed (k ∷ []))) in
      (ind', placed', rw map-append at e, inv')

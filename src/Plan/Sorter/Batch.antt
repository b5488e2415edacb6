-- ===== src/Plan/Sorter/Batch.antt =====
-- Slices of a batch by layer, and orders that are put one behind the other.
use mathlib.Core.List.{Permᴰ, append_assoc, append-nil}
use mathlib.Core.List.Permᴰ as PermD
use spexmachina.Prelude.{
  ℕ, suc, ◌≤◌, String, List, [], ◌∷◌, ◌++◌, Bool, true, false, eq_iff, Bool-cases, if◌then◌else◌,
  All, All-zip, keep, count, contains, leb, nat_eq, ◌≡◌, refl, ap, arith, inl, inr, ◌⊎◌,
}
use spexmachina.Plan.Types.{Action}
use spexmachina.Plan.Kahn.{ids}
use spexmachina.Plan.Kahn.Order.{DepsFirst}

-- The actions from a layer on are those of the layer and those behind it.
pub keep_from :
    (layer : Action → ℕ) (k : ℕ) (xs : List Action)
    → Permᴰ
        (keep (λ a. leb k (layer a)) xs)
        (keep (λ a. nat_eq (layer a) k) xs ++ keep (λ a. leb (suc k) (layer a)) xs)
keep_from layer k [] = Permᴰ.nil
keep_from layer k (x ∷ xs) = elim (Bool-cases (nat_eq (layer x) k)) [
  | inl here ↦
      rw (here, leb_of_eq k (layer x) here, not_leb_of_eq k (layer x) here)
        (Permᴰ.cons refl (keep_from layer k xs))
  | inr away ↦ elim (Bool-cases (leb k (layer x))) [
    | inl behind ↦
        rw (away, behind, leb_suc k (layer x) away)
          (rw behind (
            Permᴰ.trans (Permᴰ.cons refl (keep_from layer k xs)) (PermD.symm (PermD.middle x _ _))))
    | inr before ↦ rw (away, before, leb_suc k (layer x) away) (rw before (keep_from layer k xs))
  ]
]
  where
    leb_of_eq : (k l : ℕ) → nat_eq l k ≡ true → leb k l ≡ true
    leb_of_eq k l h = ground arith

    not_leb_of_eq : (k l : ℕ) → nat_eq l k ≡ true → leb (suc k) l ≡ false
    not_leb_of_eq k l h = ground arith

    leb_suc : (k l : ℕ) → nat_eq l k ≡ false → leb (suc k) l ≡ leb k l
    leb_suc k l h = ground arith

pub keep_none : (p : Action → Bool) (xs : List Action) → All (λ a. p a ≡ false) xs → keep p xs ≡ []
keep_none p [] h = refl
keep_none p (x ∷ xs) h = rw h.0 (keep_none p xs h.1)

pub keep_whole : (p : Action → Bool) (xs : List Action) → All (λ a. p a ≡ true) xs → keep p xs ≡ xs
keep_whole p [] h = refl
keep_whole p (x ∷ xs) h = rw h.0 (ap (λ l. x ∷ l) (keep_whole p xs h.1))

pub All-keep {κ} :
    (P : Action → Type κ) (p : Action → Bool) (xs : List Action)
    → All P xs
    → All (λ a. P a × (p a ≡ true)) (keep p xs)
All-keep P p [] h = tt
All-keep P p (x ∷ xs) h = elim (Bool-cases (p x)) [
  | inl here ↦ rw here ((h.0, here), All-keep P p xs h.1)
  | inr away ↦ rw away (All-keep P p xs h.1)
]

pub count-ids-keep :
    (p : Action → Bool) (xs : List Action) (x : String)
    → count x (ids (keep p xs)) ≤ count x (ids xs)
unfolding count
count-ids-keep p [] x = omega arith
count-ids-keep p (a ∷ xs) x = ground (arith, count-ids-keep p xs x)

-- A kept id: `p` looks at an action's id alone.
pub count-ids-keep_by :
    (p : String → Bool) (xs : List Action) (x : String)
    → p x ≡ true
    → count x (ids (keep (λ a. p a.spec_node_id) xs)) ≡ count x (ids xs)
unfolding count
count-ids-keep_by p [] x h = refl
count-ids-keep_by p (a ∷ xs) x h =
    ground (arith, count-ids-keep_by p xs x h, eq_iff a.spec_node_id x)

pub contains-append :
    (xs ys : List String) (a : String)
    → contains (xs ++ ys) a ≡ (if contains xs a then true else contains ys a)
unfolding contains
contains-append [] ys a = ground arith
contains-append (x ∷ xs) ys a = ground (arith, contains-append xs ys a)

pub DepsFirst-append :
    (inside : String → Bool) (seen : List String) (xs ys : List Action)
    → DepsFirst inside seen xs
    → DepsFirst inside (seen ++ ids xs) ys
    → DepsFirst inside seen (xs ++ ys)
DepsFirst-append inside seen [] ys h k = rw append-nil at k
DepsFirst-append inside seen (x ∷ xs) ys h k =
    (h.0, DepsFirst-append inside (seen ++ x.spec_node_id ∷ []) xs ys h.1 (rw append_assoc k))

-- An order of one layer stands behind `before`, which holds the deps from outside the layer.
pub DepsFirst-behind :
    (inside outer : String → Bool) (before seen : List String) (xs : List Action)
    → All
        (λ a.
          All
            (λ dep. outer dep ≡ true → (inside dep ≡ true) ⊎ (contains before dep ≡ true))
            a.dep_spec_node_ids)
        xs
    → DepsFirst inside seen xs
    → DepsFirst outer (before ++ seen) xs
DepsFirst-behind inside outer before seen [] c h = tt
DepsFirst-behind inside outer before seen (x ∷ xs) c h = (
  All-zip x.dep_spec_node_ids
      (λ dep from known here. ground (arith, from here, known, contains-append before seen dep)) c.0
      h.0,
  rw append_assoc (DepsFirst-behind inside outer before (seen ++ x.spec_node_id ∷ []) xs c.1 h.1),
)

-- ===== src/Prelude/Sorting.antt =====
-- sort.Strings, sort.Slice and sort.SliceStable, as the stable insertion sort by a `less` test.
use Prim.Native.Nat.{ℕ, ◌+◌}
use Prim.Native.String.{String}
use mathlib.Core.Path.{◌≡◌, refl, ap, ◌∙◌}
use mathlib.Core.Logic.{inl, inr}
use mathlib.Core.Bool.{Bool, true, false, ◌||◌}
use mathlib.Core.List.{List, [], ◌∷◌, Permᴰ, Perm, Pairwise, rel_of_Pairwise-cons, mem-cons_self}
use mathlib.Core.List.Perm
use mathlib.Core.List.Pairwise
use mathlib.Core.List.Permᴰ as PermD
use native.Mathlib.Omega.{arith}
use spexmachina.Prelude.Tests.{if◌then◌else◌, Bool-cases}
use text.Mathlib.Text.{◌==◌}
use text.Mathlib.TextEquality.{eq_iff}
use spexmachina.Prelude.Lists.{All, count, contains, contains-count, count-contains}
use spexmachina.Prelude.Text.{str_lt, str_lt_asymm, str_lt_total, str_lt_trans}

-- Puts `x` before the first element that is not less than `x`.
unfoldable pub insert_by {ℓ} : {A : Type ℓ} → (A → A → Bool) → A → List A → List A
insert_by lt x [] = x ∷ []
insert_by lt x (y ∷ ys) = if lt y x then y ∷ insert_by lt x ys else x ∷ y ∷ ys

unfoldable pub sort_by {ℓ} : {A : Type ℓ} → (A → A → Bool) → List A → List A
sort_by lt [] = []
sort_by lt (x ∷ xs) = insert_by lt x (sort_by lt xs)

-- What a `less` function must satisfy: asymmetric, and "not less" is transitive.
pub record IsWeakOrder {ℓ} {A : Type ℓ} (lt : A → A → Bool) : Type ℓ where
  pub asymm : (x y : A) → lt x y ≡ true → lt y x ≡ false
  pub not_lt_trans : (x y z : A) → lt y x ≡ false → lt z y ≡ false → lt z x ≡ false

-- No element is less than one before it.
abbrev pub IsSorted {ℓ} : {A : Type ℓ} → (A → A → Bool) → List A → Type 0
IsSorted lt [] = Unit
IsSorted lt (x ∷ xs) = All (λ y. lt y x ≡ false) xs × IsSorted lt xs

module _ {ℓ} {A : Type ℓ} (lt : A → A → Bool) where
  insert_by-perm : (x : A) (xs : List A) → Perm (insert_by lt x xs) (x ∷ xs)
  unfolding insert_by
  insert_by-perm x [] = Perm.rfl
  insert_by-perm x (y ∷ ys) = elim (Bool-cases (lt y x)) [
    | inl less ↦ rw less (Perm.trans (Perm.cons y (insert_by-perm x ys)) (Perm.swap x y ys))
    | inr more ↦ rw more Perm.rfl
  ]

  pub sort_by-perm : (xs : List A) → Perm (sort_by lt xs) xs
  unfolding sort_by
  sort_by-perm [] = Perm.rfl
  sort_by-perm (x ∷ xs) =
      Perm.trans (insert_by-perm x (sort_by lt xs)) (Perm.cons x (sort_by-perm xs))

  pub All-insert_by {κ} :
      (P : A → Type κ) (x : A) (xs : List A) → P x → All P xs → All P (insert_by lt x xs)
  unfolding insert_by
  All-insert_by P x [] p h = (p, tt)
  All-insert_by P x (y ∷ ys) p h = elim (Bool-cases (lt y x)) [
    | inl less ↦ rw less (h.0, All-insert_by P x ys p h.1)
    | inr more ↦ rw more (p, h)
  ]

  pub All-sort_by {κ} : (P : A → Type κ) (xs : List A) → All P xs → All P (sort_by lt xs)
  unfolding sort_by
  All-sort_by P [] h = tt
  All-sort_by P (x ∷ xs) h = All-insert_by P x (sort_by lt xs) h.0 (All-sort_by P xs h.1)

-- One of two elements is less than the other.
abbrev pub Comparable {ℓ} : {A : Type ℓ} → (A → A → Bool) → A → A → Type 0
Comparable lt a b = (lt a b || lt b a) ≡ true

module _ {ℓ} {A : Type ℓ} (lt : A → A → Bool) (order : IsWeakOrder lt) where
  above :
      (x y : A) (ys : List A)
      → lt y x ≡ false
      → All (λ z. lt z y ≡ false) ys
      → All (λ z. lt z x ≡ false) ys
  above x y [] h k = tt
  above x y (z ∷ zs) h k = (order.not_lt_trans x y z h k.0, above x y zs h k.1)

  insert_by-IsSorted : (x : A) (xs : List A) → IsSorted lt xs → IsSorted lt (insert_by lt x xs)
  unfolding insert_by
  insert_by-IsSorted x [] h = (tt, tt)
  insert_by-IsSorted x (y ∷ ys) h = elim (Bool-cases (lt y x)) [
    | inl less ↦ rw less (
      All-insert_by lt (λ z. lt z y ≡ false) x ys (order.asymm y x less) h.0,
      insert_by-IsSorted x ys h.1,
    )
    | inr more ↦ rw more ((more, above x y ys more h.0), h)
  ]

  pub sort_by-IsSorted : (xs : List A) → IsSorted lt (sort_by lt xs)
  unfolding sort_by
  sort_by-IsSorted [] = tt
  sort_by-IsSorted (x ∷ xs) = insert_by-IsSorted x (sort_by lt xs) (sort_by-IsSorted xs)

  insert_by_comm :
      (x y : A) (l : List A)
      → Comparable lt x y
      → insert_by lt x (insert_by lt y l) ≡ insert_by lt y (insert_by lt x l)
  unfolding insert_by
  insert_by_comm x y [] h = ground (arith, order.asymm x y, order.asymm y x)
  insert_by_comm x y (z ∷ zs) h = ground (
    arith,
    order.asymm x y,
    order.asymm y x,
    order.not_lt_trans x y z,
    order.not_lt_trans y x z,
    insert_by_comm x y zs h,
  )

  -- A slice any two elements of which are ordered is sorted to one result, whatever its order.
  pub sort_by-Permᴰ :
      {xs ys : List A} → Permᴰ xs ys → Pairwise (Comparable lt) xs → sort_by lt xs ≡ sort_by lt ys
  unfolding sort_by
  sort_by-Permᴰ Permᴰ.nil h = refl
  sort_by-Permᴰ (Permᴰ.cons {a = a} {b = b} {l₁ = l} e p) h =
      cc (e, sort_by-Permᴰ p (Pairwise.of_cons h))
  sort_by-Permᴰ (Permᴰ.swap {a = a} {b = b} {l = l} e e') h =
      cc (e, e', insert_by_comm a b (sort_by lt l) (rel_of_Pairwise-cons h mem-cons_self))
  sort_by-Permᴰ (Permᴰ.trans p q) h =
      sort_by-Permᴰ p h
      ∙ sort_by-Permᴰ q (PermD.pairwise (λ a b. hlevel) (λ x y r. ground (arith, r)) p h)

-- The order of elements by a string key.
pub key_order {ℓ} :
    {A : Type ℓ} (key : A → String) → IsWeakOrder (λ (a b : A). str_lt (key a) (key b))
key_order key = record {
  asymm = λ x y. str_lt_asymm (key x) (key y);
  not_lt_trans = λ x y z h k.
      ground (arith, str_lt_total (key z) (key y), str_lt_trans (key y) (key z) (key x));
}

-- Two elements with different keys.
abbrev pub DifferBy {ℓ} : {A : Type ℓ} → (A → String) → A → A → Type 0
DifferBy key a b = (key a == key b) ≡ false

module _ {ℓ} {A : Type ℓ} (key : A → String) where
  insert_by_swap :
      (x y : A) (l : List A)
      → DifferBy key x y
      → insert_by (λ a b. str_lt (key a) (key b)) x (insert_by (λ a b. str_lt (key a) (key b)) y l)
        ≡ insert_by
            (λ a b. str_lt (key a) (key b))
            y
            (insert_by (λ a b. str_lt (key a) (key b)) x l)
  insert_by_swap x y l h =
      insert_by_comm (λ a b. str_lt (key a) (key b)) (key_order key) x y l
        (ground (arith, h, str_lt_total (key x) (key y), eq_iff (key x) (key y)))

-- sort.Strings
unfoldable pub sort_strings : List String → List String
unfolding sort_by insert_by str_lt
sort_strings = sort_by str_lt

pub count-insert_string :
    (a x : String) (xs : List String)
    → count a (insert_by str_lt x xs) ≡ (if x == a then 1 else 0) + count a xs
unfolding insert_by count
count-insert_string a x [] = refl
count-insert_string a x (y ∷ ys) = ground (arith, count-insert_string a x ys)

pub count-sort_strings : (a : String) (xs : List String) → count a (sort_strings xs) ≡ count a xs
unfolding sort_strings count
count-sort_strings a [] = refl
count-sort_strings a (x ∷ xs) =
    count-insert_string a x (sort_by str_lt xs)
    ∙ ap (λ (n : ℕ). (if x == a then 1 else 0) + n) (count-sort_strings a xs)

insert_string_swap :
    (x y : String) (l : List String)
    → insert_by str_lt x (insert_by str_lt y l) ≡ insert_by str_lt y (insert_by str_lt x l)
insert_string_swap x y l = elim (Bool-cases (x == y)) [
  | inl same ↦ cc ((eq_iff x y).0 same)
  | inr other ↦ insert_by_swap (λ (s : String). s) x y l other
]

-- sort.Strings gives one result for the same strings in any order.
pub sort_strings-Permᴰ : {xs ys : List String} → Permᴰ xs ys → sort_strings xs ≡ sort_strings ys
unfolding sort_strings
sort_strings-Permᴰ Permᴰ.nil = refl
sort_strings-Permᴰ (Permᴰ.cons e p) = cc (e, sort_strings-Permᴰ p)
sort_strings-Permᴰ (Permᴰ.swap {a = a} {b = b} {l = l} e e') =
    cc (e, e', insert_string_swap a b (sort_by str_lt l))
sort_strings-Permᴰ (Permᴰ.trans p q) = sort_strings-Permᴰ p ∙ sort_strings-Permᴰ q

pub contains-sort_strings :
    (xs : List String) (x : String) → contains (sort_strings xs) x ≡ contains xs x
contains-sort_strings xs x = ground (
  arith,
  count-sort_strings x xs,
  contains-count xs x,
  count-contains xs x,
  contains-count (sort_strings xs) x,
  count-contains (sort_strings xs) x,
)

-- ===== src/Prelude/Counting.antt =====
-- Slices of strings compared by how often each string stands in them.
use mathlib.Core.List.{List, [], ◌∷◌, ◌++◌, Permᴰ}
use mathlib.Core.List.Permᴰ as PermD
use Prim.Native.Nat.{◌≤◌}
use Prim.Native.String.{String}
use mathlib.Core.Path.{◌≡◌, refl, sym}
use mathlib.Core.Logic.{inl, inr}
use mathlib.Core.Bool.{Bool, true, ◌&&◌, not}
use native.Mathlib.Omega.{arith}
use text.Mathlib.Text.{◌==◌}
use text.Mathlib.TextEquality.{eq_iff}
use text.Mathlib.TextPositions.{eq_refl}
use spexmachina.Prelude.Tests.{Bool-cases}
use spexmachina.Prelude.Sorting.{sort_strings, sort_strings-Permᴰ}
use spexmachina.Prelude.Lists.{
  length, length-append, count, contains, count-contains, contains_of_count, contains-count,
}

pub count-Permᴰ : {xs ys : List String} (a : String) → Permᴰ xs ys → count a xs ≡ count a ys
unfolding count
count-Permᴰ a Permᴰ.nil = refl
count-Permᴰ a (Permᴰ.cons e p) = cc (e, count-Permᴰ a p)
count-Permᴰ a (Permᴰ.swap e e') = rw (e, e') (omega arith)
count-Permᴰ a (Permᴰ.trans p q) = cc (count-Permᴰ a p, count-Permᴰ a q)

take_out :
    (x : String) (ys : List String) → 1 ≤ count x ys → (rest : List String) × Permᴰ ys (x ∷ rest)
unfolding count
take_out x [] h = absurd (omega arith)
take_out x (y ∷ ys) h = elim (Bool-cases (y == x)) [
  | inl same ↦ (ys, Permᴰ.cons ((eq_iff y x).0 same) (PermD.refl ys))
  | inr other ↦
      let (rest, p) = take_out x ys (ground arith) in
      (y ∷ rest, Permᴰ.trans (Permᴰ.cons refl p) (Permᴰ.swap refl refl))
]

-- A slice that holds no string more often than another is a part of it.
pub count-le-Permᴰ :
    (xs ys : List String)
    → ((a : String) → count a xs ≤ count a ys)
    → (rest : List String) × Permᴰ ys (xs ++ rest)
unfolding count
count-le-Permᴰ [] ys h = (ys, PermD.refl ys)
count-le-Permᴰ (x ∷ xs) ys h =
    let (ys', p) = take_out x ys (ground (arith, h x, eq_refl x)) in
    let (rest, q) = count-le-Permᴰ xs ys' (λ a. omega (arith, h a, count-Permᴰ a p)) in
    (rest, Permᴰ.trans p (Permᴰ.cons refl q))

pub length-Permᴰ {ℓ} : {A : Type ℓ} {xs ys : List A} → Permᴰ xs ys → length xs ≡ length ys
length-Permᴰ Permᴰ.nil = refl
length-Permᴰ (Permᴰ.cons e p) = omega (arith, length-Permᴰ p)
length-Permᴰ (Permᴰ.swap e e') = refl
length-Permᴰ (Permᴰ.trans p q) = omega (arith, length-Permᴰ p, length-Permᴰ q)

pub length-le_of_count :
    (xs ys : List String) → ((a : String) → count a xs ≤ count a ys) → length xs ≤ length ys
length-le_of_count xs ys h =
    let (rest, p) = count-le-Permᴰ xs ys h in omega (arith, length-Permᴰ p, length-append xs rest)

pub contains-Permᴰ :
    {xs ys : List String} (a : String) → Permᴰ xs ys → contains xs a ≡ true → contains ys a ≡ true
contains-Permᴰ {xs} {ys} a p h =
    contains_of_count ys a (omega (arith, count-contains xs a h, count-Permᴰ a p))

-- A test for distinct strings, which a proof runs on a concrete slice.
unfoldable pub no_repeats : List String → Bool
unfolding contains
no_repeats [] = true
no_repeats (x ∷ xs) = not (contains xs x) && no_repeats xs

pub count-le_one : (xs : List String) (a : String) → no_repeats xs ≡ true → count a xs ≤ 1
unfolding no_repeats count
count-le_one [] a h = omega arith
count-le_one (x ∷ xs) a h = ground (arith, count-le_one xs a, contains-count xs a, eq_iff x a)

permutation_of_count :
    (xs ys : List String) → ((a : String) → count a xs ≡ count a ys) → Permᴰ ys xs
unfolding count
permutation_of_count [] [] h = Permᴰ.nil
permutation_of_count [] (y ∷ ys) h = absurd (ground (arith, h y, eq_refl y))
permutation_of_count (x ∷ xs) ys h =
    let (ys', p) = take_out x ys (ground (arith, h x, eq_refl x)) in
    Permᴰ.trans p
      (Permᴰ.cons refl (permutation_of_count xs ys' (λ a. omega (arith, h a, count-Permᴰ a p))))

-- sort.Strings gives one result for slices that hold each string equally often.
pub sort_strings_of_count :
    (xs ys : List String)
    → ((a : String) → count a xs ≡ count a ys)
    → sort_strings xs ≡ sort_strings ys
sort_strings_of_count xs ys h = sym (sort_strings-Permᴰ (permutation_of_count xs ys h))

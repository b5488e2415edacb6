-- ===== src/Prelude/Text.antt =====
-- Go strings: equality, the byte order that `<` and `sort.Strings` use, concatenation and
-- prefixes. `String` compares by code points, which orders valid UTF-8 as its bytes do.
use Prim.Native.Nat.{compare as compare_ℕ}
use Prim.Native.Char.{Char, code}
use Prim.Native.String.compare as Compare
use Prim.Native.String.{String, compare}
use mathlib.Core.Path.{◌≡◌, refl}
use mathlib.Core.Bool.{Bool, true, false, ◌&&◌}
use native.Mathlib.Omega.{arith}
use text.Mathlib.Text.{is_lt, is_eq}
use text.Mathlib.TextEquality.{Char-path}
use text.Mathlib.TextPositions.{compare_refl, compare_self}
pub use text.Mathlib.Text.{◌==◌}
pub use text.Mathlib.TextEquality.{eq_iff}
pub use text.Mathlib.TextPositions.{eq_refl}

-- a < b
unfoldable pub str_lt : String → String → Bool
str_lt a b = is_lt (compare a b)

pub str_lt_irrefl : (a : String) → str_lt a a ≡ false
unfolding str_lt
str_lt_irrefl a = rw compare_refl

pub str_lt_asymm : (a b : String) → str_lt a b ≡ true → str_lt b a ≡ false
unfolding str_lt
str_lt_asymm String.[] String.[] h = refl
str_lt_asymm String.[] (String.◌∷◌ d t) h = rw Compare.cons-nil
str_lt_asymm (String.◌∷◌ c s) String.[] h = cc (Compare.cons-nil c s)
str_lt_asymm (String.◌∷◌ c s) (String.◌∷◌ d t) h =
    rw Compare.cons-cons (ground (arith, rw Compare.cons-cons at h, str_lt_asymm s t))

str_lt_not_nil : (a : String) → str_lt a String.[] ≡ false
unfolding str_lt
str_lt_not_nil String.[] = refl
str_lt_not_nil (String.◌∷◌ c s) = rw Compare.cons-nil

pub str_lt_trans : (a b c : String) → str_lt a b ≡ true → str_lt b c ≡ true → str_lt a c ≡ true
unfolding str_lt
str_lt_trans String.[] b String.[] h k = cc (str_lt_not_nil b)
str_lt_trans String.[] b (String.◌∷◌ f u) h k = rw Compare.nil-cons
str_lt_trans (String.◌∷◌ c s) String.[] d h k = cc (Compare.cons-nil c s)
str_lt_trans (String.◌∷◌ c s) (String.◌∷◌ d t) String.[] h k = cc (Compare.cons-nil d t)
str_lt_trans (String.◌∷◌ c s) (String.◌∷◌ d t) (String.◌∷◌ f u) h k =
    rw Compare.cons-cons
      (ground (arith, rw Compare.cons-cons at h, rw Compare.cons-cons at k, str_lt_trans s t u))

-- Trichotomy.
pub str_lt_total : (a b : String) → str_lt a b ≡ false → str_lt b a ≡ false → a ≡ b
unfolding str_lt
str_lt_total String.[] String.[] h k = refl
str_lt_total String.[] (String.◌∷◌ d t) h k = cc (Compare.nil-cons d t)
str_lt_total (String.◌∷◌ c s) String.[] h k = cc (Compare.nil-cons c s)
str_lt_total (String.◌∷◌ c s) (String.◌∷◌ d t) h k =
    ground
      (arith, rw Compare.cons-cons at h, rw Compare.cons-cons at k, str_lt_total s t, Char-path c d)

-- fmt.Sprintf with `%s` verbs, and `+`.
infixr 65 ◌⊕◌
abbrev pub ◌⊕◌ : String → String → String
String.[] ⊕ t = t
(String.◌∷◌ c s) ⊕ t = String.◌∷◌ c (s ⊕ t)

-- strings.HasPrefix(s, prefix), as `len(s) >= len(p) && s[:len(p)] == p`.
abbrev pub has_prefix : String → String → Bool
has_prefix s String.[] = true
has_prefix String.[] (String.◌∷◌ d p) = false
has_prefix (String.◌∷◌ c s) (String.◌∷◌ d p) = is_eq (compare_ℕ (code c) (code d)) && has_prefix s p

pub has_prefix-append : (p s : String) → has_prefix (p ⊕ s) p ≡ true
has_prefix-append String.[] s = refl
has_prefix-append (String.◌∷◌ c p) s = rw compare_self (has_prefix-append p s)

-- Two strings with different order are different, and different strings are ordered.
pub str_lt_ne : (a b : String) → str_lt a b ≡ true → (a == b) ≡ false
str_lt_ne a b h = ground (arith, eq_iff a b, str_lt_irrefl a)

pub cons_not_empty : (c : Char) (s : String) → (String.◌∷◌ c s == "") ≡ false
cons_not_empty c s = rw Compare.cons-nil refl

pub append_not_empty : (s : String) (c : Char) (t : String) → ((s ⊕ String.◌∷◌ c t) == "") ≡ false
append_not_empty String.[] c t = cons_not_empty c t
append_not_empty (String.◌∷◌ d s) c t = cons_not_empty d (s ⊕ String.◌∷◌ c t)

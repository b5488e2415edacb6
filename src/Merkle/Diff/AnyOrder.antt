-- ===== src/Merkle/Diff/AnyOrder.antt =====
-- Diff ranges over Go maps, in any order: what it returns does not depend on that order.
use mathlib.Core.List.{Permᴰ}
use spexmachina.Prelude.{
  String, List, [], ◌∷◌, eq_iff, eq_refl, true, false, fetch, str_lt, str_lt_ne, str_lt_total, keep,
  HasKeysOnce, ◌≡◌, refl, ◌∙◌, ap, sym, arith, inl, inr, Bool-cases, All, IsSorted,
  sort_by-IsSorted, key_order,
}
use spexmachina.Merkle.Tree.{LeafMap}
use spexmachina.Merkle.Diff.{Change, by_key, diff_maps}
use spexmachina.Merkle.Diff.Spec.{with_key, keep-diff_maps}

none_below :
    (k : String) (d : Change) (l : List Change)
    → str_lt k d.key ≡ true
    → All (λ y. by_key y d ≡ false) l
    → keep (with_key k) l ≡ []
none_below k d [] less h = refl
none_below k d (y ∷ l) less h = ground (arith, none_below k d l less h.1, h.0, eq_iff y.key k)

-- A list of changes in order is determined by its changes of each key.
not_below :
    (c d : Change) (l l' : List Change)
    → All (λ y. by_key y d ≡ false) l'
    → keep (with_key c.key) (c ∷ l) ≡ keep (with_key c.key) (d ∷ l')
    → by_key c d ≡ false
not_below c d l l' h e = elim (Bool-cases (str_lt c.key d.key)) [
  | inr more ↦ more
  | inl less ↦ ground (
    arith,
    e,
    none_below c.key d l' less h,
    eq_refl c.key,
    str_lt_ne c.key d.key,
    eq_iff d.key c.key,
    eq_iff c.key d.key,
  )
]

same_head :
    (c d : Change) (l l' : List Change)
    → c.key ≡ d.key
    → keep (with_key c.key) (c ∷ l) ≡ keep (with_key c.key) (d ∷ l')
    → c ≡ d
same_head c d l l' k e = ground (arith, e, k, eq_refl c.key, eq_iff d.key c.key)

same_tail :
    (k : String) (c d : Change) (l l' : List Change)
    → c ≡ d
    → keep (with_key k) (c ∷ l) ≡ keep (with_key k) (d ∷ l')
    → keep (with_key k) l ≡ keep (with_key k) l'
same_tail k c d l l' same e = ground (arith, e, same)

eq_of_keep :
    (l l' : List Change)
    → IsSorted by_key l
    → IsSorted by_key l'
    → ((k : String) → keep (with_key k) l ≡ keep (with_key k) l')
    → l ≡ l'
eq_of_keep [] [] s s' h = refl
eq_of_keep [] (d ∷ l') s s' h = ground (arith, h d.key, eq_refl d.key)
eq_of_keep (c ∷ l) [] s s' h = ground (arith, h c.key, eq_refl c.key)
eq_of_keep (c ∷ l) (d ∷ l') s s' h =
    let same_key =
      str_lt_total c.key d.key (not_below c d l l' s'.0 (h c.key))
        (not_below d c l' l s.0 (sym (h d.key))) in
    let same = same_head c d l l' same_key (h c.key) in
    cc (same, eq_of_keep l l' s.1 s'.1 (λ k. same_tail k c d l l' same (h k)))

-- A map in another order is the same map.
module _ {ℓ} {V : Type ℓ} where
  fetch-Permᴰ :
      {m m' : List (String × V)} (k : String)
      → Permᴰ m m'
      → HasKeysOnce m
      → (fetch m k ≡ fetch m' k) × HasKeysOnce m'
  unfolding fetch
  fetch-Permᴰ k Permᴰ.nil once = (refl, tt)
  fetch-Permᴰ k (Permᴰ.cons {a = a} {b = b} e p) once =
      let (same, once') = fetch-Permᴰ k p once.1 in
      let (same_a, _) = fetch-Permᴰ a.0 p once.1 in
      (cc (e, same), (ap (fetch _) (sym (ap (λ entry. entry.0) e)) ∙ sym same_a ∙ once.0, once'))
  fetch-Permᴰ k (Permᴰ.swap {a = a} {b = b} {l = l} e e') once =
      rw (sym e, sym e')
        (
          ground (arith, once.0, eq_iff a.0 k, eq_iff b.0 k, eq_iff b.0 a.0),
          (
            ground (arith, once.0, once.1.0, eq_iff a.0 b.0, eq_iff b.0 a.0),
            (ground (arith, once.0, eq_iff b.0 a.0), once.1.1),
          ),
        )
  fetch-Permᴰ k (Permᴰ.trans p q) once =
      let (same, once') = fetch-Permᴰ k p once in
      let (same', once'') = fetch-Permᴰ k q once' in (same ∙ same', once'')

-- The changes that Diff computes from the two leaf maps do not depend on the order in which Go
-- ranges over these maps: two orders of each map, no key of which stands twice, give one list.
pub diff_maps-Permᴰ :
    {current current' snapshot snapshot' : LeafMap}
    → HasKeysOnce current
    → HasKeysOnce snapshot
    → Permᴰ current current'
    → Permᴰ snapshot snapshot'
    → diff_maps current snapshot ≡ diff_maps current' snapshot'
unfolding diff_maps
diff_maps-Permᴰ {current} {current'} {snapshot} {snapshot'} once once' p p' =
    eq_of_keep (diff_maps current snapshot) (diff_maps current' snapshot')
      (sort_by-IsSorted by_key (key_order (λ c. c.key)) _)
      (sort_by-IsSorted by_key (key_order (λ c. c.key)) _)
      (λ k.
        let (same, kept) = fetch-Permᴰ k p once in
        let (same', kept') = fetch-Permᴰ k p' once' in
        keep-diff_maps current snapshot k once once'
        ∙ cc (same, same')
        ∙ sym (keep-diff_maps current' snapshot' k kept kept'))

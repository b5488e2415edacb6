-- ===== src/Plan/Matcher/Lists.antt =====
-- The matches and the unmatched list of MatchNodes.
use mathlib.Core.Bool.{◌&&◌}
use spexmachina.Prelude.{
  Bool, true, false, not, List, [], ◌∷◌, ◌++◌, map, if◌then◌else◌, keep, sort_by, arith, ◌≡◌, refl,
  ap, sym, ◌∙◌, Bool-cases, inl, inr,
}
use spexmachina.Merkle.Impact.{ClassifiedChange}
use spexmachina.Plan.Matcher.{
  Pairing, Match, Unmatched, Matching, is_structural, is_removed, pairings_of, by_task, add_match,
  route, match_loop, nothing_matched, match_nodes,
}
use spexmachina.Plan.Matcher.Routing.{
  is_empty, add_orphans-lists, mark_matched-lists, goes_to_matches, goes_to_unmatched, step,
}

abbrev pub match_of : List Pairing → ClassifiedChange → Match
match_of pairings c = record {
  change = c;
  records = sort_by by_task (pairings_of pairings c.change.key);
}

abbrev pub unmatched_of : ClassifiedChange → Unmatched
unmatched_of c = record { change = c }

route-matches :
    (c : ClassifiedChange) (found : List Pairing) (st : Matching)
    → (route c found st).matches ≡ (
        if not (is_removed c.change.type) && not (is_empty found)
        then st.matches ++ record { change = c; records = sort_by by_task found } ∷ []
        else st.matches)
unfolding route is_empty
route-matches c [] st = ground arith
route-matches c (p ∷ found) st = ground (
  arith,
  (mark_matched-lists (p ∷ found) (add_match c (sort_by by_task (p ∷ found)) st)).0,
  (add_orphans-lists (p ∷ found) c.change.node_type st).1,
)

route-unmatched :
    (c : ClassifiedChange) (found : List Pairing) (st : Matching)
    → (route c found st).unmatched ≡ (
        if not (is_removed c.change.type) && is_empty found
        then st.unmatched ++ unmatched_of c ∷ []
        else st.unmatched)
unfolding route is_empty
route-unmatched c [] st = ground arith
route-unmatched c (p ∷ found) st = ground (
  arith,
  (mark_matched-lists (p ∷ found) (add_match c (sort_by by_task (p ∷ found)) st)).1,
  (add_orphans-lists (p ∷ found) c.change.node_type st).2,
)

step-matches :
    (c : ClassifiedChange) (pairings : List Pairing) (st : Matching)
    → (step c pairings st).matches
      ≡ (if goes_to_matches pairings c then st.matches ++ match_of pairings c ∷ [] else st.matches)
step-matches c pairings st = elim (Bool-cases (is_structural c.impact)) [
  | inl e ↦ rw e refl
  | inr e ↦ rw e (route-matches c (pairings_of pairings c.change.key) st)
]

not_involutive : (b : Bool) → not (not b) ≡ b
not_involutive true = refl
not_involutive false = refl

step-unmatched :
    (c : ClassifiedChange) (pairings : List Pairing) (st : Matching)
    → (step c pairings st).unmatched
      ≡ (if goes_to_unmatched pairings c then st.unmatched ++ unmatched_of c ∷ [] else st.unmatched)
step-unmatched c pairings st = elim (Bool-cases (is_structural c.impact)) [
  | inl e ↦ rw e refl
  | inr e ↦
      rw (e, not_involutive (is_empty (pairings_of pairings c.change.key)))
        (route-unmatched c (pairings_of pairings c.change.key) st)
]

append_assoc : {A : Type 0} (xs ys zs : List A) → (xs ++ ys) ++ zs ≡ xs ++ (ys ++ zs)
append_assoc [] ys zs = refl
append_assoc (x ∷ xs) ys zs = ap (λ l. x ∷ l) (append_assoc xs ys zs)

append_nil : {A : Type 0} (xs : List A) → xs ++ [] ≡ xs
append_nil [] = refl
append_nil (x ∷ xs) = ap (λ l. x ∷ l) (append_nil xs)

append_mapped :
    {A B : Type 0} (f : A → B) (b : Bool) (x : A) (rest : List A) (xs ys : List B)
    → xs ≡ (if b then ys ++ f x ∷ [] else ys)
    → xs ++ map f rest ≡ ys ++ map f (if b then x ∷ rest else rest)
append_mapped f true x rest xs ys e = cc (e, append_assoc ys (f x ∷ []) (map f rest))
append_mapped f false x rest xs ys e = ap (λ l. l ++ map f rest) e

loop-matches :
    (changes : List ClassifiedChange) (pairings : List Pairing) (st : Matching)
    → (match_loop changes pairings st).matches
      ≡ st.matches ++ map (match_of pairings) (keep (goes_to_matches pairings) changes)
unfolding match_loop
loop-matches [] pairings st = sym (append_nil st.matches)
loop-matches (c ∷ changes) pairings st =
    loop-matches changes pairings (step c pairings st)
    ∙ append_mapped (match_of pairings) (goes_to_matches pairings c) c
        (keep (goes_to_matches pairings) changes) _ _ (step-matches c pairings st)

loop-unmatched :
    (changes : List ClassifiedChange) (pairings : List Pairing) (st : Matching)
    → (match_loop changes pairings st).unmatched
      ≡ st.unmatched ++ map unmatched_of (keep (goes_to_unmatched pairings) changes)
unfolding match_loop
loop-unmatched [] pairings st = sym (append_nil st.unmatched)
loop-unmatched (c ∷ changes) pairings st =
    loop-unmatched changes pairings (step c pairings st)
    ∙ append_mapped (unmatched_of) (goes_to_unmatched pairings c) c
        (keep (goes_to_unmatched pairings) changes) _ _ (step-unmatched c pairings st)

-- The matches of MatchNodes are, in the order of the changes, those changes that are neither
-- structural nor removed and whose node has a pairing, each with all pairings of its node, by task.
pub match_nodes-matches :
    (changes : List ClassifiedChange) (pairings : List Pairing)
    → (match_nodes changes pairings).0
      ≡ map (match_of pairings) (keep (goes_to_matches pairings) changes)
unfolding match_nodes
match_nodes-matches changes pairings = loop-matches changes pairings nothing_matched

-- The unmatched list of MatchNodes is, in the order of the changes, those changes that are neither
-- structural nor removed and whose node has no pairing.
pub match_nodes-unmatched :
    (changes : List ClassifiedChange) (pairings : List Pairing)
    → (match_nodes changes pairings).1
      ≡ map unmatched_of (keep (goes_to_unmatched pairings) changes)
unfolding match_nodes
match_nodes-unmatched changes pairings = loop-unmatched changes pairings nothing_matched

-- ===== src/Plan/Kahn/Release.antt =====
-- The inner loop of kahnSort, one id at a time: how `release` changes the counter of `x` and how
-- often it puts `x` among the ready ids.
use spexmachina.Prelude.{
  ℕ, zero, suc, ◌+◌, ◌-◌, ◌≤◌, String, List, [], ◌∷◌, ◌&&◌, ◌==◌, eq_iff, Bool-cases, if◌then◌else◌,
  count, update, str_lt, insert_by, count-insert_string, ℤ, pos, dec, is_zero, ltb, nat_eq, ◌≡◌,
  arith, inl, inr,
}
use spexmachina.Plan.Kahn.{release}

pub release_lem :
    (cs : List String) (ind : String → ℤ) (ready : List String) (x : String) (m : ℕ)
    → ind x ≡ pos m
    → count x cs ≤ m
    → ((release cs ind ready).0 x ≡ pos (m - count x cs))
      × (count x (release cs ind ready).1
          ≡ count x ready + (if ltb 0 m && nat_eq m (count x cs) then 1 else 0))
unfolding release count
release_lem [] ind ready x m h le = (ground arith, ground arith)
release_lem (c ∷ cs) ind ready x zero h le = ground (
  arith,
  eq_iff c x,
  count-insert_string x c ready,
  release_lem cs (update ind c (dec (ind c)))
      (if is_zero (dec (ind c)) then insert_by str_lt c ready else ready) x 0,
)
release_lem (c ∷ cs) ind ready x (suc m) h le = elim (Bool-cases (c == x)) [
  | inl same ↦ ground (
    arith,
    eq_iff c x,
    count-insert_string x c ready,
    release_lem cs (update ind c (dec (ind c)))
        (if is_zero (dec (ind c)) then insert_by str_lt c ready else ready) x m,
  )
  | inr other ↦ ground (
    arith,
    eq_iff c x,
    count-insert_string x c ready,
    release_lem cs (update ind c (dec (ind c)))
        (if is_zero (dec (ind c)) then insert_by str_lt c ready else ready) x (suc m),
  )
]

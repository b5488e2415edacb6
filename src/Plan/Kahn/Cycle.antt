-- ===== src/Plan/Kahn/Cycle.antt =====
-- When kahnSort refuses: the ids that its error names wait for one another, and a layer whose
-- deps follow a ranking is never refused.
use mathlib.Core.List.{Memᴰ}
use spexmachina.Prelude.{
  ℕ, zero, suc, ◌≤◌, ◌<◌, String, List, [], ◌∷◌, map, Bool, true, false, ◌==◌, eq_iff, eq_refl,
  Bool-cases, if◌then◌else◌, All, All-Memᴰ, length, length-map, keep, count, count-keep, contains,
  contains-count, count-contains, contains_of_count, ℤ, is_pos, nat_eq, Result, ok, err, ◌≡◌, ◌≢◌,
  refl, ◌∙◌, ap, ◌⊎◌, arith, inl, inr, length-le_of_count, sym, sort_strings, count-sort_strings,
}
use spexmachina.Plan.Types.{Action}
use spexmachina.Plan.Kahn.{SortError, cycle, ids, keys, finish, kahn_sort}
use spexmachina.Plan.Kahn.Edges.{edges_of, edges, pending, pending-append}
use spexmachina.Plan.Kahn.Loop.{Inv}
use spexmachina.Plan.Kahn.Run.{IsUnique, layer_edges, by_id, kahn_run}

-- Some node with this id has a dep that is a node of the layer and stands among `stuck`.
pub record Waits (nodes : List Action) (stuck : List String) (x : String) : Type 0 where
  pub waiting : Action
  pub in_batch : Memᴰ waiting nodes
  pub named : waiting.spec_node_id ≡ x
  pub dep : String
  pub declared : Memᴰ dep waiting.dep_spec_node_ids
  pub in_layer : contains (ids nodes) dep ≡ true
  pub also_stuck : contains stuck dep ≡ true

waits_for_dep :
    (f : String → Bool) (id : String) (deps placed : List String) (x : String)
    → 1 ≤ pending (edges_of f id deps) placed x
    → (dep : String) × (id ≡ x) × Memᴰ dep deps × (f dep ≡ true) × (contains placed dep ≡ false)
unfolding edges_of pending
waits_for_dep f id [] placed x h = absurd (omega arith)
waits_for_dep f id (d ∷ deps) placed x h = elim (Bool-cases (f d)) [
  | inl here ↦ elim (Bool-cases (contains placed d)) [
    | inl old ↦
        let (dep, e, m, r, q) = waits_for_dep f id deps placed x (ground arith) in
        (dep, e, Memᴰ.tail m, r, q)
    | inr new ↦ elim (Bool-cases (id == x)) [
      | inl same ↦ (d, (eq_iff id x).0 same, Memᴰ.head refl, here, new)
      | inr other ↦
          let (dep, e, m, r, q) = waits_for_dep f id deps placed x (ground arith) in
          (dep, e, Memᴰ.tail m, r, q)
    ]
  ]
  | inr away ↦
      let (dep, e, m, r, q) = waits_for_dep f id deps placed x (ground arith) in
      (dep, e, Memᴰ.tail m, r, q)
]

waits_in :
    (f : String → Bool) (ns : List Action) (placed : List String) (x : String)
    → 1 ≤ pending (edges f ns) placed x
    → (n : Action) × (dep : String) × Memᴰ n ns
      × (n.spec_node_id ≡ x)
      × Memᴰ dep n.dep_spec_node_ids
      × (f dep ≡ true)
      × (contains placed dep ≡ false)
unfolding edges
waits_in f [] placed x h = unfold pending in absurd (omega arith)
waits_in f (n ∷ ns) placed x h =
    elim (Bool-cases
      (nat_eq (pending (edges_of f n.spec_node_id n.dep_spec_node_ids) placed x) 0)) [
        | inl zero_here ↦
            let (m, dep, inside, e, d, r, q) = waits_in f ns placed x (
              ground (
                arith,
                pending-append (edges_of f n.spec_node_id n.dep_spec_node_ids) (edges f ns) placed
                    x,
              )) in
            (m, dep, Memᴰ.tail inside, e, d, r, q)
        | inr some_here ↦
            let (dep, e, d, r, q) =
              waits_for_dep f n.spec_node_id n.dep_spec_node_ids placed x (ground arith) in
            (n, dep, Memᴰ.head refl, e, d, r, q)
      ]

-- The ids that the error of kahnSort names.
abbrev stuck_ids : List Action → (String → ℤ) → List String
stuck_ids nodes ind = sort_strings (keep (λ id. is_pos (ind id)) (keys (ids nodes)))

count-keys : (x : String) (xs : List String) → count x (keys xs) ≡ (if contains xs x then 1 else 0)
unfolding keys count contains
count-keys x [] = ground arith
count-keys x (y ∷ ys) = ground (arith, count-keys x ys, eq_iff y x)

count-stuck_ids :
    (nodes : List Action) (ind : String → ℤ) (x : String)
    → count x (stuck_ids nodes ind)
      ≡ (if is_pos (ind x) then (if contains (ids nodes) x then 1 else 0) else 0)
count-stuck_ids nodes ind x = rw (count-sort_strings, count-keep, count-keys)

module _ (nodes : List Action) (ind : String → ℤ) (placed : List String)
    (inv : Inv (layer_edges nodes) (ids nodes) ind [] placed) where
  waits :
      (x : String) → contains (stuck_ids nodes ind) x ≡ true → Waits nodes (stuck_ids nodes ind) x
  waits x h =
      let (n, dep, inside, e, d, here, new) = waits_in (contains (ids nodes)) nodes placed x (
        ground (
          arith,
          inv.degrees x,
          count-contains (stuck_ids nodes ind) x,
          count-stuck_ids nodes ind x,
        )) in
      record {
        waiting = n;
        in_batch = inside;
        named = e;
        dep = dep;
        declared = d;
        in_layer = here;
        also_stuck = contains_of_count (stuck_ids nodes ind) dep (
            unfold count in
            ground (
              arith,
              inv.degrees dep,
              inv.shares dep,
              count-stuck_ids nodes ind dep,
              count-contains (ids nodes) dep,
              contains-count placed dep,
            ));
      }

  nonempty : length placed ≢ length nodes → stuck_ids nodes ind ≢ []
  nonempty short none_stuck =
      let all_placed : (a : String) → count a placed ≡ count a (ids nodes) = λ a.
        unfold count in
        ground (
          arith,
          inv.shares a,
          inv.degrees a,
          count-stuck_ids nodes ind a,
          ap (count a) none_stuck,
          contains-count (ids nodes) a,
        ) in
      short (
        omega (
          arith,
          length-map (λ (n : Action). n.spec_node_id) nodes,
          length-le_of_count placed (ids nodes) (λ a. omega (arith, all_placed a)),
          length-le_of_count (ids nodes) placed (λ a. omega (arith, all_placed a)),
        ))

finish-err :
    (nodes : List Action) (ind : String → ℤ) (order : List Action) (e : SortError)
    → finish nodes (ind, order) ≡ err e
    → (length order ≢ length nodes) × (e ≡ cycle (stuck_ids nodes ind))
unfolding finish
finish-err nodes ind order e h = (λ full. ground arith, ground arith)

-- When kahnSort refuses a layer of distinct ids, its error is a cycle error that names at least one id, and each id
-- that it names has a dep in the layer that it names too.
pub kahn_sort-err :
    (nodes : List Action) (e : SortError)
    → IsUnique nodes
    → kahn_sort nodes ≡ err e
    → (stuck : List String) × (e ≡ cycle stuck)
      × (stuck ≢ [])
      × ((x : String) → contains stuck x ≡ true → Waits nodes stuck x)
kahn_sort-err nodes e unique h =
    let (ind, placed, run, inv) = kahn_run nodes unique in
    let (short, named) = finish-err nodes ind (map (by_id nodes) placed) e (sym run ∙ h) in
    (
      stuck_ids nodes ind,
      named,
      nonempty nodes ind placed inv
          (λ full. short (omega (arith, length-map (by_id nodes) placed))),
      waits nodes ind placed inv,
    )

-- A ranking of the ids under which every in-layer dep of a node ranks below it.
abbrev pub IsRanked : (String → ℕ) → List Action → Type 0
IsRanked rank nodes =
    All
      (λ n.
        All (λ dep. contains (ids nodes) dep ≡ true → rank dep < rank n.spec_node_id)
          n.dep_spec_node_ids)
      nodes

module _ (rank : String → ℕ) (nodes : List Action) (ranked : IsRanked rank nodes)
    (stuck : List String)
    (waits_all : (x : String) → contains stuck x ≡ true → Waits nodes stuck x) where
  -- Infinite descent: whatever is stuck ranks above any number.
  descent : (n : ℕ) (x : String) → contains stuck x ≡ true → n ≤ rank x
  descent zero x h = omega arith
  descent (suc n) x h =
      let w = waits_all x h in
      let below =
        All-Memᴰ _ w.waiting.dep_spec_node_ids (All-Memᴰ _ nodes ranked w.in_batch) w.declared
          w.in_layer in
      omega (arith, descent n w.dep w.also_stuck, ap rank w.named)

none_stuck :
    (rank : String → ℕ) (nodes : List Action) (stuck : List String)
    → IsRanked rank nodes
    → ((x : String) → contains stuck x ≡ true → Waits nodes stuck x)
    → stuck ≡ []
none_stuck rank nodes [] ranked w = refl
none_stuck rank nodes (x ∷ xs) ranked w = absurd (
    omega (
      arith,
      descent rank nodes ranked (x ∷ xs) w (suc (rank x)) x
          (unfold contains in ground (arith, eq_refl x)),
    ))

Result-cases :
    (r : Result SortError (List Action))
    → ((order : List Action) × (r ≡ ok order)) ⊎ ((e : SortError) × (r ≡ err e))
Result-cases (ok order) = inl (order, refl)
Result-cases (err e) = inr (e, refl)

-- kahnSort succeeds on every layer of distinct ids whose in-layer deps follow a ranking.
pub kahn_sort_total :
    (rank : String → ℕ) (nodes : List Action)
    → IsUnique nodes
    → IsRanked rank nodes
    → (order : List Action) × (kahn_sort nodes ≡ ok order)
kahn_sort_total rank nodes unique ranked = elim (Result-cases (kahn_sort nodes)) [
  | inl found ↦ found
  | inr (e, h) ↦
      let (stuck, named, some_stuck, w) = kahn_sort-err nodes e unique h in
      absurd (some_stuck (none_stuck rank nodes stuck ranked w))
]

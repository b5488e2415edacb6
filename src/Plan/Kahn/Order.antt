-- ===== src/Plan/Kahn/Order.antt =====
-- What kahnSort returns when it succeeds: the layer's creates, each behind its deps in the layer.
use mathlib.Core.List.{append-nil, Permᴰ}
use mathlib.Core.List.Permᴰ as PermD
use spexmachina.Prelude.{
  String, List, [], ◌∷◌, ◌++◌, map, Bool, true, eq_refl, All, length-append, All-Permᴰ, All-imp,
  All-zip, All-map, length, length-map, count, contains, ℤ, ok, ◌≡◌, refl, ◌∙◌, arith,
  count-le-Permᴰ, length-Permᴰ, sym,
}
use spexmachina.Plan.Types.{Action}
use spexmachina.Plan.Kahn.{ids, finish, kahn_sort}
use spexmachina.Plan.Kahn.Edges.{edges_of, edges, pending, pending-append}
use spexmachina.Plan.Kahn.Loop.{Inv, IsOrdered}
use spexmachina.Plan.Kahn.Run.{IsUnique, layer_edges, by_id, by_spec_id_lem, kahn_run}

-- Each action stands behind those of its deps that pass the test, counting `seen` as placed.
abbrev pub DepsFirst : (String → Bool) → List String → List Action → Type 0
DepsFirst inside seen [] = Unit
DepsFirst inside seen (a ∷ rest) =
    All (λ dep. inside dep ≡ true → contains seen dep ≡ true) a.dep_spec_node_ids
    × DepsFirst inside (seen ++ a.spec_node_id ∷ []) rest

-- A node with no pending edge has its deps placed.
abbrev pub Settled : List Action → Action → Type 0
Settled nodes n =
    (seen : List String)
    → pending (layer_edges nodes) seen n.spec_node_id ≡ 0
    → All (λ dep. contains (ids nodes) dep ≡ true → contains seen dep ≡ true) n.dep_spec_node_ids

settled_of :
    (f : String → Bool) (id : String) (deps seen : List String)
    → pending (edges_of f id deps) seen id ≡ 0
    → All (λ dep. f dep ≡ true → contains seen dep ≡ true) deps
unfolding edges_of pending
settled_of f id [] seen h = tt
settled_of f id (d ∷ deps) seen h =
    (λ here. ground (arith, eq_refl id), settled_of f id deps seen (ground (arith)))

settled_in :
    (f : String → Bool) (ns : List Action)
    → All
        (λ n.
          (seen : List String)
          → pending (edges f ns) seen n.spec_node_id ≡ 0
          → All (λ dep. f dep ≡ true → contains seen dep ≡ true) n.dep_spec_node_ids)
        ns
unfolding edges
settled_in f [] = tt
settled_in f (n ∷ ns) = (
  λ seen e. settled_of f n.spec_node_id n.dep_spec_node_ids seen (
      omega (
        arith,
        pending-append (edges_of f n.spec_node_id n.dep_spec_node_ids) (edges f ns) seen
            n.spec_node_id,
      )),
  All-imp ns
      (λ n' g seen e. g seen (
        omega (
          arith,
          pending-append (edges_of f n.spec_node_id n.dep_spec_node_ids) (edges f ns) seen
              n'.spec_node_id,
        )))
      (settled_in f ns),
)

finish-ok :
    (nodes : List Action) (ind : String → ℤ) (order out : List Action)
    → finish nodes (ind, order) ≡ ok out
    → (length order ≡ length nodes) × (out ≡ order)
unfolding finish
finish-ok nodes ind order out h = ground arith

nil_of_length : (xs : List String) → length xs ≡ 0 → xs ≡ []
nil_of_length [] h = refl
nil_of_length (x ∷ xs) h = absurd (omega arith)

-- What the order needs to know of the node that stands for an id.
abbrev Stands : List Action → String → Type 0
Stands nodes k = (by_id nodes k).spec_node_id ≡ k × Settled nodes (by_id nodes k)

module _ (nodes : List Action) (unique : IsUnique nodes) where
  named : All (λ n. by_id nodes n.spec_node_id ≡ n) nodes
  named = by_spec_id_lem nodes _ unique

  stands : All (Stands nodes) (ids nodes)
  stands =
      All-map (λ (n : Action). n.spec_node_id) (Stands nodes) nodes
        (All-zip nodes (λ n e settled. rw e (refl, settled)) named
          (settled_in (contains (ids nodes)) nodes))

  map-by_id :
      (ns : List Action)
      → All (λ n. by_id nodes n.spec_node_id ≡ n) ns
      → map (by_id nodes) (ids ns) ≡ ns
  map-by_id [] h = refl
  map-by_id (n ∷ ns) h = cc (h.0, map-by_id ns h.1)

  deps_first :
      (seen placed : List String)
      → All (Stands nodes) placed
      → IsOrdered (layer_edges nodes) seen placed
      → DepsFirst (contains (ids nodes)) seen (map (by_id nodes) placed)
  deps_first seen [] s h = tt
  deps_first seen (k ∷ placed) s h =
      (s.0.1 seen (rw s.0.0 h.0), rw s.0.0 (deps_first (seen ++ k ∷ []) placed s.1 h.1))

  placed_all :
      (ind : String → ℤ) (placed : List String)
      → Inv (layer_edges nodes) (ids nodes) ind [] placed
      → length placed ≡ length nodes
      → Permᴰ (ids nodes) placed
  placed_all ind placed inv same =
      let (rest, p) =
        count-le-Permᴰ placed (ids nodes) (λ a. unfold count in ground (arith, inv.shares a)) in
      let none_left = nil_of_length rest (
        omega (
          arith,
          length-Permᴰ p,
          length-append placed rest,
          length-map (λ (a : Action). a.spec_node_id) nodes,
        )) in
      rw (none_left, append-nil) at p

  -- A successful kahnSort returns the layer's creates, each once and behind its deps in the layer.
  pub kahn_sort-ok :
      (order : List Action)
      → kahn_sort nodes ≡ ok order
      → Permᴰ nodes order × DepsFirst (contains (ids nodes)) [] order
  kahn_sort-ok order e =
      let (ind, placed, run, inv) = kahn_run nodes unique in
      let (full, same) = finish-ok nodes ind (map (by_id nodes) placed) order (sym run ∙ e) in
      let p = placed_all ind placed inv (omega (arith, length-map (by_id nodes) placed)) in
      rw same (
        rw (map-by_id nodes named) at (PermD.map (by_id nodes) p),
        deps_first [] placed (All-Permᴰ (Stands nodes) p stands) inv.ordered,
      )

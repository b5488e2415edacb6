-- ===== src/Validator/Dag/Cycles.antt =====
-- detectStringCycles ends, reports cycles, and misses none in a graph that has one.
use spexmachina.Prelude.{
  contains-append, String, ℕ, ◌≤◌, List, [], ◌∷◌, ◌++◌, some, ◌==◌, fetch, All, contains,
  contains-sort_strings, sort_strings, length, true, ◌≡◌, ◌↔◌, refl, sym, ap, subst, inl, inr,
  arith, ◌∙◌, Bool-cases, eq_iff, eq_refl,
}
use spexmachina.Validator.Dag.{
  Adjacency, Color, black, Search, graph_keys, neighbors, search_all, mentions, no_search,
  detect_string_cycles,
}
use spexmachina.Validator.Dag.Trail.{IsEdge, IsWalk, IsCycle, not_first}
use spexmachina.Validator.Dag.Paint.{Color-cases, whites, Grows-black}
use spexmachina.Validator.Dag.Order.{IsOrder}
use spexmachina.Validator.Dag.Dive.{
  IsStack, Outcome, Outcome-refl, Outcome-trans, Grows-IsStack, member_first, member_rest,
}
use spexmachina.Validator.Dag.Total.{dfs-Dives}
use spexmachina.Validator.Dag.Closed.{closed_acyclic}

-- The nodes of edges and the graph_keys are among those that the map names.
edge_mentioned :
    (adj : Adjacency) (a b : String) → IsEdge adj a b → contains (mentions adj) b ≡ true
unfolding neighbors fetch contains
edge_mentioned [] a b = λ h. cc h
edge_mentioned (entry ∷ adj) a b = elim (Bool-cases (entry.0 == a)) [
  | inl e ↦ rw (e, neighbors) (λ h. ground (arith, h, contains-append entry.1 (mentions adj) b))
  | inr e ↦
      rw (e, neighbors)
        (λ h. ground (arith, edge_mentioned adj a b h, contains-append entry.1 (mentions adj) b))
]

key_mentioned :
    (adj : Adjacency) (a : String)
    → contains (graph_keys adj) a ≡ true
    → contains (mentions adj) a ≡ true
unfolding contains
key_mentioned [] a h = h
key_mentioned (entry ∷ adj) a h =
    ground (arith, h, key_mentioned adj a, contains-append entry.1 (mentions adj) a)

-- A node with an edge is a key.
edge-key : (adj : Adjacency) (a b : String) → IsEdge adj a b → contains (graph_keys adj) a ≡ true
unfolding neighbors fetch contains
edge-key [] a b = λ h. cc h
edge-key (entry ∷ adj) a b = elim (Bool-cases (entry.0 == a)) [
  | inl e ↦ λ h. ground (arith, e)
  | inr e ↦ rw (e, neighbors) (λ h. ground (arith, edge-key adj a b h))
]

whites-length : (color : String → Color) (xs : List String) → whites color xs ≤ length xs
unfolding whites
whites-length color [] = omega arith
whites-length color (x ∷ xs) = elim (Color-cases (color x)) [
  | inl e ↦ rw e (omega (arith, whites-length color xs))
  | inr (inl e) ↦ rw e (omega (arith, whites-length color xs))
  | inr (inr e) ↦ rw e (omega (arith, whites-length color xs))
]

no_gray : (x : String) → contains [] x ≡ true → ⊥
unfolding contains
no_gray x h = cc h

finished :
    (node : String) (nodes : List String) (s : Search)
    → s.color node ≡ black
    → ((x : String) → contains nodes x ≡ true → s.color x ≡ black)
    → (x : String) → contains (node ∷ nodes) x ≡ true
    → s.color x ≡ black
finished node nodes s b rest x h = elim (Bool-cases (node == x)) [
  | inl e ↦ ap s.color (sym ((eq_iff node x).0 e)) ∙ b
  | inr e ↦ rest x (not_first node x nodes e h)
]

module _ (adj : Adjacency) where
  abbrev bound : ℕ
  bound = length (mentions adj)

  search_all-ends :
      (nodes : List String) (s : Search)
      → IsStack adj [] s
      → ((x : String) → contains nodes x ≡ true → contains (mentions adj) x ≡ true)
      → (s' : Search) × (search_all adj bound nodes s ≡ some s')
        × Outcome adj s s'
        × ((x : String) → contains nodes x ≡ true → s'.color x ≡ black)
  unfolding search_all contains
  search_all-ends [] s st there = (s, refl, Outcome-refl adj s, λ x k. cc k)
  search_all-ends (node ∷ nodes) s st there =
      let later : (x : String) → contains nodes x ≡ true → contains (mentions adj) x ≡ true =
        λ x k. there x (member_rest node x nodes k) in
      elim (Color-cases (s.color node)) [
        | inl w ↦
            let (s', e, outcome, b) =
              dfs-Dives adj bound (edge_mentioned adj) bound [] node s st tt w
                (there node (member_first node node nodes (eq_refl node)))
                (whites-length s.color (mentions adj)) (omega arith) in
            let (s'', e', outcome', b') =
              search_all-ends nodes s' (Grows-IsStack adj [] s s' outcome.0 st) later in
            (
              s'',
              rw (w, e, search_all) e',
              Outcome-trans adj s s' s'' outcome outcome',
              finished node nodes s'' (Grows-black s' s'' outcome'.0 node b) b',
            )
        | inr (inl g) ↦ elim (no_gray node (st.1 node g)) [ ]
        | inr (inr b) ↦
            let (s', e, outcome, b') = search_all-ends nodes s st later in
            (
              s',
              rw (b, search_all) e,
              outcome,
              finished node nodes s' (Grows-black s s' outcome.0 node b) b',
            )
      ]

first_edge :
    (adj : Adjacency) (v : String) (mid : List String)
    → IsWalk adj (v ∷ mid ++ v ∷ [])
    → contains (graph_keys adj) v ≡ true
first_edge adj v [] walk = edge-key adj v v walk.0
first_edge adj v (b ∷ mid) walk = edge-key adj v b walk.0

search_finds :
    (adj : Adjacency)
    → (s : Search) × (search_all adj (bound adj) (sort_strings (graph_keys adj)) no_search ≡ some s)
      × Outcome adj no_search s
      × ((x : String) → contains (graph_keys adj) x ≡ true → s.color x ≡ black)
search_finds adj =
    let (s, e, outcome, b) =
      search_all-ends adj (sort_strings (graph_keys adj)) no_search (tt, (λ x k. cc k), tt)
        (λ x k. key_mentioned adj x (sym (contains-sort_strings (graph_keys adj) x) ∙ k)) in
    (s, e, outcome, λ x k. b x (contains-sort_strings (graph_keys adj) x ∙ k))

no_search-IsOrder : (adj : Adjacency) → IsOrder adj no_search []
unfolding contains
no_search-IsOrder adj = (tt, λ x. ((λ h. cc h), (λ h. cc h)))

detect_of :
    (adj : Adjacency) (s : Search)
    → search_all adj (bound adj) (sort_strings (graph_keys adj)) no_search ≡ some s
    → detect_string_cycles adj ≡ some s.cycles
unfolding detect_string_cycles
detect_of adj s e = rw (e, detect_string_cycles) refl

-- detectStringCycles returns on every graph, and every path that it reports is a walk along edges of the
-- graph that ends where it starts.
pub detect_string_cycles-IsCycle :
    (adj : Adjacency)
    → (cycles : List (List String)) × (detect_string_cycles adj ≡ some cycles)
      × All (IsCycle adj) cycles
unfolding detect_string_cycles
detect_string_cycles-IsCycle adj =
    let (s, e, outcome, b) = search_finds adj in (s.cycles, detect_of adj s e, outcome.1.0 tt)

none_if_no_cycle :
    (adj : Adjacency) (cycles : List (List String))
    → detect_string_cycles adj ≡ some cycles
    → All (IsCycle adj) cycles
    → ((path : List String) → ¬ IsCycle adj path)
    → detect_string_cycles adj ≡ some []
none_if_no_cycle adj [] e all acyclic = e
none_if_no_cycle adj (c ∷ cycles) e all acyclic = elim (acyclic c all.0) [ ]

empty_if_acyclic :
    (adj : Adjacency)
    → ((path : List String) → ¬ IsCycle adj path)
    → detect_string_cycles adj ≡ some []
empty_if_acyclic adj acyclic =
    let (cycles, e, all) = detect_string_cycles-IsCycle adj in
    none_if_no_cycle adj cycles e all acyclic

acyclic_if_empty :
    (adj : Adjacency)
    → detect_string_cycles adj ≡ some []
    → (path : List String) → ¬ IsCycle adj path
unfolding detect_string_cycles
acyclic_if_empty adj h path (v, mid, e, walk) =
    let (s, f, outcome, b) = search_finds adj in
    let none_found : s.cycles ≡ [] = cc (detect_of adj s f, h) in
    let (order, o) = (outcome.1.1 none_found).1 [] (no_search-IsOrder adj) in
    let walk' = subst (IsWalk adj) e walk in
    closed_acyclic adj order v mid o.0 ((o.1 v).1 (b v (first_edge adj v mid walk'))) walk'

-- detectStringCycles reports nothing exactly if the graph has no cycle.
pub detect_string_cycles-none :
    (adj : Adjacency)
    → (detect_string_cycles adj ≡ some []) ↔ ((path : List String) → ¬ IsCycle adj path)
detect_string_cycles-none adj = (acyclic_if_empty adj, empty_if_acyclic adj)

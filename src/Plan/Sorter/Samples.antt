-- ===== src/Plan/Sorter/Samples.antt =====
-- Sort on small batches: runs, refusals, and the theorems at a concrete batch.
use mathlib.Core.List.{Permᴰ}
use spexmachina.Prelude.{
  ℕ, String, List, [], ◌∷◌, true, ok, err, ◌≡◌, refl, arith, IsSorted, ◌≢◌, contains, if◌then◌else◌,
  ◌==◌, no_repeats, count-le_one,
}
use spexmachina.Plan.Types.{Action, action_create}
use spexmachina.Plan.Kahn.{SortError, cycle, later_layer, no_layer, ids, kahn_sort}
use spexmachina.Plan.Kahn.Run.{IsUnique}
use spexmachina.Plan.Kahn.Order.{DepsFirst}
use spexmachina.Plan.Kahn.Cycle.{Waits, IsRanked, kahn_sort-err, kahn_sort_total}
use spexmachina.Plan.Sorter.{sort}
use spexmachina.Plan.Sorter.Correct.{sort-ok}
use spexmachina.Plan.Sorter.Rising.{by_number, layer_number, sort-IsSorted}

abbrev create : String → String → List String → String → Action
create node_type id deps reason = record {
  type = action_create;
  task_id = "";
  module_name = "m";
  node = id;
  node_type = node_type;
  spec_node_id = id;
  spec_hash = "h";
  dep_spec_node_ids = deps;
  change_type = "";
  reason = reason;
}

abbrev relevant : List String
relevant = "data_flow" ∷ "component" ∷ []

abbrev given : List Action
given =
    create "component" "c2" ("c1" ∷ "f1" ∷ "x9" ∷ []) "New spec node: m/c2"
    ∷ create "component" "gone" [] "Code cleanup: m/gone"
    ∷ create "component" "c1" [] "New spec node: m/c1"
    ∷ create "proposal_epic" "p" [] "Proposal: p"
    ∷ create "data_flow" "f1" [] "New spec node: m/f1"
    ∷ []

abbrev sorted : List Action
sorted =
    create "proposal_epic" "p" [] "Proposal: p"
    ∷ create "data_flow" "f1" [] "New spec node: m/f1"
    ∷ create "component" "c1" [] "New spec node: m/c1"
    ∷ create "component" "c2" ("c1" ∷ "f1" ∷ "x9" ∷ []) "New spec node: m/c2"
    ∷ create "component" "gone" [] "Code cleanup: m/gone"
    ∷ []

sort-given : sort given relevant ≡ ok sorted
unfolding sort contains
sort-given = refl

abbrev looped : List Action
looped =
    create "component" "a" ("b" ∷ []) ""
    ∷ create "component" "b" ("a" ∷ []) ""
    ∷ create "component" "c" ("a" ∷ []) ""
    ∷ create "component" "d" [] ""
    ∷ []

kahn_sort-looped : kahn_sort looped ≡ err (cycle ("a" ∷ "b" ∷ "c" ∷ []))
unfolding kahn_sort contains
kahn_sort-looped = refl

sort_later_layer :
    sort (create "data_flow" "f" ("c" ∷ []) "" ∷ create "component" "c" [] "" ∷ []) relevant
    ≡ err (later_layer ("f depends on later-layer c" ∷ []))
unfolding sort
sort_later_layer = refl

sort_no_layer : sort (create "api" "x" [] "" ∷ []) relevant ≡ err (no_layer "x" "api")
unfolding sort
sort_no_layer = refl

given-IsUnique : IsUnique given
unfolding no_repeats
given-IsUnique x = count-le_one (ids given) x refl

sort-ok_example : Permᴰ given sorted × DepsFirst (contains (ids given)) [] sorted
sort-ok_example = sort-ok given relevant sorted given-IsUnique sort-given

sort-IsSorted_example : IsSorted (by_number (layer_number relevant)) sorted
sort-IsSorted_example = sort-IsSorted given relevant sorted given-IsUnique sort-given

looped-IsUnique : IsUnique looped
unfolding no_repeats
looped-IsUnique x = count-le_one (ids looped) x refl

kahn_sort-err_example :
    (stuck : List String) × (◌≡◌ {A = SortError} (cycle ("a" ∷ "b" ∷ "c" ∷ [])) (cycle stuck))
    × (stuck ≢ [])
    × ((x : String) → contains stuck x ≡ true → Waits looped stuck x)
kahn_sort-err_example =
    kahn_sort-err looped (cycle ("a" ∷ "b" ∷ "c" ∷ [])) looped-IsUnique kahn_sort-looped

abbrev chain : List Action
chain = create "component" "b" ("a" ∷ []) "" ∷ create "component" "a" [] "" ∷ []

chain-IsUnique : IsUnique chain
unfolding no_repeats
chain-IsUnique x = count-le_one (ids chain) x refl

abbrev chain_rank : String → ℕ
chain_rank id = if id == "b" then 1 else 0

chain-IsRanked : IsRanked chain_rank chain
chain-IsRanked = omega arith

kahn_sort_total_example : (order : List Action) × (kahn_sort chain ≡ ok order)
kahn_sort_total_example = kahn_sort_total chain_rank chain chain-IsUnique chain-IsRanked

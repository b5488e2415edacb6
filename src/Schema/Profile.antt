-- ===== src/Schema/Profile.antt =====
-- The project profile of schema/profile.go, with the field declarations of schema/module_compose.go,
-- and the views that `finalize` derives from the declared node types. Go's *int and *bool are
-- options, and the nil slice of LeafSections is none.
use spexmachina.Prelude.{
  String, ℤ, Bool, true, false, List, [], ◌∷◌, ◌++◌, Option, none, some, ◌==◌, if◌then◌else◌, fetch,
  store, contains, sort_strings, ◌⊕◌, not,
}

abbrev pub field_kind_text : String
field_kind_text = "text"

abbrev pub field_kind_integer : String
field_kind_integer = "integer"

abbrev pub field_kind_reference : String
field_kind_reference = "reference"

pub record Field : Type 0 where
  pub name : String
  pub kind : String
  pub required : Bool
  pub enum : List String
  pub hashed : Option Bool
  pub minimum : Option ℤ
  pub maximum : Option ℤ
  pub targets : List String
  pub cardinality : String
  pub cyclic : Bool
  pub description : String

-- HashParticipates: a field takes part in the hash unless it says not to.
unfoldable pub hash_participates : Field → Bool
hash_participates f = elim f.hashed [ none ↦ true | some b ↦ b ]

pub record NodeType : Type 0 where
  pub name : String
  pub plural_key : String
  pub scope : String
  pub requires_content : Bool
  pub completeness_trigger : Bool
  pub name_declarable : Bool
  pub fields : List Field
  pub comment : String
  pub content_prefix : Option String
  pub leaf_sections : Option (List String)

-- Go's `From` and `To` are `from_types` and `to_types`.
pub record Edge : Type 0 where
  pub kind : String
  pub from_types : List String
  pub to_types : List String
  pub cyclic_from : List (String × Bool)

-- A missing key of the map reads as false.
unfoldable pub cyclic_for_type : Edge → String → Bool
cyclic_for_type e from_type = elim (fetch e.cyclic_from from_type) [ none ↦ false | some b ↦ b ]

pub record CoverageChain : Type 0 where
  pub covered_type : String
  pub covered_scope : String
  pub edge : String
  pub covering_type : String
  pub covering_scope : String

pub record AbsorbDirections : Type 0 where
  pub added : Bool
  pub removed : Bool

pub record Profile : Type 0 where
  pub profile_version : Option ℤ
  pub node_types : List NodeType
  pub coverage_chains : List CoverageChain
  pub plan_relevant : List String
  pub impact_levels : List (String × String)
  pub absorbable : List (String × AbsorbDirections)
  pub edges : List Edge
  pub hashed_fields : List (String × List String)

-- plan_relevant of schema/defaultProfile.json
abbrev pub default_plan_relevant : List String
default_plan_relevant = "data_flow" ∷ "component" ∷ "test_section" ∷ []

-- Appends the strings that are not there yet.
unfoldable pub append_new : List String → List String → List String
append_new xs [] = xs
append_new xs (y ∷ ys) = append_new (if contains xs y then xs else xs ++ y ∷ []) ys

abbrev pub no_edge : String → Edge
no_edge kind = record { kind = kind; from_types = []; to_types = []; cyclic_from = [] }

-- What one reference field adds to its edge.
unfoldable pub extend_edge : Edge → String → Field → Edge
unfolding append_new
extend_edge e type_name f = record {
  kind = e.kind;
  from_types = append_new e.from_types (type_name ∷ []);
  to_types = append_new e.to_types f.targets;
  cyclic_from = store e.cyclic_from type_name f.cyclic;
}

-- `order` and `byKind` in one: the edges in the order in which their kinds first occur.
unfoldable pub fold_field : List Edge → String → Field → List Edge
unfolding extend_edge
fold_field [] type_name f = extend_edge (no_edge f.name) type_name f ∷ []
fold_field (e ∷ edges) type_name f =
    let rest = fold_field edges type_name f in
    if e.kind == f.name then extend_edge e type_name f ∷ edges else e ∷ rest

unfoldable pub edges_of_fields : List Edge → String → List Field → List Edge
unfolding fold_field
edges_of_fields edges type_name [] = edges
edges_of_fields edges type_name (f ∷ fields) =
    edges_of_fields (if f.kind == field_kind_reference then fold_field edges type_name f else edges)
      type_name fields

unfoldable pub edges_of_types : List Edge → List NodeType → List Edge
unfolding edges_of_fields
edges_of_types edges [] = edges
edges_of_types edges (t ∷ types) = edges_of_types (edges_of_fields edges t.name t.fields) types

abbrev pub requires_module_edge : Edge
requires_module_edge = record {
  kind = "requires_module";
  from_types = "module" ∷ [];
  to_types = "module" ∷ [];
  cyclic_from = [];
}

unfoldable pub derive_edges : List NodeType → List Edge
unfolding edges_of_types
derive_edges node_types = edges_of_types [] node_types ++ requires_module_edge ∷ []

-- The names of the fields that take part in the hash.
unfoldable pub participating : List Field → List String
unfolding hash_participates
participating [] = []
participating (f ∷ fields) =
    let rest = participating fields in if hash_participates f then f.name ∷ rest else rest

abbrev pub type_key : NodeType → String
type_key t = t.scope ⊕ (":" ⊕ t.name)

unfoldable pub hashed_fields_loop :
    List (String × List String) → List NodeType → List (String × List String)
unfolding participating sort_strings
hashed_fields_loop out [] = out
hashed_fields_loop out (t ∷ types) =
    hashed_fields_loop
      (if t.requires_content
        then out
        else store out (type_key t)
            (sort_strings ("id" ∷ "name" ∷ "description" ∷ participating t.fields)))
      types

unfoldable pub derive_hashed_fields : List NodeType → List (String × List String)
unfolding hashed_fields_loop
derive_hashed_fields = hashed_fields_loop []

unfoldable pub field_named : List Field → String → Option Field
field_named [] name = none
field_named (f ∷ fields) name =
    let rest = field_named fields name in if f.name == name then some f else rest

unfoldable pub find_field : List NodeType → String → String → String → Option Field
unfolding field_named
find_field [] type_name scope field_name = none
find_field (t ∷ types) type_name scope field_name =
    let rest = find_field types type_name scope field_name in
    if not (t.name == type_name)
    then rest
    else if (if scope == "" then false else not (t.scope == scope))
    then rest
    else elim (field_named t.fields field_name) [ some f ↦ some f | none ↦ rest ]

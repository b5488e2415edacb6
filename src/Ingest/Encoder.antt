-- ===== src/Ingest/Encoder.antt =====
-- The checks of ingest/journal_encoder.go. Whether a line fits the journal-line schema is the argument
-- `fits_schema`: the encoding and the JSON schema library.
use spexmachina.Prelude.{
  String, Bool, false, ◌||◌, List, [], ◌∷◌, Option, none, some, ◌==◌, if◌then◌else◌,
}
use spexmachina.Schema.Profile.{NodeType, Profile}
use spexmachina.Mapping.Journal.{Event}
use spexmachina.Mapping.Journal.History.{is_change}

pub data EncoderError : Type 0 where
  bad_line : (event : String) → EncoderError
  undeclared : (event node_type : String) → EncoderError

unfoldable pub node_type_declared : List NodeType → String → Bool
node_type_declared [] name = false
node_type_declared (t ∷ types) name = (t.name == name) || node_type_declared types name

unfoldable pub check_node_type_declared : Profile → Event → Option EncoderError
unfolding node_type_declared
check_node_type_declared profile ev =
    if is_change ev
    then (if node_type_declared profile.node_types ev.node_type
        then none
        else some (undeclared ev.event ev.node_type))
    else none

unfoldable pub validate : (Event → Bool) → Profile → Event → Option EncoderError
unfolding check_node_type_declared
validate fits_schema profile ev =
    if fits_schema ev then check_node_type_declared profile ev else some (bad_line ev.event)

unfoldable pub check_invariant5 : (Event → Bool) → Profile → List Event → Option EncoderError
unfolding validate
check_invariant5 fits_schema profile [] = none
check_invariant5 fits_schema profile (ev ∷ batch) =
    let rest = check_invariant5 fits_schema profile batch in
    elim (validate fits_schema profile ev) [ some e ↦ some e | none ↦ rest ]

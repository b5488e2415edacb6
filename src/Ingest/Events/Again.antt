-- ===== src/Ingest/Events/Again.antt =====
-- A builder that knows the ids of the lines that another one made makes nothing of the same op.
use spexmachina.Prelude.{
  String, true, false, List, [], ◌∷◌, some, OnOk, ok, err, contains, has_prefix, append_not_empty,
  eq_refl, arith, ◌++◌, ◌≡◌, refl, inl, inr, Bool-cases, Option-cases, Result-cases, ◌==◌, OnOk-ok,
}
use spexmachina.Plan.Types.{Op, Changeset, AbsorbedEntry, kind_proposal_epic, kind_cleanup}
use spexmachina.Mapping.Journal.{Event}
use spexmachina.Ingest.Invariants.{known_eids}
use spexmachina.Ingest.Receipts.{OpReceipt}
use spexmachina.Ingest.Events.{
  derive_refresh_eid, EventBuilderState, Lines, op_eid, target_task, lookup_metadata,
  build_node_create, build_removed, build_modified_from_close, build_close, build_retarget,
  build_create, absorbed_eid, absorbed_event, absorbed_lines, with_refresh, build_absorbed,
  reason_removed_prefix, reason_modified_prefix,
}
use spexmachina.Ingest.Events.Fresh.{
  old, new, MadeOnce, node_create-Made, removed-Made, modified_from_close-Made, retarget-Made,
}

-- The second builder knows what the first one knew, and the ids of the lines.
abbrev pub Knows : EventBuilderState → EventBuilderState → List Event → Type 0
Knows st st' lines =
    ((eid : String) → st.has_eid eid ≡ true → st'.has_eid eid ≡ true)
    × ((eid : String) → contains (known_eids lines) eid ≡ true → st'.has_eid eid ≡ true)

-- An op that makes neither a proposal epic nor a cleanup.
abbrev pub IsNodeCreate : Op → Type 0
IsNodeCreate o =
    ((o.spec_node_kind == kind_proposal_epic) ≡ false)
    × ((o.spec_node_kind == kind_cleanup) ≡ false)

module _ (st st' : EventBuilderState) (cs : Changeset) (o : Op) (receipt : OpReceipt) where
  known_again :
      (lines : List Event)
      → MadeOnce st cs o receipt lines
      → Knows st st' lines
      → st'.has_eid (op_eid cs o) ≡ true
  known_again lines (old known e) k = k.0 (op_eid cs o) known
  known_again lines (new fresh there all) k = k.1 (op_eid cs o) there

  -- What the second builder answers if the first one made these lines.
  abbrev pub Again : Lines → List Event → Type 0
  Again r lines = Knows st st' lines → r ≡ ok []

  with-Made :
      (r r' : Lines)
      → (st'.has_eid (op_eid cs o) ≡ true → r' ≡ ok [])
      → OnOk (MadeOnce st cs o receipt) r
      → OnOk (Again r') r
  with-Made (ok lines) r' h m = λ k. h (known_again lines m k)
  with-Made (err e) r' h m = tt

  node_again : st'.has_eid (op_eid cs o) ≡ true → build_node_create st' cs o receipt ≡ ok []
  unfolding build_node_create
  node_again h = rw (h, build_node_create) refl

  modified_again :
      (t : String)
      → st'.has_eid (op_eid cs o) ≡ true
      → build_modified_from_close st' cs o receipt t ≡ ok []
  unfolding build_modified_from_close
  modified_again t h = rw (h, build_modified_from_close) refl

  removed_known :
      (t : String)
      → target_task o ≡ some t
      → st'.has_eid (op_eid cs o) ≡ true
      → build_removed st' cs o receipt ≡ ok []
  unfolding build_removed
  removed_known t e h = rw (e, h, build_removed) refl

  removed-Again : OnOk (Again (build_removed st' cs o receipt)) (build_removed st cs o receipt)
  unfolding build_removed
  removed-Again = elim (Option-cases (target_task o)) [
    | inl e ↦ rw (e, build_removed) tt
    | inr (t, e) ↦
        with-Made (build_removed st cs o receipt) (build_removed st' cs o receipt)
          (removed_known t e) (removed-Made st cs o receipt)
  ]

  close_nothing :
      has_prefix o.reason reason_removed_prefix ≡ false
      → has_prefix o.reason reason_modified_prefix ≡ false
      → (s : EventBuilderState) → build_close s cs o receipt ≡ ok []
  unfolding build_close
  close_nothing e f s = rw (e, f, build_close) refl

  pub close-Again : OnOk (Again (build_close st' cs o receipt)) (build_close st cs o receipt)
  unfolding build_close
  close-Again = elim (Bool-cases (has_prefix o.reason reason_removed_prefix)) [
    | inl e ↦ rw (e, build_close) removed-Again
    | inr e ↦ elim (Bool-cases (has_prefix o.reason reason_modified_prefix)) [
      | inr f ↦ rw (e, f, build_close) (λ k. refl)
      | inl f ↦ elim (Option-cases (target_task o)) [
        | inl g ↦ rw (e, f, g, build_close) tt
        | inr (t, g) ↦
            rw (e, f, g, build_close)
              (with-Made (build_modified_from_close st cs o receipt t)
                (build_modified_from_close st' cs o receipt t) (modified_again t)
                (modified_from_close-Made st cs o receipt t))
      ]
    ]
  ]

  retarget_known :
      (t : String)
      → target_task o ≡ some t
      → st'.has_eid (op_eid cs o) ≡ true
      → build_retarget st' cs o receipt ≡ ok []
  unfolding build_retarget
  retarget_known t e h = rw (e, h, build_retarget) refl

  pub retarget-Again :
      OnOk (Again (build_retarget st' cs o receipt)) (build_retarget st cs o receipt)
  unfolding build_retarget
  retarget-Again = elim (Option-cases (target_task o)) [
    | inl e ↦ rw (e, build_retarget) tt
    | inr (t, e) ↦
        with-Made (build_retarget st cs o receipt) (build_retarget st' cs o receipt)
          (retarget_known t e) (retarget-Made st cs o receipt)
  ]

  pub create-Again :
      IsNodeCreate o → OnOk (Again (build_create st' cs o receipt)) (build_create st cs o receipt)
  unfolding build_create
  create-Again h =
      rw (h.0, h.1, build_create)
        (with-Made (build_node_create st cs o receipt) (build_node_create st' cs o receipt)
          node_again (node_create-Made st cs o receipt))

known_first :
    (ev : Event) (lines : List Event)
    → (ev.eid == "") ≡ false
    → contains (known_eids (ev ∷ lines)) ev.eid ≡ true
unfolding known_eids contains
known_first ev lines h = rw (h, eq_refl ev.eid) refl

known_rest :
    (ev : Event) (lines : List Event) (eid : String)
    → contains (known_eids lines) eid ≡ true
    → contains (known_eids (ev ∷ lines)) eid ≡ true
unfolding known_eids contains
known_rest ev lines eid h = ground arith

absorbed_eid_not_empty : (entry : AbsorbedEntry) → (absorbed_eid entry == "") ≡ false
unfolding derive_refresh_eid
absorbed_eid_not_empty entry = append_not_empty "refresh" ":" _

pub known_left :
    (lines more : List Event) (eid : String)
    → contains (known_eids lines) eid ≡ true
    → contains (known_eids (lines ++ more)) eid ≡ true
unfolding known_eids contains
known_left [] more eid h = cc h
known_left (ev ∷ lines) more eid h = ground (arith, h, known_left lines more eid)

pub known_right :
    (lines more : List Event) (eid : String)
    → contains (known_eids more) eid ≡ true
    → contains (known_eids (lines ++ more)) eid ≡ true
unfolding known_eids contains
known_right [] more eid h = h
known_right (ev ∷ lines) more eid h =
    known_rest ev (lines ++ more) eid (known_right lines more eid h)

nothing_absorbed :
    (st : EventBuilderState) (cs : Changeset)
    → absorbed_lines st cs cs.absorbed ≡ ok []
    → build_absorbed st cs ≡ ok []
unfolding build_absorbed
nothing_absorbed st cs h = rw (h, build_absorbed) refl

-- A second builder that knows the ids of the lines finds nothing absorbed.
all_absorbed :
    (st st' : EventBuilderState) (cs : Changeset) (entries : List AbsorbedEntry)
    → ((eid : String) → st.has_eid eid ≡ true → st'.has_eid eid ≡ true)
    → OnOk
        (λ lines.
          ((eid : String) → contains (known_eids lines) eid ≡ true → st'.has_eid eid ≡ true)
          → absorbed_lines st' cs entries ≡ ok [])
        (absorbed_lines st cs entries)
unfolding absorbed_lines
all_absorbed st st' cs [] mono = λ k. refl
all_absorbed st st' cs (entry ∷ entries) mono =
    elim (Bool-cases (st.has_eid (absorbed_eid entry))) [
      | inl known ↦
          rw (known, mono (absorbed_eid entry) known, absorbed_lines)
            (all_absorbed st st' cs entries mono)
      | inr fresh ↦ elim (Result-cases (lookup_metadata st entry.node)) [
        | inl (e, f) ↦ rw (fresh, f, absorbed_lines) tt
        | inr (md, f) ↦ elim (Result-cases (absorbed_lines st cs entries)) [
          | inl (e, g) ↦ rw (fresh, f, g, absorbed_lines) tt
          | inr (lines, g) ↦
              rw (fresh, f, g, absorbed_lines)
                (λ k.
                  rw
                    (
                      k (absorbed_eid entry) (
                          known_first (absorbed_event cs entry md) lines
                            (absorbed_eid_not_empty entry)),
                      absorbed_lines,
                    )
                    (OnOk-ok _ (absorbed_lines st cs entries) (all_absorbed st st' cs entries mono)
                      g
                      (λ eid there.
                        k eid (known_rest (absorbed_event cs entry md) lines eid there))))
        ]
      ]
    ]

known-with_refresh :
    (cs : Changeset) (lines : List Event) (eid : String)
    → contains (known_eids lines) eid ≡ true
    → contains (known_eids (with_refresh cs lines)) eid ≡ true
unfolding known_eids contains
known-with_refresh cs [] eid h = h
known-with_refresh cs (ev ∷ lines) eid h = known_left (ev ∷ lines) _ eid h

pub absorbed_twice :
    (st st' : EventBuilderState) (cs : Changeset)
    → OnOk (λ lines. Knows st st' lines → build_absorbed st' cs ≡ ok []) (build_absorbed st cs)
unfolding build_absorbed
absorbed_twice st st' cs = elim (Result-cases (absorbed_lines st cs cs.absorbed)) [
  | inl (e, f) ↦ rw (f, build_absorbed) tt
  | inr (lines, f) ↦
      rw (f, build_absorbed)
        (λ k. nothing_absorbed st' cs (
          OnOk-ok _ (absorbed_lines st cs cs.absorbed) (all_absorbed st st' cs cs.absorbed k.0) f
            (λ eid there. k.1 eid (known-with_refresh cs lines eid there))))
]

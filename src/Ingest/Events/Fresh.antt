-- ===== src/Ingest/Events/Fresh.antt =====
-- No line that the builder makes repeats an event id that it knows already.
use spexmachina.Prelude.{
  String, Bool, true, false, List, [], ◌∷◌, ◌==◌, All, All-append, OnOk, ok, err, ◌≡◌, refl, sym,
  ap, ◌∙◌, OnOk-ok, has_prefix, ◌⊎◌, inl, inr, Bool-cases, Option-cases, Result-cases, contains,
  fetch, eq_refl, append_not_empty, All-imp, subst,
}
use spexmachina.Ingest.Invariants.{known_eids}
use spexmachina.Plan.Types.{
  derive_eid, Op, Changeset, AbsorbedEntry, kind_proposal_epic, kind_cleanup,
}
use spexmachina.Mapping.Journal.{Event}
use spexmachina.Ingest.Receipts.{OpReceipt}
use spexmachina.Ingest.Events.{
  EventBuilderState, Lines, op_eid, target_task, lookup_metadata, fold_entry_by_key,
  fold_entry_by_task, build_node_create, build_removed, build_modified_from_close, build_close,
  build_retarget, build_epic_create, build_cleanup_create, build_create, absorbed_eid,
  absorbed_lines, with_refresh, build_absorbed, reason_removed_prefix, reason_modified_prefix,
}

-- The event has no id, or one that is not known.
abbrev pub IsFresh : (String → Bool) → Event → Type 0
IsFresh has ev = (ev.eid ≡ "") ⊎ (has ev.eid ≡ false)

-- The id of an op or an absorbed entry is never empty.
eid_not_empty : (head op_id : String) → (derive_eid head op_id == "") ≡ false
eid_not_empty head op_id = append_not_empty head ":" op_id

-- What the builder makes of an op with the event id `eid`: nothing if the id is known, else lines of
-- which one has it, and the others no id.
pub data Made (has : String → Bool) (eid : String) (lines : List Event) : Type 0 where
  old : has eid ≡ true → lines ≡ [] → Made has eid lines
  new :
      has eid ≡ false
      → contains (known_eids lines) eid ≡ true
      → All (λ ev. (ev.eid ≡ "") ⊎ (ev.eid ≡ eid)) lines
      → Made has eid lines

module _ (st : EventBuilderState) (cs : Changeset) (o : Op) (receipt : OpReceipt) where
  abbrev pub MadeOnce : List Event → Type 0
  MadeOnce = Made st.has_eid (op_eid cs o)

  -- A line with the op's id and one without an id.
  made_two :
      (ev line : Event)
      → st.has_eid (op_eid cs o) ≡ false
      → ev.eid ≡ op_eid cs o
      → line.eid ≡ ""
      → MadeOnce (ev ∷ line ∷ [])
  unfolding known_eids contains
  made_two ev line fresh e f =
      new fresh (rw (e, eid_not_empty cs.git_head o.op_id, eq_refl (op_eid cs o)) refl)
        (inr e, (inl f, tt))

  pub node_create-Made : OnOk MadeOnce (build_node_create st cs o receipt)
  unfolding build_node_create
  node_create-Made = elim (Bool-cases (st.has_eid (op_eid cs o))) [
    | inl known ↦ rw (known, build_node_create) (old known refl)
    | inr fresh ↦ elim (Result-cases (lookup_metadata st o.spec_node_id)) [
      | inl (e, f) ↦ rw (fresh, f, build_node_create) tt
      | inr (md, f) ↦ rw (fresh, f, build_node_create) (made_two _ _ fresh refl refl)
    ]
  ]

  pub removed-Made : OnOk MadeOnce (build_removed st cs o receipt)
  unfolding build_removed
  removed-Made = elim (Option-cases (target_task o)) [
    | inl e ↦ rw (e, build_removed) tt
    | inr (t, e) ↦ elim (Bool-cases (st.has_eid (op_eid cs o))) [
      | inl known ↦ rw (e, known, build_removed) (old known refl)
      | inr fresh ↦ elim (Option-cases (fold_entry_by_task st.fold t)) [
        | inl f ↦ rw (e, fresh, f, build_removed) tt
        | inr (entry, f) ↦ rw (e, fresh, f, build_removed) (made_two _ _ fresh refl refl)
      ]
    ]
  ]

  pub modified_from_close-Made :
      (t : String) → OnOk MadeOnce (build_modified_from_close st cs o receipt t)
  unfolding build_modified_from_close
  modified_from_close-Made t = elim (Bool-cases (st.has_eid (op_eid cs o))) [
    | inl known ↦ rw (known, build_modified_from_close) (old known refl)
    | inr fresh ↦ elim (Option-cases (fold_entry_by_task st.fold t)) [
      | inl f ↦ rw (fresh, f, build_modified_from_close) tt
      | inr (entry, f) ↦ elim (Result-cases (lookup_metadata st entry.key)) [
        | inl (e, g) ↦ rw (fresh, f, g, build_modified_from_close) tt
        | inr (md, g) ↦ rw (fresh, f, g, build_modified_from_close) (made_two _ _ fresh refl refl)
      ]
    ]
  ]

  pub retarget-Made : OnOk MadeOnce (build_retarget st cs o receipt)
  unfolding build_retarget
  retarget-Made = elim (Option-cases (target_task o)) [
    | inl e ↦ rw (e, build_retarget) tt
    | inr (t, e) ↦ elim (Bool-cases (st.has_eid (op_eid cs o))) [
      | inl known ↦ rw (e, known, build_retarget) (old known refl)
      | inr fresh ↦ elim (Result-cases (lookup_metadata st o.spec_node_id)) [
        | inl (x, f) ↦ rw (e, fresh, f, build_retarget) tt
        | inr (md, f) ↦ rw (e, fresh, f, build_retarget) (made_two _ _ fresh refl refl)
      ]
    ]
  ]

  pub close-OnOk :
      (P : List Event → Type 0)
      → OnOk P (build_removed st cs o receipt)
      → ((t : String) → OnOk P (build_modified_from_close st cs o receipt t))
      → P []
      → OnOk P (build_close st cs o receipt)
  unfolding build_close
  close-OnOk P removed modified nothing =
      elim (Bool-cases (has_prefix o.reason reason_removed_prefix)) [
        | inl e ↦ rw (e, build_close) removed
        | inr e ↦ elim (Bool-cases (has_prefix o.reason reason_modified_prefix)) [
          | inr f ↦ rw (e, f, build_close) nothing
          | inl f ↦ elim (Option-cases (target_task o)) [
            | inl g ↦ rw (e, f, g, build_close) tt
            | inr (t, g) ↦ rw (e, f, g, build_close) (modified t)
          ]
        ]
      ]

  made-IsFresh : (lines : List Event) → MadeOnce lines → All (IsFresh st.has_eid) lines
  made-IsFresh lines (old known none_made) = subst (All (IsFresh st.has_eid)) (sym none_made) tt
  made-IsFresh lines (new fresh there all) =
      All-imp lines (λ ev. elim [ inl e ↦ inl e | inr e ↦ inr (ap st.has_eid e ∙ fresh) ]) all

  pub create-OnOk :
      (P : List Event → Type 0)
      → OnOk P (build_epic_create st o receipt)
      → OnOk P (build_cleanup_create st cs o receipt)
      → OnOk P (build_node_create st cs o receipt)
      → OnOk P (build_create st cs o receipt)
  unfolding build_create
  create-OnOk P epic cleanup other = elim (Bool-cases (o.spec_node_kind == kind_proposal_epic)) [
    | inl e ↦ rw (e, build_create) epic
    | inr e ↦ elim (Bool-cases (o.spec_node_kind == kind_cleanup)) [
      | inl f ↦ rw (e, f, build_create) cleanup
      | inr f ↦ rw (e, f, build_create) other
    ]
  ]

  epic-IsFresh : OnOk (All (IsFresh st.has_eid)) (build_epic_create st o receipt)
  unfolding build_epic_create
  epic-IsFresh = elim (Option-cases (fold_entry_by_key st.fold o.spec_node_id)) [
    | inr (entry, e) ↦ rw (e, build_epic_create) tt
    | inl e ↦ elim (Option-cases (fetch st.registered_by_stem o.spec_node_id)) [
      | inl f ↦ rw (e, f, build_epic_create) tt
      | inr (eid, f) ↦ rw (e, f, build_epic_create) (inl refl, tt)
    ]
  ]

  cleanup-IsFresh : OnOk (All (IsFresh st.has_eid)) (build_cleanup_create st cs o receipt)
  unfolding build_cleanup_create
  cleanup-IsFresh = elim (Option-cases (fold_entry_by_key st.fold o.spec_node_id)) [
    | inl e ↦ rw (e, build_cleanup_create) tt
    | inr (entry, e) ↦ elim (Bool-cases entry.removed) [
      | inl f ↦ elim (Bool-cases (entry.task_id == "")) [
        | inl g ↦ rw (e, f, g, build_cleanup_create) (inl refl, tt)
        | inr g ↦ rw (e, f, g, build_cleanup_create) tt
      ]
      | inr f ↦ elim (Bool-cases (st.has_eid (op_eid cs o))) [
        | inl known ↦ rw (e, f, known, build_cleanup_create) tt
        | inr fresh ↦ rw (e, f, fresh, build_cleanup_create) (inr fresh, (inl refl, tt))
      ]
    ]
  ]

  made-OnOk-IsFresh : (r : Lines) → OnOk MadeOnce r → OnOk (All (IsFresh st.has_eid)) r
  made-OnOk-IsFresh (ok lines) m = made-IsFresh lines m
  made-OnOk-IsFresh (err e) m = tt

  pub create-IsFresh : OnOk (All (IsFresh st.has_eid)) (build_create st cs o receipt)
  create-IsFresh =
      create-OnOk (All (IsFresh st.has_eid)) epic-IsFresh cleanup-IsFresh
        (made-OnOk-IsFresh (build_node_create st cs o receipt) node_create-Made)

  pub close-IsFresh : OnOk (All (IsFresh st.has_eid)) (build_close st cs o receipt)
  close-IsFresh =
      close-OnOk (All (IsFresh st.has_eid))
        (made-OnOk-IsFresh (build_removed st cs o receipt) removed-Made)
        (λ t.
          made-OnOk-IsFresh (build_modified_from_close st cs o receipt t)
            (modified_from_close-Made t))
        tt

  pub retarget-IsFresh : OnOk (All (IsFresh st.has_eid)) (build_retarget st cs o receipt)
  retarget-IsFresh = made-OnOk-IsFresh (build_retarget st cs o receipt) retarget-Made

absorbed_lines-IsFresh :
    (st : EventBuilderState) (cs : Changeset) (entries : List AbsorbedEntry)
    → OnOk (All (IsFresh st.has_eid)) (absorbed_lines st cs entries)
unfolding absorbed_lines
absorbed_lines-IsFresh st cs [] = tt
absorbed_lines-IsFresh st cs (entry ∷ entries) =
    elim (Bool-cases (st.has_eid (absorbed_eid entry))) [
      | inl known ↦ rw (known, absorbed_lines) (absorbed_lines-IsFresh st cs entries)
      | inr fresh ↦ elim (Result-cases (lookup_metadata st entry.node)) [
        | inl (e, f) ↦ rw (fresh, f, absorbed_lines) tt
        | inr (md, f) ↦ elim (Result-cases (absorbed_lines st cs entries)) [
          | inl (e, g) ↦ rw (fresh, f, g, absorbed_lines) tt
          | inr (lines, g) ↦
              rw (fresh, f, g, absorbed_lines)
                (inr fresh, OnOk-ok _ _ (absorbed_lines-IsFresh st cs entries) g)
        ]
      ]
    ]

with_refresh-IsFresh :
    (has : String → Bool) (cs : Changeset) (lines : List Event)
    → All (IsFresh has) lines
    → All (IsFresh has) (with_refresh cs lines)
with_refresh-IsFresh has cs [] h = tt
with_refresh-IsFresh has cs (ev ∷ lines) h =
    All-append (IsFresh has) (ev ∷ lines) _ h (inl refl, tt)

pub absorbed-IsFresh :
    (st : EventBuilderState) (cs : Changeset)
    → OnOk (All (IsFresh st.has_eid)) (build_absorbed st cs)
unfolding build_absorbed
absorbed-IsFresh st cs = elim (Result-cases (absorbed_lines st cs cs.absorbed)) [
  | inl (e, f) ↦ rw (f, build_absorbed) tt
  | inr (lines, f) ↦
      rw (f, build_absorbed)
        (with_refresh-IsFresh st.has_eid cs lines
          (OnOk-ok _ _ (absorbed_lines-IsFresh st cs cs.absorbed) f))
]

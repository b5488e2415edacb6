-- ===== src/Plan/Builder/Refs.antt =====
-- The op refs among the deps that composeDeps puts together.
use spexmachina.Prelude.{
  String, ℕ, List, [], ◌∷◌, ◌++◌, map, some, ◌==◌, if◌then◌else◌, All, All-append, contains, fetch,
  All-sort_by, OnOk, OnOk-ok, ◌≡◌, refl, inl, inr, Bool-cases, Option-cases, Result-cases,
}
use spexmachina.Schema.Profile.{append_new}
use spexmachina.Plan.Types.{Action, Ref, task, op, Op, kind_proposal_epic}
use spexmachina.Plan.Labeler.{is_cleanup, label_for}
use spexmachina.Plan.Resolver.{
  Fold, Batch, resolve_dep, resolve_deps, resolve_parent, is_live_bead_status, cons_ref,
}
use spexmachina.Plan.Builder.{
  Builder, create_op_id, retarget_op_id, ops_of, order_deps, compose_deps,
}
use spexmachina.Plan.Builder.Compose.{Plan, create_op, labelled_create_op, labeler_of, retarget_op}

module _ (P : String → Type 0) where
  All-append_new : (xs ys : List String) → All P xs → All P ys → All P (append_new xs ys)
  unfolding append_new
  All-append_new xs [] h k = h
  All-append_new xs (y ∷ ys) h k = elim (Bool-cases (contains xs y)) [
    | inl e ↦ rw (e, append_new) (All-append_new xs ys h k.1)
    | inr e ↦
        rw (e, append_new)
          (All-append_new (xs ++ y ∷ []) ys (All-append P xs (y ∷ []) h (k.0, tt)) k.1)
  ]

  All-ops_of-refs : (xs ys : List String) → All P xs → All P (ops_of (map op xs ++ map task ys))
  All-ops_of-refs [] [] h = tt
  All-ops_of-refs [] (y ∷ ys) h = All-ops_of-refs [] ys tt
  All-ops_of-refs (x ∷ xs) ys h = (h.0, All-ops_of-refs xs ys h.1)

  order_deps-All :
      (spec_deps : List Ref) (op_index : List (String × ℕ)) (layer_edges extra_tasks : List String)
      → All P (ops_of spec_deps)
      → All P layer_edges
      → All P (ops_of (order_deps spec_deps op_index layer_edges extra_tasks))
  unfolding order_deps
  order_deps-All spec_deps op_index layer_edges extra_tasks h k = All-ops_of-refs _ _ (
      All-sort_by _ P _ (
        All-append_new (append_new [] (ops_of spec_deps)) layer_edges
          (All-append_new [] (ops_of spec_deps) tt h) k))

  -- The ops of the batch that these deps are resolved to.
  abbrev pub DepsIn : Batch → List String → Type 0
  DepsIn batch = All (λ dep. (v : String) → fetch batch dep ≡ some v → P v)

  All-cons_ref :
      (dep : String) (batch : Batch) (fold : Fold) (refs : List Ref)
      → ((v : String) → fetch batch dep ≡ some v → P v)
      → All P (ops_of refs)
      → OnOk (λ ref. All P (ops_of (cons_ref ref refs))) (resolve_dep dep batch fold)
  unfolding resolve_dep
  All-cons_ref dep batch fold refs h k = elim (Option-cases (fetch batch dep)) [
    | inr (v, e) ↦ rw (e, resolve_dep) (h v e, k)
    | inl e ↦ elim (Option-cases (fold dep)) [
      | inl f ↦ rw (e, f, resolve_dep) tt
      | inr (p, f) ↦ elim (Bool-cases (is_live_bead_status p.bead_status)) [
        | inl g ↦ rw (e, f, g, resolve_dep) k
        | inr g ↦ rw (e, f, g, resolve_dep) k
      ]
    ]
  ]

  resolve_deps-All :
      (deps : List String) (batch : Batch) (fold : Fold)
      → DepsIn batch deps
      → OnOk (λ refs. All P (ops_of refs)) (resolve_deps deps batch fold)
  unfolding resolve_deps
  resolve_deps-All [] batch fold h = tt
  resolve_deps-All (dep ∷ deps) batch fold h = elim (Result-cases (resolve_dep dep batch fold)) [
    | inl (e, f) ↦ rw (f, resolve_deps) tt
    | inr (ref, f) ↦ elim (Result-cases (resolve_deps deps batch fold)) [
      | inl (e, g) ↦ rw (f, g, resolve_deps) tt
      | inr (refs, g) ↦
          rw (f, g, resolve_deps)
            (OnOk-ok _ (resolve_dep dep batch fold)
              (All-cons_ref dep batch fold refs h.0
                (OnOk-ok _ (resolve_deps deps batch fold) (resolve_deps-All deps batch fold h.1) g))
              f)
    ]
  ]

  compose_deps-All :
      (a : Action) (fold : Fold) (batch : Batch) (op_index : List (String × ℕ))
      (layer_edges extra_tasks : List String)
      → DepsIn batch a.dep_spec_node_ids
      → All P layer_edges
      → OnOk
          (λ deps. All P (ops_of deps))
          (compose_deps a fold batch op_index layer_edges extra_tasks)
  unfolding compose_deps
  compose_deps-All a fold batch op_index layer_edges extra_tasks h k =
      elim (Result-cases (resolve_deps a.dep_spec_node_ids batch fold)) [
        | inl (e, f) ↦ rw (f, compose_deps) tt
        | inr (refs, f) ↦
            rw (f, compose_deps)
              (order_deps-All refs op_index layer_edges extra_tasks
                (OnOk-ok _ (resolve_deps a.dep_spec_node_ids batch fold)
                  (resolve_deps-All a.dep_spec_node_ids batch fold h) f)
                k)
      ]

  -- An op with this id, whose op refs are as they should be.
  abbrev pub MadeWith : String → Op → Type 0
  MadeWith op_id o = (o.op_id ≡ op_id) × All P (ops_of o.deps)

  create_op-MadeWith :
      (join_path : List String → String) (b : Builder) (p : Plan) (a : Action)
      (op_id label : String) (layer_edges : List String)
      → DepsIn p.batch a.dep_spec_node_ids
      → All P layer_edges
      → OnOk (MadeWith op_id) (create_op join_path b p a op_id label layer_edges)
  unfolding create_op
  create_op-MadeWith join_path b p a op_id label layer_edges h k =
      elim (Bool-cases (a.node_type == kind_proposal_epic)) [
        | inl e ↦ rw (e, create_op) (refl, tt)
        | inr e ↦ elim (Result-cases (resolve_parent b.proposal b.lookup b.registration p.batch)) [
          | inl (x, f) ↦ rw (e, f, create_op) tt
          | inr (parent, f) ↦
              let extra = if is_cleanup a then p.retarget_targets else [] in
              let composed = compose_deps a b.lookup p.batch p.op_index layer_edges extra in
              elim (Result-cases composed) [
                | inl (x, g) ↦ rw (e, f, g, create_op) tt
                | inr (deps, g) ↦
                    let good =
                      OnOk-ok _ composed
                        (compose_deps-All a b.lookup p.batch p.op_index layer_edges extra h k) g in
                    elim (Bool-cases (is_cleanup a)) [
                      | inl c ↦ rw (e, f, g, c, create_op) (refl, good)
                      | inr c ↦ rw (e, f, g, c, create_op) (refl, good)
                    ]
              ]
        ]
      ]

  pub labelled_create_op-MadeWith :
      (join_path : List String → String) (b : Builder) (p : Plan) (a : Action)
      (layer_edges : List String)
      → DepsIn p.batch a.dep_spec_node_ids
      → All P layer_edges
      → OnOk (MadeWith (create_op_id a)) (labelled_create_op join_path b p a layer_edges)
  unfolding labelled_create_op
  labelled_create_op-MadeWith join_path b p a layer_edges h k =
      elim (Result-cases (label_for (labeler_of b) a (create_op_id a) b.registration)) [
        | inl (x, f) ↦ rw (f, labelled_create_op) tt
        | inr (label, f) ↦
            rw (f, labelled_create_op)
              (create_op-MadeWith join_path b p a (create_op_id a) label layer_edges h k)
      ]

  pub retarget_op-MadeWith :
      (b : Builder) (p : Plan) (a : Action)
      → DepsIn p.batch a.dep_spec_node_ids
      → OnOk (MadeWith (retarget_op_id a)) (retarget_op b p a)
  unfolding retarget_op
  retarget_op-MadeWith b p a h =
      let composed = compose_deps a b.lookup p.batch p.op_index [] [] in
      elim (Result-cases composed) [
        | inl (x, g) ↦ rw (g, retarget_op) tt
        | inr (deps, g) ↦
            let good =
              OnOk-ok _ composed (compose_deps-All a b.lookup p.batch p.op_index [] [] h tt) g in
            elim (Result-cases (label_for (labeler_of b) a (retarget_op_id a) b.registration)) [
              | inl (x, f) ↦ rw (g, f, retarget_op) tt
              | inr (label, f) ↦ rw (g, f, retarget_op) (refl, good)
            ]
      ]

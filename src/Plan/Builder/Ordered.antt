-- ===== src/Plan/Builder/Ordered.antt =====
-- The ops of a changeset stand behind the ops that they depend on.
use mathlib.Core.List.{append_assoc, append-nil, map-append}
use spexmachina.Prelude.{
  String, ◌≤◌, Bool, true, List, [], ◌∷◌, ◌++◌, map, some, All, contains, contains-append, count,
  fetch, OnOk, OnOk-ok, Result, ok, err, ◌≡◌, refl, sym, subst, ◌∙◌, inl, inr, arith, Result-cases,
}
use spexmachina.Plan.Types.{Action, Op, action_retarget, action_obsolete}
use spexmachina.Plan.Kahn.{ids}
use spexmachina.Plan.Kahn.Run.{IsUnique}
use spexmachina.Plan.Kahn.Order.{DepsFirst}
use spexmachina.Plan.Resolver.{Batch}
use spexmachina.Plan.Builder.{
  Builder, BuilderError, wrap, create_op_id, retarget_op_id, close_op_id, batch_of, ops_of,
  actions_of_type,
}
use spexmachina.Plan.Builder.Compose.{
  Plan, plan_of, next_edges, labelled_create_op, create_ops, retarget_op, retarget_ops, close_op,
  compose,
}
use spexmachina.Plan.Builder.Refs.{
  DepsIn, MadeWith, labelled_create_op-MadeWith, retarget_op-MadeWith,
}
use spexmachina.Plan.Builder.Earlier.{op_ids_of, EdgesEarlier, earlier_op, batch_of-known}

-- Every op that a dep names stands before the op, counting `seen`.
abbrev pub OpsFirst : List String → List Op → Type 0
OpsFirst seen [] = Unit
OpsFirst seen (o ∷ ops) =
    All (λ id. contains seen id ≡ true) (ops_of o.deps) × OpsFirst (seen ++ o.op_id ∷ []) ops

abbrev pub ids_of_ops : List Op → List String
ids_of_ops = map (λ (o : Op). o.op_id)

-- The ops with these ids, behind `seen`.
abbrev pub Emitted : List String → List String → List Op → Type 0
Emitted seen ids ops = (ids_of_ops ops ≡ ids) × OpsFirst seen ops

-- The batch maps the deps of each create to earlier ones.
abbrev pub BatchEarlier : Batch → List String → List Action → Type 0
BatchEarlier batch seen [] = Unit
BatchEarlier batch seen (a ∷ sorted) =
    DepsIn (λ v. contains seen v ≡ true) batch a.dep_spec_node_ids
    × BatchEarlier batch (seen ++ create_op_id a ∷ []) sorted

Emitted-cons :
    (seen : List String) (id : String) (ids : List String) (o : Op) (ops : List Op)
    → MadeWith (λ x. contains seen x ≡ true) id o
    → Emitted (seen ++ id ∷ []) ids ops
    → Emitted seen (id ∷ ids) (o ∷ ops)
Emitted-cons seen id ids o ops m e =
    ((λ i. m.0 i ∷ e.0 i), (m.1, subst (λ x. OpsFirst (seen ++ x ∷ []) ops) (sym m.0) e.1))

create_ops-Emitted :
    (join_path : List String → String) (b : Builder) (p : Plan) (seen : List String)
    (sorted : List Action) (edges : List (List String))
    → BatchEarlier p.batch seen sorted
    → EdgesEarlier seen (op_ids_of sorted) edges
    → OnOk (Emitted seen (op_ids_of sorted)) (create_ops join_path b p sorted edges)
unfolding create_ops
create_ops-Emitted join_path b p seen [] edges h k = (refl, tt)
create_ops-Emitted join_path b p seen (a ∷ sorted) edges h k =
    elim (Result-cases (labelled_create_op join_path b p a (next_edges edges).0)) [
      | inl (e, f) ↦ rw (f, create_ops) tt
      | inr (o, f) ↦ elim (Result-cases (create_ops join_path b p sorted (next_edges edges).1)) [
        | inl (e, g) ↦ rw (f, g, create_ops) tt
        | inr (ops, g) ↦
            rw (f, g, create_ops)
              (Emitted-cons seen (create_op_id a) (op_ids_of sorted) o ops
                (OnOk-ok _ (labelled_create_op join_path b p a (next_edges edges).0)
                  (labelled_create_op-MadeWith (λ x. contains seen x ≡ true) join_path b p a
                    (next_edges edges).0 h.0 k.0)
                  f)
                (OnOk-ok _ (create_ops join_path b p sorted (next_edges edges).1)
                  (create_ops-Emitted join_path b p (seen ++ create_op_id a ∷ []) sorted
                    (next_edges edges).1 h.1 k.1)
                  g))
      ]
    ]

-- All that the batch maps to has been emitted.
abbrev BatchIn : Batch → List String → Type 0
BatchIn batch seen = (dep v : String) → fetch batch dep ≡ some v → contains seen v ≡ true

BatchIn-DepsIn :
    (batch : Batch) (seen deps : List String)
    → BatchIn batch seen
    → DepsIn (λ v. contains seen v ≡ true) batch deps
BatchIn-DepsIn batch seen [] h = tt
BatchIn-DepsIn batch seen (dep ∷ deps) h = (h dep, BatchIn-DepsIn batch seen deps h)

BatchIn-more :
    (batch : Batch) (seen more : List String) → BatchIn batch seen → BatchIn batch (seen ++ more)
BatchIn-more batch seen more h dep v e = ground (arith, contains-append seen more v, h dep v e)

retarget_ops-Emitted :
    (b : Builder) (p : Plan) (seen : List String) (retargets : List Action)
    → BatchIn p.batch seen
    → OnOk (Emitted seen (map retarget_op_id retargets)) (retarget_ops b p retargets)
unfolding retarget_ops
retarget_ops-Emitted b p seen [] h = (refl, tt)
retarget_ops-Emitted b p seen (a ∷ retargets) h = elim (Result-cases (retarget_op b p a)) [
  | inl (e, f) ↦ rw (f, retarget_ops) tt
  | inr (o, f) ↦ elim (Result-cases (retarget_ops b p retargets)) [
    | inl (e, g) ↦ rw (f, g, retarget_ops) tt
    | inr (ops, g) ↦
        rw (f, g, retarget_ops)
          (Emitted-cons seen (retarget_op_id a) (map retarget_op_id retargets) o ops
            (OnOk-ok _ (retarget_op b p a)
              (retarget_op-MadeWith (λ x. contains seen x ≡ true) b p a
                (BatchIn-DepsIn p.batch seen a.dep_spec_node_ids h))
              f)
            (OnOk-ok _ (retarget_ops b p retargets)
              (retarget_ops-Emitted b p (seen ++ retarget_op_id a ∷ []) retargets
                (BatchIn-more p.batch seen _ h))
              g))
  ]
]

closes-Emitted :
    (seen : List String) (obsoletes : List Action)
    → Emitted seen (map close_op_id obsoletes) (map close_op obsoletes)
unfolding close_op
closes-Emitted seen [] = (refl, tt)
closes-Emitted seen (a ∷ obsoletes) =
    Emitted-cons seen (close_op_id a) (map close_op_id obsoletes) (close_op a)
      (map close_op obsoletes) (refl, tt) (closes-Emitted (seen ++ close_op_id a ∷ []) obsoletes)

OpsFirst-append :
    (seen : List String) (xs ys : List Op)
    → OpsFirst seen xs
    → OpsFirst (seen ++ ids_of_ops xs) ys
    → OpsFirst seen (xs ++ ys)
OpsFirst-append seen [] ys h k = rw append-nil at k
OpsFirst-append seen (o ∷ xs) ys h k =
    (h.0, OpsFirst-append (seen ++ o.op_id ∷ []) xs ys h.1 (rw append_assoc k))

Emitted-append :
    (seen ids more : List String) (xs ys : List Op)
    → Emitted seen ids xs
    → Emitted (seen ++ ids) more ys
    → Emitted seen (ids ++ more) (xs ++ ys)
Emitted-append seen ids more xs ys h k = (
  map-append (λ (o : Op). o.op_id) xs ys ∙ (λ i. h.0 i ++ k.0 i),
  OpsFirst-append seen xs ys h.1 (subst (λ l. OpsFirst (seen ++ l) ys) (sym h.0) k.1),
)

pub batch_earlier :
    (sorted before after : List Action) (inside : String → Bool)
    → sorted ≡ before ++ after
    → IsUnique sorted
    → ((dep v : String) → fetch (batch_of sorted []) dep ≡ some v → inside dep ≡ true)
    → DepsFirst inside (ids before) after
    → BatchEarlier (batch_of sorted []) (op_ids_of before) after
batch_earlier sorted before [] inside e unique known first = tt
batch_earlier sorted before (a ∷ after) inside e unique known first = (
  deps_earlier a.dep_spec_node_ids first.0,
  subst (λ l. BatchEarlier (batch_of sorted []) l after) (map-append create_op_id before (a ∷ []))
      (batch_earlier sorted (before ++ a ∷ []) after inside
        (e ∙ sym (append_assoc before (a ∷ []) after)) unique known
        (subst (λ l. DepsFirst inside l after)
          (sym (map-append (λ (x : Action). x.spec_node_id) before (a ∷ []))) first.1)),
)
  where
    deps_earlier :
        (deps : List String)
        → All (λ dep. inside dep ≡ true → contains (ids before) dep ≡ true) deps
        → DepsIn (λ v. contains (op_ids_of before) v ≡ true) (batch_of sorted []) deps
    deps_earlier [] h = tt
    deps_earlier (dep ∷ deps) h = (
      (λ v found.
          earlier_op before (a ∷ after) dep v (subst (λ l. count dep (ids l) ≤ 1) e (unique dep))
            (h.0 (known dep v found)) (subst (λ l. fetch (batch_of l []) dep ≡ some v) e found)),
      deps_earlier deps h.1,
    )

-- The ops of a changeset by their ids.
abbrev pub all_op_ids : List Action → List Action → List String
all_op_ids sorted actions =
    op_ids_of sorted
    ++ map retarget_op_id (actions_of_type action_retarget actions)
    ++ map close_op_id (actions_of_type action_obsolete actions)

pub compose-Emitted :
    (join_path : List String → String) (b : Builder) (sorted actions : List Action)
    (edges : List (List String))
    → BatchEarlier (batch_of sorted []) [] sorted
    → EdgesEarlier [] (op_ids_of sorted) edges
    → OnOk (Emitted [] (all_op_ids sorted actions)) (compose join_path b sorted actions edges)
unfolding compose fetch
compose-Emitted join_path b sorted actions edges h k =
    let retargets = actions_of_type action_retarget actions in
    let obsoletes = actions_of_type action_obsolete actions in
    let p = plan_of sorted retargets in
    elim (Result-cases (create_ops join_path b p sorted edges)) [
      | inl (e, f) ↦ rw (f, compose) tt
      | inr (creates, f) ↦ elim (Result-cases (retarget_ops b p retargets)) [
        | inl (e, g) ↦ rw (f, g, compose) tt
        | inr (moves, g) ↦
            rw (f, g, compose)
              (Emitted-append [] (op_ids_of sorted ++ map retarget_op_id retargets)
                (map close_op_id obsoletes) (creates ++ moves) (map close_op obsoletes)
                (Emitted-append [] (op_ids_of sorted) (map retarget_op_id retargets) creates moves
                  (OnOk-ok _ (create_ops join_path b p sorted edges)
                    (create_ops-Emitted join_path b p [] sorted edges h k) f)
                  (OnOk-ok _ (retarget_ops b p retargets)
                    (retarget_ops-Emitted b p (op_ids_of sorted) retargets (λ dep v found.
                      elim (batch_of-known sorted [] dep v found) [ inl e ↦ cc e | inr e ↦ e ]))
                    g))
                (closes-Emitted (op_ids_of sorted ++ map retarget_op_id retargets) obsoletes))
      ]
    ]

pub wrap-ok :
    {E A : Type 0} (f : E → BuilderError) (r : Result E A) {a : A} → wrap f r ≡ ok a → r ≡ ok a
wrap-ok f (ok x) h = cc h
wrap-ok f (err e) h = cc h

-- ===== src/Lib.antt =====
-- Verification library of spexmachina, which keeps a software specification as a tree of hashed
-- nodes and turns its changes into tracker tasks.
--
-- The program's core is a pipeline. merkle/ hashes the spec files into a tree, compares it with
-- the tree of the last snapshot (Diff), gives each change an impact level (Classify) and checks
-- that the changes are complete (CheckCompleteness). plan/ correlates the classified changes with
-- the tasks that the journal pairs with spec nodes (MatchNodes), decides on creates, closes and
-- retargets (ClassifyActions), resolves deps, parents and priorities (the Resolver), orders the
-- creates (Sort), labels them (LabelFor) and composes the changeset (Build). An adapter outside
-- the program applies the changeset to a tracker; ingest/ builds the journal lines that the ops
-- and their receipts lead to (EventBuilder), checks them (InvariantChecker, JournalEncoder) and
-- appends them to the journal (Reconciler), whose fold (mapping/) the next plan reads. Beside the
-- pipeline, validator/ checks a spec, among others that its dependency graphs are acyclic
-- (CheckDAG).
--
-- Which file models what (definitions keep the Go names in snake_case):
--   Schema.Spec        schema/schema.go: the parsed project.json and module.json
--   Schema.Profile     schema/profile.go, schema/module_compose.go: the profile and its derived views
--   Merkle.Tree        merkle/tree_builder.go, merkle/hasher.go, merkle/empty_tree.go: Node and hashes
--   Merkle.Diff        merkle/diff_engine.go: Diff
--   Merkle.Impact      merkle/impact_classifier.go: Classify
--   Merkle.Completeness, Merkle.Completeness.Rules
--                      merkle/completeness_checker.go: CheckCompleteness
--   Plan.Types         plan/types.go: Action, Op, Changeset and their vocabulary
--   Plan.Graph         plan/spec_graph.go: SpecGraph
--   Plan.Matcher       plan/node_matcher.go: MatchNodes
--   Plan.Classifier    plan/action_classifier.go: ClassifyActions
--   Plan.Resolver      plan/resolver.go: ResolveDeps, ResolveEpicAction, ResolveParent, ResolvePriority
--   Plan.Sorter        plan/sorter.go: Sort, with the layers
--   Plan.Kahn          plan/sorter.go: kahnSort, with its loop state Graph
--   Plan.Labeler       plan/labeler.go: LabelFor
--   Plan.Builder       plan/builder.go: op ids, layer edges and deps
--   Plan.Builder.Compose
--                      plan/builder.go: Build and the ops that it makes
--   Mapping.Journal    mapping/mapping_store.go: Event, fold, Get and History
--   Ingest.Receipts    ingest/reconciler.go: pairReceipts
--   Ingest.Invariants  ingest/invariant_checker.go: Check
--   Ingest.Events      ingest/event_builder.go: EventBuilder; ingest/refresh.go: deriveRefreshEID
--   Ingest.Encoder     ingest/journal_encoder.go: Validate and checkInvariant5
--   Ingest.Reconciler  ingest/reconciler.go: Apply
--   Validator.Dag      validator/dag_checker.go: detectStringCycles
--   Validator.Dag.Check, Validator.Dag.Extra, Validator.Dag.Whole
--                      validator/dag_checker.go: the graphs of a spec and CheckDAG
-- Below each of these, child modules hold the lemmas and theorems, and Samples the runs on small
-- inputs. Prelude holds what the parts share: lists over native numbers, strings, maps, sorting and
-- results.
--
-- State is passed explicitly: the variables of a loop are a record (Graph of Plan.Kahn, Matching
-- of the matcher, Seen of the invariant checker, Run of the reconciler, Search of the cycle
-- checker). A Go map is an association list, read by `fetch` and written by `store`; a set of
-- strings is a list. Where Go ranges over a map, the model takes the order of the list, and what
-- the code computes is sorted afterwards, save the errors on meta leaves of CheckCompleteness,
-- which Go gives in any order. sort.Slice is the stable insertion sort. Errors are constructors
-- that hold what the Go error names, without its text.
--
-- Bounds and fuel: the loop of kahnSort runs on as much fuel as the layer has nodes, each step
-- emits one of them; the loop of collectDeps runs on fuel for every edge of the graph once, since
-- a module is expanded once; dfs of the cycle checker runs on fuel for every node that the graph
-- names, each call turns a white one gray. Go's int counters that may fall below zero are integers
-- (Prelude.Int); priorities are natural numbers, since the schema admits 0 to 4.
--
-- Not modelled: reading, writing and decoding of files and JSON, the embedded schemas, the command
-- line, Markdown scanning, renderers, authoring commands, proposals, the shell adapters and the
-- performance recorder, which are input and output around the core; of validator/ the checks other
-- than CheckDAG; of ingest/ the refresh command but for its event ids. SHA-256 is the argument
-- `sha` of hash_children; whether a journal line fits its JSON schema is the argument
-- `fits_schema` of Apply; filepath.Join is the argument `join_path` of Build.
pub mod Prelude
pub mod Schema
pub mod Merkle
pub mod Mapping
pub mod Plan
pub mod Ingest
pub mod Validator

-- ===== src/Lib.antt =====
-- A verification library for AEGIS, the evidence and identity platform of this repository (aegis/).
--
-- The identity ledger is the core of the platform. Every mention of a name belongs to at most one
-- entity, through a row of identity_membership that names the revision which opened it and the one
-- which closed it. People decide (aegis/er/adjudication.py): a decision makes exactly one revision,
-- closes and reopens memberships, settles the candidate that proposed it, and rebuilds the canonical
-- map (aegis/er/canonical.py), which replays the decisions into edges from an absorbed entity to the
-- one that survived it. New mentions get their first membership from aegis/er/ledger.py.
--
-- Everything else that writes goes through the actions (aegis/actions/service.py): each asks the ontology
-- whether it is declared, checks its arguments, writes its tables, queues the changes of the
-- authorization store in the outbox, and appends one row to the audit log, all in one transaction. The
-- outbox is drained by aegis/authz/outbox.py, and aegis/projections/edges.py turns the claims into edges.
--
-- The files:
-- - Common: Boolean tests, lists and dictionaries over the native numbers. Common.Texts: texts and their
--   Boolean equality. Common.Lists, Common.Tests: lemmas that the components share.
-- - Identity.Store: the tables of aegis/store/models.py, one record for each class, and Session, the
--   state that every operation passes on: the tables, the sequence of revisions, the clock and the
--   identifiers that new_id will mint.
-- - Identity.Monad: an operation is a function of the session to an error or a result with the next
--   session. An error has no session: the transaction that raised it is rolled back.
-- - Identity.Ledger: active_revision_id, active_entity_for_mention, resolve_norm_key and
--   open_membership of aegis/er/ledger.py.
-- - Identity.Scope, Identity.Moves, Identity.Candidates, Identity.Constraints, Identity.Splits,
--   Identity.Adjudication: aegis/er/adjudication.py, its helpers by topic and then the four modes
--   confirm_match, reject_match, split_entity and mark_unresolved.
-- - Identity.Canonical: aegis/er/canonical.py, with lineage for _lineage_from_ledger, follow and
--   resolve for _resolve, and rebuild_canonical_map.
-- - Identity.Membership, Identity.Effects: lemmas on the table of memberships, and what each
--   operation did to the tables when it succeeded.
-- - Identity.Steps, Identity.Merging, Identity.History, Identity.Concurrency, Identity.Rejections,
--   Identity.Lineage: the step relation of the ledger and the theorems.
-- - Identity.Tests: runs on small sessions.
-- - Projection.Store: the claims, relations, sources and edge rows of aegis/store/models.py, and what
--   aegis/projections/edges.py reads of the ontology.
-- - Projection.Segments: _segment and _to_bound of aegis/projections/edges.py, with the theorems in
--   Projection.Segments.Dates, from lemmas on its two loops in Projection.Segments.Cuts and
--   Projection.Segments.Merging.
-- - Projection.Support: relation_index, support_summary and _handling_rank.
-- - Projection.Groups, Projection.Build: rebuild_edge_projection, first the grouping of the claims by
--   resolved ends, then _intervals and the rows. Projection.Stamps: is_stale.
-- - Projection.Edges, with the identifiers of its rows in Projection.Edges.Apart and
--   Projection.Edges.Distinct, Projection.Relations, Projection.Staleness: the theorems. Projection.Tests: runs on
--   a small database.
-- - Audit.Log: append and verify of aegis/audit/chain.py. Audit.Chain, Audit.Appends, Audit.Tamper: the
--   loop of verify and the theorems. Audit.Tests: runs with a trace of events as the hash.
-- - Authz.Tuples, Authz.Outbox: desired_tuples, sync and rebuild of aegis/authz/outbox.py and _mutate of
--   aegis/authz/fga.py. Authz.Sets, Authz.Rebuilt, Authz.Batch, Authz.Drained: the theorems. Authz.Tests: runs against
--   the server of Authz.Memory, which keeps a list. The OpenFGA server is a parameter, with its documented
--   behaviour as the hypothesis IsStore.
-- - Ids: new_id of aegis/ids.py. Ids.Order: its texts against the numbers that they encode. Ids.Tests: small
--   identifiers.
-- - Actions.Ontology: what the actions ask of aegis/ontology/loader.py. Actions.Store: the tables of
--   aegis/store/models.py that the actions write, and Db, the database that every action passes on: the
--   identity session with its clock, the tables, the outbox and the audit log. Actions.Monad: an action is
--   a function of the database to an error or a result with the next database; also _outbox.
-- - Actions.Gate: _require_action, _handling, _grade and _audit. Actions.Cases: open_case,
--   assign_case_member, remove_case_member. Actions.Evidence: register_evidence, add_custody_event,
--   release_quarantine. Actions.Anchors: _entity_from_mention, _entity_type_for, _check_anchor,
--   _require_anchors. Actions.Claims: _create_claim and record_claim, their arguments
--   and their row in Actions.Claims.Draft. Actions.Relating: retract_claim and
--   link_claims. Actions.Suggestions: submit_suggestion, _validate_suggestion_payload and
--   suggestion_idempotency_key. Actions.Review: review_suggestion and _dispatch_acceptance.
--   Actions.Adjudicate: adjudicate_identity over the identity ledger, and _queue_reattribution.
-- - Actions.Effects: what each action did to the database when it succeeded. Actions.Steps: one action, and
--   any sequence of actions, as relations. Actions.Access: the tuples that the tables imply against the
--   outbox and the server, down to Actions.Access.Synced. Actions.Chains, Actions.Logged: custody and audit
--   along a sequence. Actions.Recorded, Actions.Sound, Actions.Lawful: claims. Actions.Reviewed,
--   Actions.Settled, Actions.Submitted, Actions.Related: the review queue and relations. Actions.Gated,
--   Actions.Adjudicated, Actions.Raced: the gate and the action of identity. Actions.Tests: runs on a small database.
--
-- The edge projection reads what the ledger decided: an end of a claim that has an anchor follows the
-- active membership of its mention, any other goes through the canonical map, and each row is stamped
-- with the head of the revisions, which is_stale compares with the head of now.
--
-- Identifiers (and predicates) are numbers: the code only compares, sorts and stores them. A table is
-- the list of its rows in insertion order, and ORDER BY is a stable insertion sort. The walk of _resolve
-- runs on fuel, two more than the number of edges: it meets no entity twice, and each step follows an
-- edge of an entity that it had not met. Of a row the model keeps the columns that the modelled code
-- reads or writes. A date is its proleptic ordinal, so date.min is 1 and
-- date.max is 3652059. In the edge projection an exception is none, and the digest of _edge_id is a
-- parameter. Of the constraints of the schema, the code of the model raises where a primary key of a claim,
-- a case, an item of evidence, a relation, a suggestion or an edge is taken, where the idempotency key of a
-- suggestion is, where a suggestion names a row that is not there, where the parent of a decision is no
-- revision, and where a negative constraint is of one mention with itself. The foreign keys of identity
-- rows to mentions and entities are not checked. A read of the authorization store may fail, which ends a
-- rebuild. Reads and writes of one call are one sequence: the
-- isolation of concurrent transactions by PostgreSQL is not modelled.
--
-- In the actions, identifiers of cases, evidence and users are texts, since the tuples of the authorization
-- store are made of them. A dict is an association list in the order of its keys, a set is a list. SHA-256,
-- the JSON texts, the text of a numbered identifier, and the reading of a JSON draft as the arguments of a
-- claim are parameters (Runtime and Drafts). A keyword argument that has the wrong name, which is a
-- TypeError in Python, does not arise. adjudicate_identity is not a step of Actions.Steps, since a split may
-- queue suggestions with audit rows of their own; what it does to the ledger is a step of Identity.Steps.
-- The loop of new_id runs 26 rounds, which is its own bound. aegis/actions/ has no other loop but those over
-- lists.
--
-- Not modelled: the HTTP routes, the reading of dates in a draft (_coerce_claim_payload), the generation of
-- candidates, the queries and search, ingestion, the loading of the ontology, and all I/O. They are glue, or
-- rest on libraries that the repository only calls, or are not yet done.
pub mod Actions
pub mod Audit
pub mod Authz
pub mod Common
pub mod Identity
pub mod Ids
pub mod Projection

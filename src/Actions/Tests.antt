-- ===== src/Actions/Tests.antt =====
-- A small database on which the actions run.
mod Access
mod Claims
mod Raced
use native.Mathlib.Decide.{ℕ_discrete}
use criminal_networks_analys.Common.{
  ℕ, suc, ◌+◌, ◌≡◌, refl, String, Bool, true, false, Option, none, some, List, [], ◌∷◌, ◌++◌, ◌↔◌,
  ◌⊎◌, inl, inr, arith, length,
}
use criminal_networks_analys.Identity.Store.{Session, Entity, Mention}
use criminal_networks_analys.Identity.Store.{confirm}
use criminal_networks_analys.Identity.Monad.{ok}
use criminal_networks_analys.Identity.Steps.{Adjudicates}
use criminal_networks_analys.Identity.Adjudication.{AdjudicationResult, plain_result}
use criminal_networks_analys.Identity.Adjudication.{confirm_match}
use criminal_networks_analys.Identity.Canonical.{
  rebuild_canonical_map, map_rows, resolve, lineage, by_kind, gained, lost,
}
use criminal_networks_analys.Identity.Moves.{revision_row}
use criminal_networks_analys.Identity.Ledger.{opened}
use criminal_networks_analys.Authz.Tuples.{Tuple3, member, desired_tuples}
use criminal_networks_analys.Authz.Outbox.{Drain, sync, finish, pending_rows}
use criminal_networks_analys.Authz.Rebuilt.{IsStore, holds}
use criminal_networks_analys.Authz.Memory.{server, server-IsStore}
use criminal_networks_analys.Actions.Ontology.{Ontology, action, ActionSpec, PredicateSpec, types}
use criminal_networks_analys.Actions.Store.{
  Db, Runtime, ActionContext, CaseFile, EvidenceItem, CustodyEvent, SourceRecord, Value, Claim,
  ReviewQueue, tables,
}
use criminal_networks_analys.Actions.Monad.{ActionError, validation}
use criminal_networks_analys.Actions.Cases.{open_case, assign_case_member, remove_case_member}
use criminal_networks_analys.Actions.Evidence.{
  EvidenceForm, CustodyForm, aware, register_evidence, add_custody_event,
}
use text.Mathlib.Text.{◌==◌ as str_eq}
use criminal_networks_analys.Audit.Log.{append, is_blank, verify, passes}
use criminal_networks_analys.Audit.Appends.{IsNumbered}
use criminal_networks_analys.Actions.Chains.{AreChains, Reach-AreChains}
use criminal_networks_analys.Actions.Logged.{Reach-verify}
use criminal_networks_analys.Actions.Gate.{require_action}
use criminal_networks_analys.Actions.Gated.{satisfies, require_action-exact}
use criminal_networks_analys.Actions.Sound.{wrote}
use criminal_networks_analys.Actions.Lawful.{IsLawful, create_claim-IsLawful}
use criminal_networks_analys.Actions.Relating.{
  link_claims, relation_exists, add_relation, relation_row,
}
use criminal_networks_analys.Actions.Review.{accept_relation, review_suggestion}
use criminal_networks_analys.Actions.Reviewed.{HasClaim}
use criminal_networks_analys.Actions.Settled.{review-outcome, review-once}
use criminal_networks_analys.Actions.Submitted.{submit_suggestion-once}
use criminal_networks_analys.Actions.Adjudicate.{
  Mode, confirms, handler, protection, adjudicate_identity,
}
use criminal_networks_analys.Actions.Adjudicated.{adjudicate_identity-decides}
use criminal_networks_analys.Actions.Related.{accept_relation_self, relation_draft, with_relation}
use criminal_networks_analys.Actions.Claims.{
  ClaimDraft, Sides, claim_row, claim_exists, create_claim, record_claim,
}
use criminal_networks_analys.Actions.Suggestions.{
  Drafts, Payload, SuggestionForm, submit_suggestion, suggestion_row, get_suggestion,
}
use criminal_networks_analys.Actions.Steps.{
  Reach, Acts, here, next, assigns, removes, registers, transfers, count,
}
use criminal_networks_analys.Actions.Access.Granting.{IsGranted}
use criminal_networks_analys.Actions.Access.Synced.{actions-sync}

abbrev pub rt : Runtime ℕ
rt = record { digest = λ h e. suc h; genesis = 0; dumps = λ d. "{}"; spell = λ n. "x" }

abbrev pub open_action : ActionSpec
open_action = record { roles = "analyst" ∷ []; audit = true; dual_control_for = [] }

abbrev pub guarded_action : ActionSpec
guarded_action = record {
  roles = "supervisor" ∷ [];
  audit = true;
  dual_control_for = "protected_person" ∷ [];
}

abbrev pub ontology : Ontology
ontology = record {
  version = "0.4.0";
  handling_codes = "open" ∷ "restricted" ∷ [];
  grading = record {
    reliability_scale = [];
    credibility_scale = "cannot_judge" ∷ [];
    verification_scale = "unverified" ∷ [];
    confidence_scale = "high" ∷ [];
  };
  object_types = "person" ∷ [];
  predicates =
      (
        "allied_with",
        record { subject = "person" ∷ []; object = types ("person" ∷ []); symmetric = true },
      )
      ∷ [];
  actions =
      ("open_case", open_action)
      ∷ ("assign_case_member", open_action)
      ∷ ("remove_case_member", open_action)
      ∷ ("register_evidence", open_action)
      ∷ ("transfer_custody", open_action)
      ∷ ("record_claim", open_action)
      ∷ ("retract_claim", open_action)
      ∷ ("link_claims", open_action)
      ∷ ("submit_suggestion", open_action)
      ∷ ("review_suggestion", open_action)
      ∷ ("adjudicate_identity", guarded_action)
      ∷ [];
}

abbrev pub context : ActionContext
context = record {
  actor = "alice";
  purpose = none;
  session_id = none;
  case_id = none;
  roles = "supervisor" ∷ [];
  second_actor = some "bob";
}

abbrev pub person : ℕ → Entity
person e = record { entity_id = e; entity_type = "person"; label = "A"; tombstoned_at = none }

abbrev pub mention : ℕ → Mention
mention m = record { mention_id = m; record_id = 5; raw_text = "A"; norm_key = "a" }

-- Entity 1 holds mention 10 and entity 2 holds mention 11; mention 12 belongs to nobody.
abbrev pub session : Session
session = record {
  revisions = revision_row 0 none ∷ [];
  next_revision = 1;
  decisions = [];
  memberships = opened 1 10 1 0 ∷ opened 2 11 2 0 ∷ [];
  mentions = mention 10 ∷ mention 11 ∷ mention 12 ∷ [];
  entities = person 1 ∷ person 2 ∷ [];
  candidates = [];
  constraints = [];
  canonical_map = [];
  claims = [];
  now = 7;
  ids = λ n. 100 + n;
  drawn = 0;
}

abbrev pub case_file : CaseFile
case_file = record {
  case_id = "c1";
  title = "T";
  status = "open";
  purpose = "P";
  handling_code = "open";
  opened_by = "alice";
  opened_at = 1;
}

abbrev pub start : Db ℕ
start = record {
  identity = session;
  records = record { record_id = 5; status = "landed"; quarantine_reason = none } ∷ [];
  cases = case_file ∷ [];
  members = [];
  evidence = [];
  custody = [];
  claims = [];
  relations = [];
  suggestions = [];
  outbox = [];
  next_outbox = 1;
  audit = record { rows = []; sequence = 1; now = 7 };
}

abbrev pub row_of : {A : Type 0} → A → ActionError ⊎ (A × Db ℕ) → A
row_of a (inl e) = a
row_of a (inr (b, db)) = b

abbrev pub after : {A : Type 0} → ActionError ⊎ (A × Db ℕ) → Db ℕ
after (inl e) = start
after (inr (a, db)) = db

unfoldable pub program : Unit {0}
unfolding assign_case_member remove_case_member register_evidence add_custody_event desired_tuples
    append is_blank verify create_claim record_claim link_claims accept_relation submit_suggestion
    review_suggestion adjudicate_identity require_action confirm_match rebuild_canonical_map
    map_rows resolve lineage by_kind gained lost
program = tt

abbrev pub turned : Sides
turned = record {
  subject = 1;
  object = some 2;
  subject_mention = some 10;
  object_mention = some 11;
}

abbrev pub draft : ClaimDraft
draft = record {
  predicate = "allied_with";
  record_id = 5;
  assertion_type = "reported";
  subject_id = some 2;
  object_id = none;
  object_value = none;
  claim_id = some 50;
  excerpt = none;
  collection_method = some "extraction";
  credibility_scheme = none;
  credibility_original = none;
  credibility_normalized = "cannot_judge";
  verification_status = "unverified";
  analytic_confidence = none;
  event_time_earliest = none;
  event_time_latest = none;
  valid_from = none;
  valid_to = none;
  handling_code = "open";
  case_id = some "c1";
  jurisdiction = none;
  location_text = none;
  supersedes = none;
  subject_mention_id = some 11;
  object_mention_id = some 10;
  subject_entity_type = none;
  object_entity_type = none;
}

abbrev pub drafts : Drafts
drafts = record {
  sha256 = λ text. text;
  sorted_dumps = λ payload. "{}";
  read = λ payload. some draft;
}

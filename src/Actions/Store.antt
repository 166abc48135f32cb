-- ===== src/Actions/Store.antt =====
-- aegis/actions/service.py, aegis/store/models.py: the tables that the actions write, and their arguments.
-- Identifiers of cases, of evidence and of users are texts, since tuples of the authorization store are
-- made of them; the other identifiers are the numbers of the identity ledger.
use criminal_networks_analys.Common.{ℕ, String, Bool, Option, List, map}
use criminal_networks_analys.Identity.Store.{Session}
use criminal_networks_analys.Audit.Log.{Log, Event}
use criminal_networks_analys.Authz.Tuples.{CaseMember, Tables}
use criminal_networks_analys.Authz.Tuples as Tuples
use criminal_networks_analys.Authz.Outbox.{AuthzOutbox}

pub record ActionContext : Type 0 where
  pub actor : String
  pub purpose : Option String
  pub session_id : Option String
  pub case_id : Option String
  pub roles : List String
  pub second_actor : Option String

pub record SourceRecord : Type 0 where
  pub record_id : ℕ
  pub status : String
  pub quarantine_reason : Option String

pub record CaseFile : Type 0 where
  pub case_id : String
  pub title : String
  pub status : String
  pub purpose : String
  pub handling_code : String
  pub opened_by : String
  pub opened_at : ℕ

pub record EvidenceItem : Type 0 where
  pub evidence_id : String
  pub case_id : Option String
  pub record_id : Option ℕ
  pub description : String
  pub content_hash : Option String
  pub storage_uri : Option String
  pub acquired_at : Option ℕ
  pub acquired_by : String
  pub legal_basis : Option String
  pub handling_code : String
  pub created_at : ℕ

pub record CustodyEvent : Type 0 where
  pub evidence_id : String
  pub seq : ℕ
  pub from_actor : Option String
  pub to_actor : String
  pub occurred_at : ℕ
  pub purpose : String
  pub hash_checked : Bool
  pub note : Option String

-- A value of a JSON object; an inner object is given by its JSON text.
pub data Value : Type 0 where
  null : Value
  str : String → Value
  int : ℕ → Value
  flag : Bool → Value
  strs : List String → Value
  ints : List ℕ → Value
  json : String → Value

pub record Claim : Type 0 where
  pub claim_id : ℕ
  pub subject_id : ℕ
  pub predicate : String
  pub object_id : Option ℕ
  pub object_value : Option Value
  pub subject_mention_id : Option ℕ
  pub object_mention_id : Option ℕ
  pub identity_revision_id : ℕ
  pub assertion_type : String
  pub record_id : ℕ
  pub excerpt : Option String
  pub collection_method : Option String
  pub credibility_scheme : Option String
  pub credibility_original : Option String
  pub credibility_normalized : String
  pub verification_status : String
  pub analytic_confidence : Option String
  pub event_time_earliest : Option ℕ
  pub event_time_latest : Option ℕ
  pub valid_from : Option ℕ
  pub valid_to : Option ℕ
  pub recorded_at : ℕ
  pub retracted_at : Option ℕ
  pub retraction_reason : Option String
  pub handling_code : String
  pub case_id : Option String
  pub jurisdiction : Option String
  pub location_text : Option String
  pub supersedes : Option ℕ
  pub ontology_version : String

pub record ClaimRelation : Type 0 where
  pub from_claim : ℕ
  pub to_claim : ℕ
  pub relation : String
  pub created_by : String
  pub created_at : ℕ

-- A row of the review queue. The payload is a JSON object.
pub record ReviewQueue : Type 0 where
  pub suggestion_id : ℕ
  pub suggestion_kind : String
  pub schema_version : ℕ
  pub payload : List (String × Value)
  pub target_action : String
  pub producer : String
  pub producer_version : String
  pub producer_meta : List (String × Value)
  pub record_id : Option ℕ
  pub case_id : Option String
  pub idempotency_key : String
  pub supersedes : Option ℕ
  pub expires_at : Option ℕ
  pub status : String
  pub decided_by : Option String
  pub decided_at : Option ℕ
  pub decision_note : Option String
  pub result_claim_id : Option ℕ
  pub result_decision_id : Option ℕ
  pub result_relation : Option (List (String × Value))
  pub created_at : ℕ

-- The database: the identity tables, those of this service, the audit log, and the sequence of the
-- outbox. The clock and the identifiers to come are those of the identity session.
pub record Db (H : Type 0) : Type 0 where
  pub identity : Session
  pub records : List SourceRecord
  pub cases : List CaseFile
  pub members : List CaseMember
  pub evidence : List EvidenceItem
  pub custody : List CustodyEvent
  pub claims : List Claim
  pub relations : List ClaimRelation
  pub suggestions : List ReviewQueue
  pub outbox : List AuthzOutbox
  pub next_outbox : ℕ
  pub audit : Log H

-- What the service uses of code outside the program: the digest of the audit chain and the hash before
-- its first row, JSON texts, and the text of a numbered identifier.
pub record Runtime (H : Type 0) : Type 0 where
  pub digest : H → Event → H
  pub genesis : H
  pub dumps : List (String × Value) → String
  pub spell : ℕ → String

abbrev pub evidence_view : EvidenceItem → Tuples.EvidenceItem
evidence_view e = record { evidence_id = e.evidence_id; case_id = e.case_id }

abbrev pub custody_view : CustodyEvent → Tuples.CustodyEvent
custody_view e = record { evidence_id = e.evidence_id; seq = e.seq; to_actor = e.to_actor }

-- The tables that `desired_tuples` reads, with the columns that it reads.
abbrev pub tables : {H : Type 0} → Db H → Tables
tables db = record {
  members = db.members;
  evidence = map evidence_view db.evidence;
  custody = map custody_view db.custody;
}

-- ===== src/Actions/Evidence.antt =====
-- aegis/actions/service.py: `register_evidence`, `add_custody_event` and `release_quarantine`.
use Prim.Native.String.{◌++◌ as append_text}
use text.Mathlib.Text.{◌==◌ as str_eq}
use criminal_networks_analys.Common.{
  ℕ, suc, String, Bool, true, false, not, Option, none, some, List, [], ◌∷◌, ◌++◌, is_none, ltb,
  ◌==◌, if◌then◌else◌,
}
use criminal_networks_analys.Audit.Log.{is_blank}
use criminal_networks_analys.Authz.Tuples.{Tuple3}
use criminal_networks_analys.Authz.Outbox.{write, delete}
use criminal_networks_analys.Actions.Ontology.{Ontology}
use criminal_networks_analys.Actions.Store.{
  Db, Runtime, ActionContext, str, int, flag, EvidenceItem, CustodyEvent, SourceRecord,
}
use criminal_networks_analys.Actions.Monad.{
  Act, validation, integrity, pure, gets, modify, raise_if, or_raise, queue, ◌>>=◌, ◌>>◌,
}
use criminal_networks_analys.Actions.Gate.{require_action, handling, audit}
use criminal_networks_analys.Actions.Cases.{case_exists, given, optional, text_or_new_id}

-- A datetime as the caller gives it, with a time zone or without.
pub data Datetime : Type 0 where
  aware : ℕ → Datetime
  naive : ℕ → Datetime

abbrev pub is_naive : Datetime → Bool
is_naive (aware _) = false
is_naive (naive _) = true

abbrev pub instant : Datetime → ℕ
instant (aware t) = t
instant (naive t) = t

pub record EvidenceForm : Type 0 where
  pub description : String
  pub evidence_id : Option String
  pub case_id : Option String
  pub record_id : Option ℕ
  pub content_hash : Option String
  pub storage_uri : Option String
  pub acquired_at : Option ℕ
  pub acquired_by : Option String
  pub legal_basis : Option String
  pub handling_code : String

pub record CustodyForm : Type 0 where
  pub evidence_id : String
  pub to_actor : String
  pub occurred_at : Datetime
  pub purpose : String
  pub from_actor : Option String
  pub hash_checked : Bool
  pub note : Option String

abbrev pub same_bool : Bool → Bool → Bool
same_bool true b = b
same_bool false b = not b

abbrev pub get_record : ℕ → List SourceRecord → Option SourceRecord
get_record id [] = none
get_record id (r ∷ rs) = if r.record_id == id then some r else get_record id rs

abbrev pub get_evidence : String → List EvidenceItem → Option EvidenceItem
get_evidence id [] = none
get_evidence id (e ∷ es) = if str_eq e.evidence_id id then some e else get_evidence id es

abbrev pub later_event : CustodyEvent → Option CustodyEvent → CustodyEvent
later_event e none = e
later_event e (some f) = if ltb e.seq f.seq then f else e

-- The event of the item with the highest `seq`.
abbrev pub current_event : String → List CustodyEvent → Option CustodyEvent
current_event id [] = none
current_event id (e ∷ es) =
    let rest = current_event id es in
    if str_eq e.evidence_id id then some (later_event e rest) else rest

abbrev pub missing : {H : Type 0} {A : Type 0} → (A → Db H → Bool) → Option A → Db H → Bool
missing exists none db = false
missing exists (some a) db = not (exists a db)

abbrev pub record_exists : {H : Type 0} → ℕ → Db H → Bool
record_exists id db = not (is_none (get_record id db.records))

abbrev pub evidence_exists : {H : Type 0} → String → Db H → Bool
evidence_exists id db = not (is_none (get_evidence id db.evidence))

abbrev pub or_text : Option String → String → String
or_text none t = t
or_text (some u) t = u

abbrev pub case_tuple : String → String → Tuple3
case_tuple evidence_id case_id = record {
  user = append_text "case:" case_id;
  relation = "case";
  object = append_text "evidence_item:" evidence_id;
}

abbrev pub custody_tuple : String → String → Tuple3
custody_tuple evidence_id actor = record {
  user = append_text "user:" actor;
  relation = "custodian";
  object = append_text "evidence_item:" evidence_id;
}

-- Where `from_actor` is given, it is the custodian of the event before.
abbrev pub wrong_from : Option String → String → Bool
wrong_from none custodian = false
wrong_from (some actor) custodian = not (str_eq actor custodian)

abbrev pub custody_row : CustodyForm → ℕ → Option String → CustodyEvent
custody_row form seq from_actor = record {
  evidence_id = form.evidence_id;
  seq = seq;
  from_actor = from_actor;
  to_actor = form.to_actor;
  occurred_at = instant form.occurred_at;
  purpose = form.purpose;
  hash_checked = form.hash_checked;
  note = form.note;
}

module _ {H : Type 0} (rt : Runtime H) (ontology : Ontology) where
  abbrev pub evidence_row : EvidenceForm → String → String → Db H → EvidenceItem
  evidence_row form id actor db = record {
    evidence_id = id;
    case_id = form.case_id;
    record_id = form.record_id;
    description = form.description;
    content_hash = form.content_hash;
    storage_uri = form.storage_uri;
    acquired_at = form.acquired_at;
    acquired_by = or_text (given form.acquired_by) actor;
    legal_basis = form.legal_basis;
    handling_code = form.handling_code;
    created_at = db.identity.now;
  }

  abbrev pub add_evidence : EvidenceItem → Db H → Db H
  add_evidence row db = record db { evidence = db.evidence ++ row ∷ [] }

  abbrev pub queue_case : String → Option String → Db H → Db H
  queue_case id none db = db
  queue_case id (some case_id) db = queue write (case_tuple id case_id) db

  unfoldable pub register_evidence : ActionContext → EvidenceForm → Act H EvidenceItem
  unfolding require_action handling
  register_evidence context form = do
    require_action ontology "register_evidence" none []
    handling ontology form.handling_code
    raise_if (is_blank form.description) (validation "evidence_item.description")
    raise_if (not (same_bool (is_none form.content_hash) (is_none form.storage_uri)))
        (validation "evidence_item.content_hash")
    no_case ← gets (missing case_exists form.case_id)
    raise_if no_case (validation "evidence_item.case_id")
    no_record ← gets (missing record_exists form.record_id)
    raise_if no_record (validation "evidence_item.record_id")
    id ← text_or_new_id rt ontology (given form.evidence_id)
    taken ← gets (evidence_exists id)
    raise_if taken (integrity "evidence_item_pkey")
    row ← gets (evidence_row form id context.actor)
    modify (add_evidence row)
    modify (queue_case id form.case_id)
    audit rt context "register_evidence" "evidence_item" id form.case_id (
        ("content_hash", optional form.content_hash)
        ∷ ("physical", flag (is_none form.content_hash))
        ∷ [])
    pure row

  -- The checks against the event before, and the row to be added.
  abbrev pub next_event : CustodyForm → Option CustodyEvent → Act H CustodyEvent
  next_event form none = do
    raise_if (not (is_none form.from_actor)) (validation "custody_event.from_actor")
    pure (custody_row form 1 none)
  next_event form (some previous) = do
    raise_if (wrong_from form.from_actor previous.to_actor) (validation "custody_event.from_actor")
    raise_if (ltb (instant form.occurred_at) previous.occurred_at)
        (validation "custody_event.occurred_at")
    raise_if (str_eq form.to_actor previous.to_actor) (validation "custody_event.to_actor")
    modify (queue delete (custody_tuple form.evidence_id previous.to_actor))
    pure (custody_row form (suc previous.seq) (some previous.to_actor))

  abbrev pub add_event : CustodyEvent → Db H → Db H
  add_event row db = record db { custody = db.custody ++ row ∷ [] }

  abbrev pub custody_id : String → ℕ → String
  custody_id id seq = append_text id (append_text ":" (rt.spell seq))

  unfoldable pub add_custody_event : ActionContext → CustodyForm → Act H CustodyEvent
  unfolding require_action
  add_custody_event context form = do
    require_action ontology "transfer_custody" none []
    raise_if (is_blank form.to_actor) (validation "custody_event.to_actor")
    raise_if (is_blank form.purpose) (validation "custody_event.purpose")
    raise_if (is_naive form.occurred_at) (validation "custody_event.occurred_at")
    found ← gets (λ db. get_evidence form.evidence_id db.evidence)
    item ← or_raise found (validation "custody_event.evidence_id")
    previous ← gets (λ db. current_event form.evidence_id db.custody)
    row ← next_event form previous
    modify (add_event row)
    modify (queue write (custody_tuple form.evidence_id form.to_actor))
    audit rt context "transfer_custody" "custody_event" (custody_id form.evidence_id row.seq)
        item.case_id
        (("from_actor", optional row.from_actor)
          ∷ ("to_actor", str form.to_actor)
          ∷ ("seq", int row.seq)
          ∷ [])
    pure row

  abbrev pub landed : SourceRecord → SourceRecord
  landed r = record r { status = "landed"; quarantine_reason = none }

  abbrev pub put_record : SourceRecord → List SourceRecord → List SourceRecord
  put_record r [] = []
  put_record r (s ∷ ss) = if s.record_id == r.record_id then r ∷ ss else s ∷ put_record r ss

  abbrev pub release : SourceRecord → Db H → Db H
  release r db = record db { records = put_record (landed r) db.records }

  unfoldable pub release_quarantine : ActionContext → ℕ → String → Act H SourceRecord
  unfolding require_action
  release_quarantine context record_id note = do
    require_action ontology "release_quarantine" none []
    raise_if (is_blank note) (validation "source_record.release_note")
    found ← gets (λ db. get_record record_id db.records)
    row ← or_raise found (validation "source_record.record_id")
    raise_if (not (str_eq row.status "quarantined")) (validation "source_record.status")
    modify (release row)
    audit rt context "release_quarantine" "source_record" (rt.spell record_id) none
        (("note", str note) ∷ ("was", optional row.quarantine_reason) ∷ [])
    pure (landed row)

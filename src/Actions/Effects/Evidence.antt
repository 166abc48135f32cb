-- ===== src/Actions/Effects/Evidence.antt =====
-- `register_evidence`, `add_custody_event`, `open_case` and `release_quarantine` when they succeed.
use text.Mathlib.Text.{◌==◌ as str_eq}
use criminal_networks_analys.Common.{
  ℕ, suc, String, ◌≡◌, refl, ap, sym, ◌∙◌, true, false, Option, none, some, [], ◌∷◌, arith, inl,
  inr, ◌⊎◌, Option-cases, is_none, ◌≤◌,
}
use criminal_networks_analys.Audit.Log.{Entry}
use criminal_networks_analys.Authz.Outbox.{write, delete}
use criminal_networks_analys.Actions.Ontology.{Ontology}
use criminal_networks_analys.Actions.Store.{
  Db, Runtime, ActionContext, str, int, flag, CaseFile, EvidenceItem, CustodyEvent, SourceRecord,
}
use criminal_networks_analys.Actions.Monad.{queue}
use criminal_networks_analys.Actions.Gate.{audit_entry}
use criminal_networks_analys.Actions.Cases.{
  open_case, optional, text_or_new_id, given, add_case, case_row, case_exists,
}
use criminal_networks_analys.Actions.Evidence.{
  EvidenceForm, CustodyForm, register_evidence, add_custody_event, release_quarantine,
  current_event, custody_row, custody_tuple, queue_case, add_evidence, evidence_row, add_event,
  custody_id, instant, get_evidence, get_record, release, landed,
}
use criminal_networks_analys.Actions.Effects.{Audits, finish-Audits}

module _ {H : Type 0} (rt : Runtime H) (ontology : Ontology) where
  abbrev transfers : ActionContext → CustodyForm → CustodyEvent → EvidenceItem → Entry
  transfers c form row item =
      audit_entry rt c "transfer_custody" "custody_event"
        (custody_id rt ontology form.evidence_id row.seq) item.case_id
        (("from_actor", optional row.from_actor)
          ∷ ("to_actor", str form.to_actor)
          ∷ ("seq", int row.seq)
          ∷ [])

  abbrev pub handed : CustodyForm → CustodyEvent → Db H → Db H
  handed form row db =
      queue write (custody_tuple form.evidence_id form.to_actor) (add_event rt ontology row db)

  abbrev pub next_row : CustodyForm → CustodyEvent → CustodyEvent
  next_row form previous = custody_row form (suc previous.seq) (some previous.to_actor)

  abbrev pub released : CustodyForm → CustodyEvent → Db H → Db H
  released form previous db = queue delete (custody_tuple form.evidence_id previous.to_actor) db

  -- The first event of the item was added, or the next one.
  abbrev pub Transferred : ActionContext → CustodyForm → Db H → Db H → Type 0
  Transferred c form db db' =
      (item : EvidenceItem) × (get_evidence form.evidence_id db.evidence ≡ some item)
      × (((current_event form.evidence_id db.custody ≡ none)
            × Audits rt (transfers c form (custody_row form 1 none) item)
                (handed form (custody_row form 1 none) db) db')
          ⊎ ((previous : CustodyEvent) × (current_event form.evidence_id db.custody ≡ some previous)
              × (previous.occurred_at ≤ instant form.occurred_at)
              × (str_eq form.to_actor previous.to_actor ≡ false)
              × Audits rt (transfers c form (next_row form previous) item)
                  (handed form (next_row form previous) (released form previous db)) db'))

  pub transfer-Transferred :
      (c : ActionContext) (form : CustodyForm) (db db' : Db H) (row : CustodyEvent)
      → add_custody_event rt ontology c form db ≡ inr (row, db')
      → Transferred c form db db'
  unfolding add_custody_event
  transfer-Transferred c form db db' row h =
      elim (Option-cases (get_evidence form.evidence_id db.evidence)) [
        | inl e ↦ ground (arith, h, e)
        | inr (item, e) ↦ elim (Option-cases (current_event form.evidence_id db.custody)) [
          | inl new ↦ (
            item,
            e,
            inl (
              new,
              finish-Audits rt (transfers c form (custody_row form 1 none) item)
                  (handed form (custody_row form 1 none) db) db' (custody_row form 1 none) row
                  (ground (arith, h, e, new)),
            ),
          )
          | inr (previous, there) ↦ (
            item,
            e,
            inr (
              previous,
              there,
              ground (arith, h, e, there),
              ground (arith, h, e, there),
              finish-Audits rt (transfers c form (next_row form previous) item)
                  (handed form (next_row form previous) (released form previous db)) db'
                  (next_row form previous) row (ground (arith, h, e, there)),
            ),
          )
        ]
      ]

  abbrev registers : ActionContext → EvidenceForm → String → Entry
  registers c form id = audit_entry rt c "register_evidence" "evidence_item" id form.case_id (
      ("content_hash", optional form.content_hash)
      ∷ ("physical", flag (is_none form.content_hash))
      ∷ [])

  abbrev pub filed : ActionContext → EvidenceForm → String → Db H → Db H
  filed c form id db =
      queue_case rt ontology id form.case_id
        (add_evidence rt ontology (evidence_row rt ontology form id c.actor db) db)

  -- What an action is given, or draws: nothing but the count of the identifiers that are drawn changes.
  abbrev pub Drawn : Db H → Db H → Type 0
  Drawn db drawn = (n : ℕ) × (drawn ≡ record db { identity = record db.identity { drawn = n } })

  -- The item was added under an identifier that no item had.
  abbrev pub Registered : ActionContext → EvidenceForm → Db H → Db H → Type 0
  Registered c form db db' =
      (id : String) × (drawn : Db H) × Drawn db drawn
      × (get_evidence id db.evidence ≡ none)
      × Audits rt (registers c form id) (filed c form id drawn) db'

  register_with :
      (c : ActionContext) (form : EvidenceForm) (id : String) (db drawn db' : Db H)
      (row : EvidenceItem)
      → text_or_new_id rt ontology (given form.evidence_id) db ≡ inr (id, drawn)
      → register_evidence rt ontology c form db ≡ inr (row, db')
      → (get_evidence id drawn.evidence ≡ none)
        × Audits rt (registers c form id) (filed c form id drawn) db'
  unfolding register_evidence
  register_with c form id db drawn db' row e h = (
    ground (arith, h, e),
    finish-Audits rt (registers c form id) (filed c form id drawn) db'
        (evidence_row rt ontology form id c.actor drawn) row (ground (arith, h, e)),
  )

  text_or_new_id-Drawn :
      (given_id : Option String) (db : Db H)
      → (id : String) × (drawn : Db H) × (text_or_new_id rt ontology given_id db ≡ inr (id, drawn))
        × Drawn db drawn
  text_or_new_id-Drawn none db =
      (rt.spell (db.identity.ids db.identity.drawn), _, refl, (suc db.identity.drawn, refl))
  text_or_new_id-Drawn (some t) db = (t, db, refl, (db.identity.drawn, refl))

  pub register-Registered :
      (c : ActionContext) (form : EvidenceForm) (db db' : Db H) (row : EvidenceItem)
      → register_evidence rt ontology c form db ≡ inr (row, db')
      → Registered c form db db'
  register-Registered c form db db' row h =
      let (id, drawn, e, (n, same)) = text_or_new_id-Drawn (given form.evidence_id) db in
      let (new, audited) = register_with c form id db drawn db' row e h in
      (id, drawn, (n, same), ap (λ d. get_evidence id d.evidence) (sym same) ∙ new, audited)

  abbrev opens : ActionContext → String → String → String → Entry
  opens c id title code =
      audit_entry rt c "open_case" "case_file" id (some id)
        (("title", str title) ∷ ("handling_code", str code) ∷ [])

  abbrev pub opened : ActionContext → String → String → String → String → Db H → Db H
  opened c id title purpose code db =
      add_case rt ontology (case_row rt ontology id title purpose code c.actor db) db

  -- The case was added under an identifier that no case had.
  abbrev pub Opened : ActionContext → String → String → String → Db H → Db H → Type 0
  Opened c title purpose code db db' =
      (id : String) × (drawn : Db H) × Drawn db drawn
      × (case_exists id db ≡ false)
      × Audits rt (opens c id title code) (opened c id title purpose code drawn) db'

  open_with :
      (c : ActionContext) (title purpose code : String) (case_id : Option String) (id : String)
      (db drawn db' : Db H) (row : CaseFile)
      → text_or_new_id rt ontology (given case_id) db ≡ inr (id, drawn)
      → open_case rt ontology c title purpose code case_id db ≡ inr (row, db')
      → (case_exists id drawn ≡ false)
        × Audits rt (opens c id title code) (opened c id title purpose code drawn) db'
  unfolding open_case
  open_with c title purpose code case_id id db drawn db' row e h = (
    ground (arith, h, e),
    finish-Audits rt (opens c id title code) (opened c id title purpose code drawn) db'
        (case_row rt ontology id title purpose code c.actor drawn) row (ground (arith, h, e)),
  )

  pub open-Opened :
      (c : ActionContext) (title purpose code : String) (case_id : Option String) (db db' : Db H)
      (row : CaseFile)
      → open_case rt ontology c title purpose code case_id db ≡ inr (row, db')
      → Opened c title purpose code db db'
  open-Opened c title purpose code case_id db db' row h =
      let (id, drawn, e, (n, same)) = text_or_new_id-Drawn (given case_id) db in
      let (new, audited) = open_with c title purpose code case_id id db drawn db' row e h in
      (id, drawn, (n, same), ap (case_exists id) (sym same) ∙ new, audited)

  abbrev frees : ActionContext → ℕ → String → SourceRecord → Entry
  frees c record_id note row =
      audit_entry rt c "release_quarantine" "source_record" (rt.spell record_id) none
        (("note", str note) ∷ ("was", optional row.quarantine_reason) ∷ [])

  -- The record was quarantined, and is no longer.
  abbrev pub Released : ActionContext → ℕ → String → Db H → Db H → Type 0
  Released c record_id note db db' =
      (row : SourceRecord) × (get_record record_id db.records ≡ some row)
      × (str_eq row.status "quarantined" ≡ true)
      × Audits rt (frees c record_id note row) (release rt ontology row db) db'

  pub release-Released :
      (c : ActionContext) (record_id : ℕ) (note : String) (db db' : Db H) (row : SourceRecord)
      → release_quarantine rt ontology c record_id note db ≡ inr (row, db')
      → Released c record_id note db db'
  unfolding release_quarantine
  release-Released c record_id note db db' row h =
      elim (Option-cases (get_record record_id db.records)) [
        | inl e ↦ ground (arith, h, e)
        | inr (found, e) ↦ (
          found,
          e,
          ground (arith, h, e),
          finish-Audits rt (frees c record_id note found) (release rt ontology found db) db'
              (landed rt ontology found) row (ground (arith, h, e)),
        )
      ]

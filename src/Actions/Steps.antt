-- ===== src/Actions/Steps.antt =====
-- The actions as a relation between databases, and any sequence of them.
-- Only `adjudicate_identity` is not among them: it may leave several audit rows.
use criminal_networks_analys.Common.{ℕ, suc, String, ◌≡◌, refl, ◌∙◌, Option, some, none, inl, inr}
use criminal_networks_analys.Audit.Log.{Entry, allow}
use criminal_networks_analys.Authz.Tuples.{CaseMember}
use criminal_networks_analys.Actions.Ontology.{Ontology}
use criminal_networks_analys.Actions.Store.{
  Db, Runtime, ActionContext, CaseFile, EvidenceItem, CustodyEvent, SourceRecord, Claim,
  ClaimRelation, ReviewQueue,
}
use criminal_networks_analys.Actions.Claims.{ClaimDraft, record_claim}
use criminal_networks_analys.Actions.Relating.{retract_claim, link_claims}
use criminal_networks_analys.Actions.Suggestions.{
  Payload, Drafts, SuggestionForm, submit_suggestion,
}
use criminal_networks_analys.Actions.Review.{review_suggestion}
use criminal_networks_analys.Actions.Effects.Claims.{
  IsQuietly, record-IsQuietly, retract-IsQuietly, link-IsQuietly,
}
use criminal_networks_analys.Actions.Effects.Suggestions.{submit-IsQuietly, review-IsQuietly}
use criminal_networks_analys.Actions.Cases.{open_case, assign_case_member, remove_case_member}
use criminal_networks_analys.Actions.Evidence.{
  EvidenceForm, CustodyForm, register_evidence, add_custody_event, release_quarantine,
}
use criminal_networks_analys.Actions.Effects.{Audits}
use criminal_networks_analys.Actions.Effects.Members.{assign-Assigned, remove-Removed}
use criminal_networks_analys.Actions.Effects.Evidence.{
  Drawn, transfer-Transferred, register-Registered, open-Opened, release-Released,
}
use criminal_networks_analys.Actions.Evidence.{queue_case}

module _ {H : Type 0} (rt : Runtime H) (drafts : Drafts) (ontology : Ontology) where
  -- One action of the context that succeeded.
  pub data Acts (c : ActionContext) (db db' : Db H) : Type 0 where
    opens :
        (title purpose code : String) (case_id : Option String) (row : CaseFile)
        → open_case rt ontology c title purpose code case_id db ≡ inr (row, db')
        → Acts c db db'
    assigns :
        (case_id user_id role : String) (row : CaseMember)
        → assign_case_member rt ontology c case_id user_id role db ≡ inr (row, db')
        → Acts c db db'
    removes :
        (case_id user_id : String) (row : CaseMember)
        → remove_case_member rt ontology c case_id user_id db ≡ inr (row, db')
        → Acts c db db'
    registers :
        (form : EvidenceForm) (row : EvidenceItem)
        → register_evidence rt ontology c form db ≡ inr (row, db')
        → Acts c db db'
    transfers :
        (form : CustodyForm) (row : CustodyEvent)
        → add_custody_event rt ontology c form db ≡ inr (row, db')
        → Acts c db db'
    releases :
        (record_id : ℕ) (note : String) (row : SourceRecord)
        → release_quarantine rt ontology c record_id note db ≡ inr (row, db')
        → Acts c db db'
    records :
        (d : ClaimDraft) (row : Claim)
        → record_claim rt ontology c d db ≡ inr (row, db')
        → Acts c db db'
    retracts :
        (claim_id : ℕ) (reason : String) (row : Claim)
        → retract_claim rt ontology c claim_id reason db ≡ inr (row, db')
        → Acts c db db'
    links :
        (from_claim to_claim : ℕ) (relation : String) (row : ClaimRelation)
        → link_claims rt ontology c from_claim to_claim relation db ≡ inr (row, db')
        → Acts c db db'
    submits :
        (form : SuggestionForm) (row : ReviewQueue)
        → submit_suggestion rt drafts ontology c form db ≡ inr (row, db')
        → Acts c db db'
    reviews :
        (suggestion_id : ℕ) (decision : String) (note : Option String) (edits : Payload)
        (row : ReviewQueue)
        → review_suggestion rt drafts ontology c suggestion_id decision note edits db
          ≡ inr (row, db')
        → Acts c db db'

  -- What any number of actions, of any actors, lead to.
  pub data Reach (db : Db H) : Db H → Type 0 where
    here : Reach db db
    next : {d e : Db H} (c : ActionContext) → Reach db d → Acts c d e → Reach db e

  unfoldable pub count : {db db' : Db H} → Reach db db' → ℕ
  count here = 0
  count (next c r a) = suc (count r)

  -- An action ends with one audit row, whose entry names its actor; nothing before touched the log.
  abbrev pub IsLogged : ActionContext → Db H → Db H → Type 0
  IsLogged c db db' =
      (e : Entry) × (before : Db H) × Audits rt e before db'
      × (before.audit ≡ db.audit)
      × (e.actor ≡ c.actor)
      × (e.decision ≡ allow)

  quietly-IsLogged : (c : ActionContext) (db db' : Db H) → IsQuietly rt c db db' → IsLogged c db db'
  quietly-IsLogged c db db' (e, before, audited, quiet_so, actor, allowed) =
      (e, before, audited, (λ i. (quiet_so i).audit), actor, allowed)

  Drawn-audit : (db drawn : Db H) → Drawn rt ontology db drawn → drawn.audit ≡ db.audit
  Drawn-audit db drawn (n, e) = λ i. (e i).audit

  queue_case-audit :
      (id : String) (case_id : Option String) (db : Db H)
      → (queue_case rt ontology id case_id db).audit ≡ db.audit
  queue_case-audit id none db = refl
  queue_case-audit id (some case_id) db = refl

  pub Acts-IsLogged : (c : ActionContext) (db db' : Db H) → Acts c db db' → IsLogged c db db'
  Acts-IsLogged c db db' (opens title purpose code case_id row h) =
      let (id, drawn, draws, new, audited) =
        open-Opened rt ontology c title purpose code case_id db db' row h in
      (_, _, audited, Drawn-audit db drawn draws, refl, refl)
  Acts-IsLogged c db db' (assigns case_id user_id role row h) =
      elim (assign-Assigned rt ontology c case_id user_id role db db' row h).2 [
        | inl (new, audited) ↦ (_, _, audited, refl, refl, refl)
        | inr (old, r, there, other, rel, audited) ↦ (_, _, audited, refl, refl, refl)
      ]
  Acts-IsLogged c db db' (removes case_id user_id row h) =
      let (old, r, there, rel, audited) =
        remove-Removed rt ontology c case_id user_id db db' row h in
      (_, _, audited, refl, refl, refl)
  Acts-IsLogged c db db' (registers form row h) =
      let (id, drawn, draws, new, audited) = register-Registered rt ontology c form db db' row h in
      (_, _, audited, queue_case-audit id form.case_id _ ∙ Drawn-audit db drawn draws, refl, refl)
  Acts-IsLogged c db db' (transfers form row h) =
      elim (transfer-Transferred rt ontology c form db db' row h).2 [
        | inl (new, audited) ↦ (_, _, audited, refl, refl, refl)
        | inr (previous, there, later, other, audited) ↦ (_, _, audited, refl, refl, refl)
      ]
  Acts-IsLogged c db db' (releases record_id note row h) =
      let (found, there, held, audited) =
        release-Released rt ontology c record_id note db db' row h in
      (_, _, audited, refl, refl, refl)
  Acts-IsLogged c db db' (records d row h) =
      quietly-IsLogged c db db' (record-IsQuietly rt ontology c d db db' row h)
  Acts-IsLogged c db db' (retracts claim_id reason row h) =
      quietly-IsLogged c db db' (retract-IsQuietly rt ontology c claim_id reason db db' row h)
  Acts-IsLogged c db db' (links a b relation row h) =
      quietly-IsLogged c db db' (link-IsQuietly rt ontology c a b relation db db' row h)
  Acts-IsLogged c db db' (submits form row h) =
      quietly-IsLogged c db db' (submit-IsQuietly rt drafts ontology c form db db' row h)
  Acts-IsLogged c db db' (reviews id decision note edits row h) =
      quietly-IsLogged c db db'
        (review-IsQuietly rt drafts ontology c id decision note edits db db' row h)

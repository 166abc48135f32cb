-- ===== src/Actions/Access/Granted.antt =====
-- The tables and the store after any sequence of actions.
use criminal_networks_analys.Common.{◌≡◌, sym, subst, ap, ◌∙◌, none, inl, inr}
use criminal_networks_analys.Audit.Log.{Entry}
use criminal_networks_analys.Authz.Outbox.{Server}
use criminal_networks_analys.Authz.Rebuilt.{IsStore}
use criminal_networks_analys.Actions.Ontology.{Ontology}
use criminal_networks_analys.Actions.Store.{Db, Runtime, ActionContext}
use criminal_networks_analys.Actions.Suggestions.{Drafts}
use criminal_networks_analys.Actions.Steps.{
  Acts, Reach, here, next, opens, assigns, removes, registers, transfers, releases, records,
  retracts, links, submits, reviews,
}
use criminal_networks_analys.Actions.Effects.Claims.{
  IsQuietly, record-IsQuietly, retract-IsQuietly, link-IsQuietly,
}
use criminal_networks_analys.Actions.Effects.Suggestions.{submit-IsQuietly, review-IsQuietly}
use criminal_networks_analys.Actions.Effects.{Audits}
use criminal_networks_analys.Actions.Effects.Members.{
  assign-Assigned, remove-Removed, joined, moved, removed,
}
use criminal_networks_analys.Actions.Effects.Evidence.{
  Drawn, transfer-Transferred, register-Registered, open-Opened, release-Released, filed, handed,
  released, opened, next_row,
}
use criminal_networks_analys.Actions.Access.Granting.{
  IsGranted, joined-IsGranted, moved-IsGranted, removed-IsGranted,
}
use criminal_networks_analys.Actions.Access.Handing.{
  filed-IsGranted, first-IsGranted, next-IsGranted,
}
use criminal_networks_analys.Actions.Evidence.{custody_row, release, get_evidence}

module _ {H : Type 0} (rt : Runtime H) (drafts : Drafts) (ontology : Ontology) where
  Drawn-IsGranted :
      {F : Type 0} (server : Server F) (f : F) (db drawn : Db H)
      → Drawn rt ontology db drawn
      → IsGranted server f db
      → IsGranted server f drawn
  Drawn-IsGranted server f db drawn (n, e) granted =
      subst (IsGranted server f) (sym e) (record { keyed = granted.keyed; leads = granted.leads })

  Drawn-evidence : (db drawn : Db H) → Drawn rt ontology db drawn → drawn.evidence ≡ db.evidence
  Drawn-evidence db drawn (n, e) = λ i. (e i).evidence

  Audits-IsGranted :
      {F : Type 0} (server : Server F) (f : F) (e : Entry) (before db : Db H)
      → Audits rt e before db
      → IsGranted server f before
      → IsGranted server f db
  Audits-IsGranted server f e before db (r, appended, same) granted =
      subst (IsGranted server f) (sym same)
        (record { keyed = granted.keyed; leads = granted.leads })

  quietly-IsGranted :
      {F : Type 0} (server : Server F) (f : F) (c : ActionContext) (db db' : Db H)
      → IsQuietly rt c db db'
      → IsGranted server f db
      → IsGranted server f db'
  quietly-IsGranted server f c db db' (e, before, audited, quiet_so, actor, allowed) granted =
      Audits-IsGranted server f e before db' audited (
        subst (IsGranted server f) (sym quiet_so)
          (record { keyed = granted.keyed; leads = granted.leads }))

  pub Acts-IsGranted :
      {F : Type 0} (server : Server F) (f : F) (c : ActionContext) (db db' : Db H)
      → IsStore server
      → Acts rt drafts ontology c db db'
      → IsGranted server f db
      → IsGranted server f db'
  Acts-IsGranted server f c db db' store (opens title purpose code case_id row h) granted =
      let (id, drawn, draws, new, audited) =
        open-Opened rt ontology c title purpose code case_id db db' row h in
      let before = Drawn-IsGranted server f db drawn draws granted in
      Audits-IsGranted server f _ (opened rt ontology c id title purpose code drawn) db' audited
        (record { keyed = before.keyed; leads = before.leads })
  Acts-IsGranted server f c db db' store (assigns case_id user_id role row h) granted =
      let (s, e, did) = assign-Assigned rt ontology c case_id user_id role db db' row h in
      elim did [
        | inl (new, audited) ↦
            Audits-IsGranted server f _ (joined rt ontology case_id user_id role s db) db' audited
              (joined-IsGranted rt ontology server f case_id user_id role s db store e new granted)
        | inr (old, r, there, other, rel, audited) ↦
            Audits-IsGranted server f _ (moved rt ontology case_id user_id role r s db) db' audited
              (moved-IsGranted rt ontology server f case_id user_id role old r s db store e rel
                other there granted)
      ]
  Acts-IsGranted server f c db db' store (removes case_id user_id row h) granted =
      let (old, r, there, rel, audited) =
        remove-Removed rt ontology c case_id user_id db db' row h in
      Audits-IsGranted server f _ (removed rt ontology case_id user_id r db) db' audited
        (removed-IsGranted rt ontology server f case_id user_id old r db store rel there granted)
  Acts-IsGranted server f c db db' store (registers form row h) granted =
      let (id, drawn, draws, new, audited) = register-Registered rt ontology c form db db' row h in
      Audits-IsGranted server f _ (filed rt ontology c form id drawn) db' audited (
        filed-IsGranted rt ontology server f c form id drawn store
          (ap (get_evidence id) (Drawn-evidence db drawn draws) ∙ new)
          (Drawn-IsGranted server f db drawn draws granted))
  Acts-IsGranted server f c db db' store (transfers form row h) granted =
      let (item, found, did) = transfer-Transferred rt ontology c form db db' row h in
      elim did [
        | inl (new, audited) ↦
            Audits-IsGranted server f _ (handed rt ontology form (custody_row form 1 none) db) db'
              audited (first-IsGranted rt ontology server f form db store new granted)
        | inr (previous, there, later, other, audited) ↦
            Audits-IsGranted server f _
              (handed rt ontology form (next_row rt ontology form previous)
                (released rt ontology form previous db))
              db' audited
              (next-IsGranted rt ontology server f form previous db store there other granted)
      ]
  Acts-IsGranted server f c db db' store (releases record_id note row h) granted =
      let (found, there, held, audited) =
        release-Released rt ontology c record_id note db db' row h in
      Audits-IsGranted server f _ (release rt ontology found db) db' audited
        (record { keyed = granted.keyed; leads = granted.leads })
  Acts-IsGranted server f c db db' store (records d row h) granted =
      quietly-IsGranted server f c db db' (record-IsQuietly rt ontology c d db db' row h) granted
  Acts-IsGranted server f c db db' store (retracts claim_id reason row h) granted =
      quietly-IsGranted server f c db db'
        (retract-IsQuietly rt ontology c claim_id reason db db' row h) granted
  Acts-IsGranted server f c db db' store (links a b relation row h) granted =
      quietly-IsGranted server f c db db' (link-IsQuietly rt ontology c a b relation db db' row h)
        granted
  Acts-IsGranted server f c db db' store (submits form row h) granted =
      quietly-IsGranted server f c db db' (submit-IsQuietly rt drafts ontology c form db db' row h)
        granted
  Acts-IsGranted server f c db db' store (reviews id decision note edits row h) granted =
      quietly-IsGranted server f c db db'
        (review-IsQuietly rt drafts ontology c id decision note edits db db' row h) granted

  pub Reach-IsGranted :
      {F : Type 0} (server : Server F) (f : F) (db db' : Db H)
      → IsStore server
      → Reach rt drafts ontology db db'
      → IsGranted server f db
      → IsGranted server f db'
  Reach-IsGranted server f db _ store here granted = granted
  Reach-IsGranted server f db _ store (next {d} {e} c r a) granted =
      Acts-IsGranted server f c d e store a (Reach-IsGranted server f db d store r granted)

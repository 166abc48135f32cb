-- ===== src/Actions/Effects.antt =====
-- What an action has done when it succeeded: what held of its arguments, and what it wrote.
pub mod Members
pub mod Evidence
pub mod Claims
pub mod Suggestions
use text.Mathlib.Text.{◌==◌ as str_eq}
use criminal_networks_analys.Common.{
  ℕ, suc, String, ◌≡◌, refl, ap, sym, ◌∙◌, subst, Bool, true, false, ◌&&◌, ◌||◌, not, Option, none,
  some, List, [], ◌∷◌, ◌++◌, arith, inl, inr, ◌⊎◌, Option-cases, is_none, ◌<◌,
}
use criminal_networks_analys.Audit.Log.{append, Entry, AuditLog, Log, AuditError, is_blank}
use criminal_networks_analys.Authz.Tuples.{CaseMember}
use criminal_networks_analys.Authz.Outbox.{write, delete}
use criminal_networks_analys.Actions.Ontology.{Ontology, find, contains, action}
use criminal_networks_analys.Actions.Store.{
  Db, Runtime, ActionContext, Value, str, int, CaseFile, EvidenceItem, CustodyEvent, SourceRecord,
}
use criminal_networks_analys.Actions.Monad.{
  Act, ActionError, continue, pure, audit_result, queue, ◌>>◌, ◌>>=◌,
}
use criminal_networks_analys.Actions.Gate.{audit, audit_entry, check_action}
use criminal_networks_analys.Actions.Cases.{
  open_case, assign_case_member, remove_case_member, member_relation, member_role, member_tuple,
  member_row, member_id, optional, change_role, add_member, delete_member,
}

module _ {H : Type 0} (rt : Runtime H) where
  -- The audit row of the entry was appended to the log, and nothing else was written after `before`.
  abbrev pub Audits : Entry → Db H → Db H → Type 0
  Audits e before db =
      (r : AuditLog H) × (append rt.digest rt.genesis e before.audit ≡ inr (r, db.audit))
      × (db ≡ record before { audit = db.audit })

  result-Audits :
      {A : Type 0} (x : AuditError ⊎ (AuditLog H × Log H)) (before db : Db H) (a b : A)
      → continue (audit_result before x) (λ _. pure a) ≡ inr (b, db)
      → (r : AuditLog H) × (x ≡ inr (r, db.audit)) × (db ≡ record before { audit = db.audit })
  result-Audits (inl e) before db a b h = ground (arith, h)
  result-Audits (inr (r, log)) before db a b h = (r, ground (arith, h), ground (arith, h))

  -- An action ends with its audit row.
  pub finish-Audits :
      {A : Type 0} (e : Entry) (before db : Db H) (a b : A)
      → continue (audit_result before (append rt.digest rt.genesis e before.audit)) (λ _. pure a)
        ≡ inr (b, db)
      → Audits e before db
  finish-Audits e before db a b h =
      result-Audits (append rt.digest rt.genesis e before.audit) before db a b h

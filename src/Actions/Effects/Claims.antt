-- ===== src/Actions/Effects/Claims.antt =====
-- The actions on claims and suggestions when they succeed: they write no table of access.
use criminal_networks_analys.Common.{
  ℕ, String, ◌≡◌, refl, ap, sym, ◌∙◌, [], ◌∷◌, arith, inl, inr, Option-cases, Sum-cases,
}
use criminal_networks_analys.Audit.Log.{Entry, allow}
use criminal_networks_analys.Actions.Ontology.{Ontology}
use criminal_networks_analys.Actions.Store.{Db, Runtime, ActionContext, str, Claim, ClaimRelation}
use criminal_networks_analys.Actions.Gate.{audit_entry}
use criminal_networks_analys.Actions.Claims.{ClaimDraft, create_claim, record_claim, optional_id}
use criminal_networks_analys.Actions.Lawful.{create_claim-IsLawful}
use criminal_networks_analys.Actions.Relating.{
  retract_claim, link_claims, retract, retracted, get_claim, relation_row, add_relation,
  either_case, relation_id,
}
use criminal_networks_analys.Actions.Cases.{given}
use criminal_networks_analys.Actions.Effects.{Audits, finish-Audits}

module _ {H : Type 0} (rt : Runtime H) where
  -- `db` with the tables of `u` that say nothing of access: of identity, of claims and of suggestions.
  abbrev pub quiet : Db H → Db H → Db H
  quiet u db = record db {
    identity = u.identity;
    claims = u.claims;
    relations = u.relations;
    suggestions = u.suggestions;
  }

  -- One audit row of the actor was written, after changes to such tables only.
  abbrev pub IsQuietly : ActionContext → Db H → Db H → Type 0
  IsQuietly c db db' =
      (e : Entry) × (before : Db H) × Audits rt e before db'
      × (before ≡ quiet before db)
      × (e.actor ≡ c.actor)
      × (e.decision ≡ allow)

  module _ (ontology : Ontology) where
    abbrev records : ActionContext → Claim → Entry
    records c row = audit_entry rt c "record_claim" "claim" (rt.spell row.claim_id) row.case_id (
        ("subject_id", str (rt.spell row.subject_id))
        ∷ ("predicate", str row.predicate)
        ∷ ("object_id", optional_id rt row.object_id)
        ∷ ("ontology_version", str row.ontology_version)
        ∷ [])

    pub record-IsQuietly :
        (c : ActionContext) (d : ClaimDraft) (db db' : Db H) (row : Claim)
        → record_claim rt ontology c d db ≡ inr (row, db')
        → IsQuietly c db db'
    unfolding record_claim
    record-IsQuietly c d db db' row h = elim (Sum-cases (create_claim ontology d db)) [
      | inl (x, bad) ↦ ground (arith, h, bad)
      | inr ((claim, u), good) ↦
          let (whole, lawful) = create_claim-IsLawful ontology d db u claim good in
          (
            records c claim,
            u,
            finish-Audits rt (records c claim) u db' claim row (ground (arith, h, good)),
            whole ∙ sym (ap (λ x. quiet x db) whole),
            refl,
            refl,
          )
    ]

    abbrev retracts : ActionContext → ℕ → String → Claim → Entry
    retracts c id reason row =
        audit_entry rt c "retract_claim" "claim" (rt.spell id) row.case_id
          (("reason", str reason) ∷ [])

    pub retract-IsQuietly :
        (c : ActionContext) (id : ℕ) (reason : String) (db db' : Db H) (row : Claim)
        → retract_claim rt ontology c id reason db ≡ inr (row, db')
        → IsQuietly c db db'
    unfolding retract_claim
    retract-IsQuietly c id reason db db' row h = elim (Option-cases (get_claim id db.claims)) [
      | inl gone ↦ ground (arith, h, gone)
      | inr (found, e) ↦ (
        retracts c id reason found,
        retract id reason db,
        finish-Audits rt (retracts c id reason found) (retract id reason db) db'
            (retracted db.identity.now reason found) row (ground (arith, h, e)),
        refl,
        refl,
        refl,
      )
    ]

    abbrev links : ActionContext → ℕ → ℕ → String → Claim → Claim → Entry
    links c a b relation left right =
        audit_entry rt c "link_claims" "claim_relation" (relation_id rt ontology a relation b)
          (either_case (given left.case_id) right.case_id)
          (("from_claim", str (rt.spell a))
            ∷ ("to_claim", str (rt.spell b))
            ∷ ("relation", str relation)
            ∷ [])

    pub link-IsQuietly :
        (c : ActionContext) (a b : ℕ) (relation : String) (db db' : Db H) (row : ClaimRelation)
        → link_claims rt ontology c a b relation db ≡ inr (row, db')
        → IsQuietly c db db'
    unfolding link_claims
    link-IsQuietly c a b relation db db' row h = elim (Option-cases (get_claim a db.claims)) [
      | inl gone ↦ ground (arith, h, gone)
      | inr (left, e) ↦ elim (Option-cases (get_claim b db.claims)) [
        | inl gone ↦ ground (arith, h, e, gone)
        | inr (right, f) ↦
            let added = relation_row a b relation c.actor db in
            (
              links c a b relation left right,
              add_relation added db,
              finish-Audits rt (links c a b relation left right) (add_relation added db) db' added
                  row (ground (arith, h, e, f)),
              refl,
              refl,
              refl,
            )
      ]
    ]

-- ===== src/Actions/Related.antt =====
-- `retract_claim`, `link_claims` and the acceptance of a relation: what is refused, and what is not.
use criminal_networks_analys.Common.{
  ℕ, String, ◌≡◌, refl, ap, ◌∙◌, true, false, none, some, List, [], ◌∷◌, arith, inl, inr,
  Option-cases, ◌==◌, if◌then◌else◌, ==_refl,
}
use criminal_networks_analys.Audit.Log.{is_blank}
use criminal_networks_analys.Actions.Ontology.{Ontology, contains}
use criminal_networks_analys.Actions.Store.{
  Db, Runtime, ActionContext, int, str, Claim, ReviewQueue,
}
use criminal_networks_analys.Actions.Monad.{validation}
use criminal_networks_analys.Actions.Gate.{require_action}
use criminal_networks_analys.Actions.Relating.{
  retract_claim, link_claims, get_claim, retract_row, retracted, retract, claim_relations,
  relation_exists, relation_row, add_relation,
}
use criminal_networks_analys.Actions.Claims.{claim_exists}
use criminal_networks_analys.Actions.Suggestions.{Drafts, Payload}
use criminal_networks_analys.Actions.Review.{accept_relation}

get_claim-retract_row :
    (id j now : ℕ) (reason : String) (cs : List Claim) (c : Claim)
    → get_claim j cs ≡ some c
    → get_claim j (retract_row id now reason cs)
      ≡ some (if id == j then retracted now reason c else c)
get_claim-retract_row id j now reason [] c h = ground (arith, h)
get_claim-retract_row id j now reason (d ∷ cs) c h =
    ground (arith, h, get_claim-retract_row id j now reason cs c)

get_claim-other :
    (id j now : ℕ) (reason : String) (cs : List Claim)
    → (id == j) ≡ false
    → get_claim j (retract_row id now reason cs) ≡ get_claim j cs
get_claim-other id j now reason [] h = refl
get_claim-other id j now reason (d ∷ cs) h = ground (arith, h, get_claim-other id j now reason cs h)

module _ {H : Type 0} (rt : Runtime H) (ontology : Ontology) where
  -- What a retraction did.
  abbrev IsRetracted : ActionContext → ℕ → String → Claim → Db H → Db H → Type 0
  IsRetracted c id reason row db db' =
      (found : Claim) × (get_claim id db.claims ≡ some found)
      × (row ≡ retracted db.identity.now reason found)
      × (db' ≡ record (retract id reason db) { audit = db'.audit })

  retract_claim-IsRetracted :
      (c : ActionContext) (id : ℕ) (reason : String) (db db' : Db H) (row : Claim)
      → retract_claim rt ontology c id reason db ≡ inr (row, db')
      → IsRetracted c id reason row db db'
  unfolding retract_claim
  retract_claim-IsRetracted c id reason db db' row h =
      elim (Option-cases (get_claim id db.claims)) [
        | inl gone ↦ ground (arith, h, gone)
        | inr (found, e) ↦ (found, e, ground (arith, h, e), ground (arith, h, e))
      ]

  -- A retraction marks its claim with the time and the reason and leaves every other claim as it was; and
  -- the claim cannot be retracted again, by anyone or for any reason.
  pub retract_claim-once :
      (c d : ActionContext) (id : ℕ) (reason reason' : String) (db db' : Db H) (row : Claim)
      → retract_claim rt ontology c id reason db ≡ inr (row, db')
      → is_blank reason' ≡ false
      → (get_claim id db'.claims ≡ some row)
        × (row.retracted_at ≡ some db.identity.now)
        × (row.retraction_reason ≡ some reason)
        × ((j : ℕ) → (id == j) ≡ false → get_claim j db'.claims ≡ get_claim j db.claims)
        × (retract_claim rt ontology d id reason' db' ≡ inl (validation "claim.retracted_at"))
  unfolding retract_claim
  retract_claim-once c d id reason reason' db db' row h given =
      let (found, e, is, whole) = retract_claim-IsRetracted c id reason db db' row h in
      let there : get_claim id db'.claims ≡ some row =
        (λ i. get_claim id (whole i).claims)
        ∙ ground
            (arith, is, get_claim-retract_row id id db.identity.now reason db.claims found e) in
      let when = ap (λ x. x.retracted_at) is in
      (
        there,
        when,
        ap (λ x. x.retraction_reason) is,
        λ j other.
            (λ i. get_claim j (whole i).claims)
            ∙ get_claim-other id j db.identity.now reason db.claims other,
        ground (arith, h, there, when, given),
      )

  module _ (drafts : Drafts) where
    abbrev pub relation_draft : ℕ → ℕ → String → Payload
    relation_draft a b relation =
        ("from_claim", int a) ∷ ("to_claim", int b) ∷ ("relation", str relation) ∷ []

    abbrev pub with_relation : ReviewQueue → ℕ → ℕ → String → ReviewQueue
    with_relation row a b relation = record row {
      result_relation = some (relation_draft a b relation);
    }

    -- The two ways to relate claims disagree on a claim with itself: where `link_claims` passes its gate it
    -- refuses the relation, while the acceptance of a suggestion writes it.
    pub accept_relation_self :
        (c : ActionContext) (row : ReviewQueue) (a : ℕ) (relation : String) (db : Db H)
        → require_action ontology "link_claims" none [] db ≡ inr (tt, db)
        → contains relation claim_relations ≡ true
        → claim_exists a db ≡ true
        → relation_exists a a relation db ≡ false
        → (link_claims rt ontology c a a relation db ≡ inl (validation "claim_relation.to_claim"))
          × (accept_relation rt drafts ontology c row (relation_draft a a relation) db
              ≡ inr (
                (none, with_relation row a a relation),
                add_relation (relation_row a a relation c.actor db) db,
              ))
    unfolding link_claims accept_relation
    accept_relation_self c row a relation db gate known_relation there free = (
      ground (arith, gate, known_relation, ==_refl a),
      ground (arith, known_relation, there, free),
    )

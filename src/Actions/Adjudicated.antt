-- ===== src/Actions/Adjudicated.antt =====
-- `adjudicate_identity` against the identity ledger: what it lets through, and which errors stay as they are.
use criminal_networks_analys.Common.{
  ℕ, String, ◌≡◌, ap, sym, subst, ◌∙◌, Bool, true, false, Option, none, some, List, [], ◌∷◌, arith,
  inl, inr, Sum-cases, Option-cases,
}
use criminal_networks_analys.Audit.Log.{is_blank}
use criminal_networks_analys.Identity.Store.{Session, IdentityDecision}
use criminal_networks_analys.Identity.Monad.{Result-cases, ok, err, stale}
use criminal_networks_analys.Identity.Adjudication.{AdjudicationResult}
use criminal_networks_analys.Identity.Steps as Steps
use criminal_networks_analys.Identity.Steps.{Adjudicates}
use criminal_networks_analys.Actions.Ontology.{Ontology, ActionSpec, action}
use criminal_networks_analys.Actions.Store.{Db, Runtime, ActionContext, Claim}
use criminal_networks_analys.Actions.Monad.{identity_error}
use criminal_networks_analys.Actions.Gate.{require_action}
use criminal_networks_analys.Actions.Gated.{satisfies, require_action-exact}
use criminal_networks_analys.Actions.Suggestions.{Drafts, submit_suggestion}
use criminal_networks_analys.Actions.Relating.{get_claim}
use criminal_networks_analys.Actions.Effects.Suggestions.{submit-identity}
use criminal_networks_analys.Actions.Adjudicate.{
  Mode, confirms, rejects, splits, leaves, handler, queue_each, queue_reattribution, queue_found,
  queue_claim, repointed, reattribution, reattribution_form, protection, adjudicate_identity,
}

handler-Adjudicates :
    (mode : Mode) (actor note : String) (parent : ℕ) (s t : Session) (r : AdjudicationResult)
    → handler mode actor note parent s ≡ ok (r, t)
    → Adjudicates s t
unfolding handler
handler-Adjudicates (confirms a b candidate) actor note parent s t r h =
    Steps.confirms actor note parent a b candidate r h
handler-Adjudicates (rejects a b basis candidate) actor note parent s t r h =
    Steps.rejects actor note parent a b basis candidate r h
handler-Adjudicates (splits entity mentions target) actor note parent s t r h =
    Steps.splits actor note parent entity mentions target r h
handler-Adjudicates (leaves a b candidate) actor note parent s t r h =
    Steps.leaves actor note parent a b candidate r h

module _ {H : Type 0} (rt : Runtime H) (drafts : Drafts) (ontology : Ontology) where
  abbrev pub Gate : ActionContext → Bool → Db H → Type 0
  Gate c protected db =
      require_action ontology "adjudicate_identity" (some c)
        (protection rt drafts ontology protected) db
      ≡ inr (tt, db)

  pub Gate-passed :
      (c : ActionContext) (mode : Mode) (parent : ℕ) (note : String) (protected : Bool)
      (db db' : Db H) (r : AdjudicationResult)
      → adjudicate_identity rt drafts ontology c mode parent note protected db ≡ inr (r, db')
      → Gate c protected db
  unfolding adjudicate_identity
  Gate-passed c mode parent note protected db db' r h =
      elim (Option-cases (action ontology "adjudicate_identity")) [
        | inl e ↦ ground (arith, h, e)
        | inr (spec, e) ↦ ground (arith, h, e)
      ]

  submitted-identity :
      (c : ActionContext) (result : AdjudicationResult) (new : ℕ) (claim : Claim) (db db' : Db H)
      → queue_claim rt drafts ontology c result new claim db ≡ inr (tt, db')
      → db'.identity ≡ record db.identity { drawn = db'.identity.drawn }
  unfolding queue_claim
  submitted-identity c result new claim db db' h =
      let sides = repointed db.identity result.surviving_entity_id new claim in
      let form =
        reattribution_form rt drafts ontology result new claim
          (reattribution rt drafts ontology claim sides) in
      elim (Sum-cases (submit_suggestion rt drafts ontology c form db)) [
        | inl (x, bad) ↦ ground (arith, h, bad)
        | inr ((row, u), good) ↦
            let e : u ≡ db' = ground (arith, h, good) in
            subst (λ x. x.identity ≡ record db.identity { drawn = x.identity.drawn }) e
              (submit-identity rt drafts ontology c form db u row good)
      ]

  found-identity :
      (c : ActionContext) (result : AdjudicationResult) (new : Option ℕ) (claim : Option Claim)
      (db db' : Db H)
      → queue_found rt drafts ontology c result new claim db ≡ inr (tt, db')
      → db'.identity ≡ record db.identity { drawn = db'.identity.drawn }
  found-identity c result new none db db' h = ground (arith, h)
  found-identity c result none (some claim) db db' h = ground (arith, h)
  found-identity c result (some new) (some claim) db db' h =
      submitted-identity c result new claim db db' h

  -- The suggestions after a split draw identifiers, and leave the ledger as the decision left it.
  queue_each-identity :
      (c : ActionContext) (result : AdjudicationResult) (ids : List ℕ) (db db' : Db H)
      → queue_each rt drafts ontology c result ids db ≡ inr (tt, db')
      → db'.identity ≡ record db.identity { drawn = db'.identity.drawn }
  unfolding queue_each queue_reattribution
  queue_each-identity c result [] db db' h = ground (arith, h)
  queue_each-identity c result (id ∷ ids) db db' h =
      elim (Sum-cases (queue_reattribution rt drafts ontology c result id db)) [
        | inl (x, bad) ↦ ground (arith, h, bad)
        | inr ((o, u), good) ↦
            let first =
              found-identity c result result.new_entity_id (get_claim id db.claims) db u good in
            queue_each-identity c result ids u db' (ground (arith, h, good))
            ∙ ap {A = Session} (λ s. record s { drawn = db'.identity.drawn }) first
      ]

  -- An adjudication that the service performs was allowed by the gate, under dual control where the person
  -- is protected, had a note that is not blank, and was one adjudication of the identity ledger in the
  -- name of the actor. What the ledger made of the session is what the database has, but for the
  -- identifiers that were drawn after it.
  pub adjudicate_identity-decides :
      (c : ActionContext) (mode : Mode) (parent : ℕ) (note : String) (protected : Bool)
      (db db' : Db H) (r : AdjudicationResult)
      → adjudicate_identity rt drafts ontology c mode parent note protected db ≡ inr (r, db')
      → ((spec : ActionSpec) × (action ontology "adjudicate_identity" ≡ some spec)
          × (satisfies spec c (protection rt drafts ontology protected) ≡ true))
        × (is_blank note ≡ false)
        × ((t : Session) × (handler mode c.actor note parent db.identity ≡ ok (r, t))
            × Adjudicates db.identity t
            × (db'.identity ≡ record t { drawn = db'.identity.drawn }))
  unfolding adjudicate_identity
  adjudicate_identity-decides c mode parent note protected db db' r h =
      let passed = Gate-passed c mode parent note protected db db' r h in
      elim (Result-cases (handler mode c.actor note parent db.identity)) [
        | inl ((found, t), e) ↦
            elim (Sum-cases (
              queue_each rt drafts ontology c found found.unattributable_claims
                (record db { identity = t }))) [
                  | inl (x, bad) ↦ ground (arith, h, passed, e, bad)
                  | inr ((o, u), good) ↦
                      let is : found ≡ r = ground (arith, h, passed, e, good) in
                      let ends : db'.identity ≡ u.identity = ground (arith, h, passed, e, good) in
                      (
                        (require_action-exact ontology "adjudicate_identity" c
                              (protection rt drafts ontology protected) db).0
                            passed,
                        ground (arith, h, passed),
                        (
                          t,
                          e ∙ ap (λ x. ok (x, t)) is,
                          handler-Adjudicates mode c.actor note parent db.identity t found e,
                          ends
                              ∙ queue_each-identity c found found.unattributable_claims
                                  (record db { identity = t }) u good
                              ∙ sym (ap (λ s. record t { drawn = s.drawn }) ends),
                        ),
                      )
                ]
        | inr (x, e) ↦ ground (arith, h, passed, e)
      ]

  -- A stale revision is not made a validation error: where the gate passes, it comes back with the
  -- decisions that intervened.
  pub adjudicate_identity-stale :
      (c : ActionContext) (mode : Mode) (parent : ℕ) (note : String) (protected : Bool) (db : Db H)
      (n : ℕ) (intervening : List IdentityDecision)
      → require_action ontology "adjudicate_identity"
          (some c)
          (protection rt drafts ontology protected)
          db
        ≡ inr (tt, db)
      → is_blank note ≡ false
      → handler mode c.actor note parent db.identity ≡ err (stale n intervening)
      → adjudicate_identity rt drafts ontology c mode parent note protected db
        ≡ inl (identity_error (stale n intervening))
  unfolding adjudicate_identity
  adjudicate_identity-stale c mode parent note protected db n intervening passed written e =
      ground (arith, passed, written, e)

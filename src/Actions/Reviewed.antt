-- ===== src/Actions/Reviewed.antt =====
-- What a review does to its suggestion, and that it is the last one.
use text.Mathlib.Text.{◌==◌ as str_eq}
use criminal_networks_analys.Common.{
  String, ◌≡◌, refl, ap, sym, ◌∙◌, subst, true, false, Option, none, some, [], ◌∷◌, ◌++◌, arith,
  inl, inr, Option-cases, Bool-cases, Sum-cases,
}
use criminal_networks_analys.Actions.Ontology.{
  Ontology, Dimension, find, credibility, verification, analytic_confidence,
}
use criminal_networks_analys.Actions.Store.{Db, Runtime, ActionContext, Value, ReviewQueue, Claim}
use criminal_networks_analys.Actions.Monad.{pure, >>=-eq-inr}
use criminal_networks_analys.Actions.Claims.{create_claim}
use criminal_networks_analys.Actions.Sound.{wrote}
use criminal_networks_analys.Actions.Lawful.{IsLawful, IsLawful-same, create_claim-IsLawful}
use criminal_networks_analys.Actions.Suggestions.{
  Payload, Drafts, predicate_field, grade_field, handling_field, validate_payload, merged,
}
use criminal_networks_analys.Actions.Review.{
  accept_claim, accept_relation, dispatch_acceptance, decide, Dispatched, with_payload,
}

module _ {H : Type 0} (ontology : Ontology) where
  predicate_field-same :
      (v : Option Value) (db db' : Db H) → predicate_field ontology v db ≡ inr (tt, db') → db' ≡ db
  predicate_field-same none db db' h = ground (arith, h)
  predicate_field-same (some v) db db' h = ground (arith, h)

  grade_field-same :
      (dimension : Dimension) (path : String) (v : Option Value) (db db' : Db H)
      → grade_field ontology dimension path v db ≡ inr (tt, db')
      → db' ≡ db
  unfolding grade_field
  grade_field-same dimension path none db db' h = ground (arith, h)
  grade_field-same dimension path (some v) db db' h = ground (arith, h)

  handling_field-same :
      (v : Option Value) (db db' : Db H) → handling_field ontology v db ≡ inr (tt, db') → db' ≡ db
  unfolding handling_field
  handling_field-same none db db' h = ground (arith, h)
  handling_field-same (some v) db db' h = ground (arith, h)

  pub validate_payload-same :
      (payload : Payload) (db db' : Db H)
      → validate_payload ontology payload db ≡ inr (tt, db')
      → db' ≡ db
  unfolding validate_payload
  validate_payload-same payload db db' h =
      let (p, a, first, h1) =
        >>=-eq-inr (predicate_field ontology (find "predicate" payload)) _ db h in
      let (q, b, second, h2) =
        >>=-eq-inr
          (grade_field ontology credibility "grading.credibility."
            (find "credibility_normalized" payload))
          _ a h1 in
      let (r, c, third, h3) =
        >>=-eq-inr
          (grade_field ontology verification "grading.verification."
            (find "verification_status" payload))
          _ b h2 in
      let (s, d, fourth, h4) =
        >>=-eq-inr
          (grade_field ontology analytic_confidence "grading.analytic_confidence."
            (find "analytic_confidence" payload))
          _ c h3 in
      handling_field-same (find "handling_code" payload) d db' h4
      ∙ grade_field-same analytic_confidence _ (find "analytic_confidence" payload) c d fourth
      ∙ grade_field-same verification _ (find "verification_status" payload) b c third
      ∙ grade_field-same credibility _ (find "credibility_normalized" payload) a b second
      ∙ predicate_field-same (find "predicate" payload) db a first

module _ {H : Type 0} (rt : Runtime H) (drafts : Drafts) (ontology : Ontology) where
  abbrev pub only_claims : Db H → Db H → Db H
  only_claims u db = record db { identity = u.identity; claims = u.claims; relations = u.relations }

  -- The row is still the same suggestion, and no table changes but those of claims and of identity.
  abbrev IsOwn : ReviewQueue → ReviewQueue → Db H → Db H → Type 0
  IsOwn row settled db u = (settled.suggestion_id ≡ row.suggestion_id) × (u ≡ only_claims u db)

  -- A lawful claim was written, and it is the row's result.
  abbrev pub HasClaim : ReviewQueue → Db H → Db H → Type 0
  HasClaim settled db u =
      (claim : Claim) × IsLawful ontology claim u
      × (settled.result_claim_id ≡ some claim.claim_id)
      × (u.claims ≡ db.claims ++ claim ∷ [])

  accept_claim-HasClaim :
      (row settled : ReviewQueue) (draft : Payload) (case_id : Option String) (db u : Db H)
      → accept_claim rt drafts ontology row draft db ≡ inr ((case_id, settled), u)
      → IsOwn row settled db u × HasClaim settled db u
  unfolding accept_claim
  accept_claim-HasClaim row settled draft case_id db u h =
      let (v, a, first, h1) = >>=-eq-inr (validate_payload ontology draft) _ db h in
      let same = validate_payload-same ontology draft db a first in
      elim (Option-cases (drafts.read draft)) [
        | inl e ↦ ground (arith, h1, e)
        | inr (d, e) ↦
            let (claim, b, made, h2) =
              >>=-eq-inr {B = Dispatched} (create_claim ontology d)
                (λ claim.
                  pure (claim.case_id, record row { result_claim_id = some claim.claim_id }))
                a {b = (case_id, settled)} {d = u} (ground (arith, h1, e)) in
            let (whole, lawful) = create_claim-IsLawful ontology d a b claim made in
            let end : u ≡ b = ground (arith, h2) in
            (
              (
                ground (arith, h2),
                (end ∙ whole ∙ ap (wrote ontology claim b.identity) same)
                    ∙ sym (
                        ap (λ x. only_claims x db)
                          (end ∙ whole ∙ ap (wrote ontology claim b.identity) same)),
              ),
              (
                claim,
                IsLawful-same ontology claim b u (ap (λ x. x.identity.memberships) end) lawful,
                ground (arith, h2),
                ap (λ x. x.claims) (end ∙ whole) ∙ ap (λ x. x.claims ++ claim ∷ []) same,
              ),
            )
      ]

  accept_relation-IsOwn :
      (c : ActionContext) (row settled : ReviewQueue) (draft : Payload) (case_id : Option String)
      (db u : Db H)
      → accept_relation rt drafts ontology c row draft db ≡ inr ((case_id, settled), u)
      → IsOwn row settled db u
  unfolding accept_relation
  accept_relation-IsOwn c row settled draft case_id db u h = (ground (arith, h), ground (arith, h))

  -- What the decision has done to the suggestion, and to the claims.
  abbrev pub Outcome : ReviewQueue → ReviewQueue → String → Db H → Db H → Type 0
  Outcome row settled decision db u =
      IsOwn row settled db u
      × (str_eq decision "accepted" ≡ true
          → str_eq row.suggestion_kind "claim_draft" ≡ true
          → HasClaim settled db u)
      × (str_eq decision "accepted" ≡ false → u ≡ db)

  accepted-Outcome :
      (c : ActionContext) (row settled : ReviewQueue) (draft : Payload) (case_id : Option String)
      (db u : Db H)
      → dispatch_acceptance rt drafts ontology c row draft db ≡ inr ((case_id, settled), u)
      → IsOwn row settled db u
        × (str_eq row.suggestion_kind "claim_draft" ≡ true → HasClaim settled db u)
  unfolding dispatch_acceptance
  accepted-Outcome c row settled draft case_id db u h =
      elim (Bool-cases (str_eq row.suggestion_kind "claim_draft")) [
        | inl kind ↦
            let (own, claim) =
              accept_claim-HasClaim row settled draft case_id db u (ground (arith, h, kind)) in
            (own, λ is. claim)
        | inr other ↦ (
          accept_relation-IsOwn c row settled draft case_id db u (ground (arith, h, other)),
          λ is. ground (arith, is, other),
        )
      ]

  with_payload-keeps :
      (edits draft : Payload) (row : ReviewQueue)
      → ((with_payload edits draft row).suggestion_id ≡ row.suggestion_id)
        × ((with_payload edits draft row).result_claim_id ≡ row.result_claim_id)
  with_payload-keeps [] draft row = (refl, refl)
  with_payload-keeps (e ∷ edits) draft row = (refl, refl)

  pub decide-Outcome :
      (c : ActionContext) (row settled : ReviewQueue) (decision : String) (edits : Payload)
      (case_id : Option String) (db u : Db H)
      → decide rt drafts ontology c row decision edits db ≡ inr ((case_id, settled), u)
      → Outcome row settled decision db u
  unfolding decide
  decide-Outcome c row settled decision edits case_id db u h =
      elim (Bool-cases (str_eq decision "accepted")) [
        | inl yes_it_is ↦
            elim (Sum-cases
              (dispatch_acceptance rt drafts ontology c row (merged row.payload edits) db)) [
                | inl (x, bad) ↦ ground (arith, h, yes_it_is, bad)
                | inr (((case_id', accepted), v), good) ↦
                    let (own, claim) =
                      accepted-Outcome c row accepted (merged row.payload edits) case_id' db v
                        good in
                    let (id, result) =
                      with_payload-keeps edits (merged row.payload edits) accepted in
                    let final = with_payload edits (merged row.payload edits) accepted in
                    let end : u ≡ v = ground (arith, h, yes_it_is, good) in
                    let is : settled ≡ final = ground (arith, h, yes_it_is, good) in
                    subst (λ r. Outcome row r decision db u) (sym is)
                      (subst (Outcome row final decision db) (sym end) (
                        (id ∙ own.0, own.1),
                        (λ a k.
                            let (written, lawful, at, claims) = claim k in
                            (written, lawful, result ∙ at, claims)),
                        λ no_it_is. ground (arith, yes_it_is, no_it_is),
                      ))
              ]
        | inr no_it_is ↦ (
          (ground (arith, h, no_it_is), ground (arith, h, no_it_is)),
          (λ a k. ground (arith, a, no_it_is)),
          λ b. ground (arith, h, no_it_is),
        )
      ]

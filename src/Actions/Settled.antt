-- ===== src/Actions/Settled.antt =====
-- `review_suggestion`: its outcome on every branch, and that a suggestion is decided once.
use text.Mathlib.Text.{◌==◌ as str_eq}
use criminal_networks_analys.Common.{
  ℕ, String, ◌≡◌, ap, sym, ◌∙◌, true, false, ◌&&◌, not, Option, some, List, [], ◌∷◌, arith, inl,
  inr, Option-cases, Bool-cases, Sum-cases,
}
use criminal_networks_analys.Common.Texts.{str_eq→eq}
use criminal_networks_analys.Actions.Ontology.{Ontology, contains, is_empty}
use criminal_networks_analys.Actions.Store.{Db, Runtime, ActionContext, ReviewQueue}
use criminal_networks_analys.Actions.Monad.{validation}
use criminal_networks_analys.Actions.Gate.{audit_entry}
use criminal_networks_analys.Actions.Lawful.{IsLawful-same}
use criminal_networks_analys.Actions.Effects.{Audits, finish-Audits}
use criminal_networks_analys.Actions.Suggestions.{Payload, Drafts, get_suggestion}
use criminal_networks_analys.Actions.Review.{
  decide, decided, review_suggestion, review_detail, put_suggestion, replace_row,
}
use criminal_networks_analys.Actions.Reviewed.{only_claims, Outcome, decide-Outcome, HasClaim}

get_suggestion-id :
    (id : ℕ) (rs : List ReviewQueue) (r : ReviewQueue)
    → get_suggestion id rs ≡ some r
    → r.suggestion_id ≡ id
get_suggestion-id id [] r h = ground (arith, h)
get_suggestion-id id (s ∷ ss) r h = ground (arith, h, get_suggestion-id id ss r)

get_suggestion-replace_row :
    (id : ℕ) (rs : List ReviewQueue) (r s : ReviewQueue)
    → get_suggestion id rs ≡ some r
    → s.suggestion_id ≡ id
    → get_suggestion id (replace_row s rs) ≡ some s
get_suggestion-replace_row id [] r s h e = ground (arith, h)
get_suggestion-replace_row id (t ∷ ts) r s h e =
    ground (arith, h, e, get_suggestion-replace_row id ts r s)

abbrev decisions : List String
decisions = "accepted" ∷ "rejected" ∷ []

decision-settled : (d : String) → contains d decisions ≡ true → str_eq d "suggested" ≡ false
decision-settled d h = elim (Bool-cases (str_eq d "accepted")) [
  | inl e ↦ ap (λ x. str_eq x "suggested") (str_eq→eq d "accepted" e)
  | inr e ↦ ap (λ x. str_eq x "suggested") (str_eq→eq d "rejected" (ground (arith, h, e)))
]

module _ {H : Type 0} (rt : Runtime H) (drafts : Drafts) (ontology : Ontology) where
  -- A suggestion was found open, and is closed.
  abbrev pub Reviewed :
      ActionContext → ℕ → String → Option String → Payload → ReviewQueue → Db H → Db H → Type 0
  Reviewed c id decision note edits r db db' =
      (row : ReviewQueue) × (settled : ReviewQueue) × (case_id : Option String) × (u : Db H)
      × (get_suggestion id db.suggestions ≡ some row)
      × (str_eq row.status "suggested" ≡ true)
      × (contains decision decisions ≡ true)
      × (r ≡ decided settled decision c.actor u.identity.now note)
      × Outcome rt drafts ontology row settled decision db u
      × Audits rt
          (audit_entry rt c "review_suggestion" "review_queue" (rt.spell id) case_id
            (review_detail rt drafts ontology settled decision edits))
          (put_suggestion (decided settled decision c.actor u.identity.now note) u) db'

  pub review-Reviewed :
      (c : ActionContext) (id : ℕ) (decision : String) (note : Option String) (edits : Payload)
      (db db' : Db H) (r : ReviewQueue)
      → review_suggestion rt drafts ontology c id decision note edits db ≡ inr (r, db')
      → Reviewed c id decision note edits r db db'
  unfolding review_suggestion
  review-Reviewed c id decision note edits db db' r h =
      elim (Option-cases (get_suggestion id db.suggestions)) [
        | inl gone ↦ ground (arith, h, gone)
        | inr (row, found) ↦ elim (Sum-cases (decide rt drafts ontology c row decision edits db)) [
          | inl (x, bad) ↦ ground (arith, h, found, bad)
          | inr (((case_id, settled), u), good) ↦ (
            row,
            settled,
            case_id,
            u,
            found,
            ground (arith, h, found, good),
            ground (arith, h, found, good),
            ground (arith, h, found, good),
            decide-Outcome rt drafts ontology c row settled decision edits case_id db u good,
            finish-Audits rt
                (audit_entry rt c "review_suggestion" "review_queue" (rt.spell id) case_id
                  (review_detail rt drafts ontology settled decision edits))
                (put_suggestion (decided settled decision c.actor u.identity.now note) u) db'
                (decided settled decision c.actor u.identity.now note) r
                (ground (arith, h, found, good)),
          )
        ]
      ]

  now_decided :
      (c : ActionContext) (id : ℕ) (decision : String) (note : Option String) (db db' u : Db H)
      (settled row r : ReviewQueue)
      → (settled.suggestion_id ≡ row.suggestion_id) × (u ≡ only_claims rt drafts ontology u db)
      → get_suggestion id db.suggestions ≡ some row
      → r ≡ decided settled decision c.actor u.identity.now note
      → db'.suggestions
        ≡ replace_row (decided settled decision c.actor u.identity.now note) u.suggestions
      → get_suggestion id db'.suggestions ≡ some r
  now_decided c id decision note db db' u settled row r own found is table =
      ap (get_suggestion id) table
      ∙ get_suggestion-replace_row id u.suggestions row
          (decided settled decision c.actor u.identity.now note)
          (ap (λ x. get_suggestion id x.suggestions) own.1 ∙ found)
          (own.0 ∙ get_suggestion-id id db.suggestions row found)
      ∙ ap (λ x. some x) (sym is)

  -- A review closes its suggestion under the reviewer's name. Where a claim draft is accepted, a lawful
  -- claim was written in the same step and is the result of the row; a rejection writes no claim and no
  -- relation, and leaves the identity ledger alone.
  pub review-outcome :
      (c : ActionContext) (id : ℕ) (decision : String) (note : Option String) (edits : Payload)
      (db db' : Db H) (r row : ReviewQueue)
      → review_suggestion rt drafts ontology c id decision note edits db ≡ inr (r, db')
      → get_suggestion id db.suggestions ≡ some row
      → (get_suggestion id db'.suggestions ≡ some r)
        × (r.status ≡ decision)
        × (r.decided_by ≡ some c.actor)
        × (str_eq decision "accepted" ≡ true
            → str_eq row.suggestion_kind "claim_draft" ≡ true
            → HasClaim rt drafts ontology r db db')
        × (str_eq decision "accepted" ≡ false
            → (db'.claims ≡ db.claims)
              × (db'.relations ≡ db.relations)
              × (db'.identity ≡ db.identity))
  review-outcome c id decision note edits db db' r row h found =
      let (row', settled, case_id, u, found', still, allowed, is, outcome, audited) =
        review-Reviewed c id decision note edits db db' r h in
      let (entry, wrote, whole) = audited in
      let (own, claimed, rejected) = outcome in
      let same : row ≡ row' = ground (arith, sym found ∙ found') in
      (
        now_decided c id decision note db db' u settled row' r own found' is
            (λ i. (whole i).suggestions),
        ap (λ x. x.status) is,
        ap (λ x. x.decided_by) is,
        λ accept kind.
            let (claim, lawful, at, claims) =
              claimed accept (ap (λ x. str_eq x.suggestion_kind "claim_draft") (sym same) ∙ kind) in
            (
              claim,
              IsLawful-same ontology claim u db' (λ i. (whole i).identity.memberships) lawful,
              ap (λ x. x.result_claim_id) is ∙ at,
              (λ i. (whole i).claims) ∙ claims,
            ),
        λ reject.
            let nothing = rejected reject in
            (
              (λ i. (whole i).claims) ∙ ap (λ x. x.claims) nothing,
              (λ i. (whole i).relations) ∙ ap (λ x. x.relations) nothing,
              (λ i. (whole i).identity) ∙ ap (λ x. x.identity) nothing,
            ),
      )

  -- Once a suggestion is decided, every later review of it is refused, whoever reviews it and however.
  pub review-once :
      (c d : ActionContext) (id : ℕ) (decision decision' : String) (note note' : Option String)
      (edits edits' : Payload) (db db' : Db H) (r : ReviewQueue)
      → review_suggestion rt drafts ontology c id decision note edits db ≡ inr (r, db')
      → contains decision' decisions ≡ true
      → (not (is_empty edits') && not (str_eq decision' "accepted")) ≡ false
      → review_suggestion rt drafts ontology d id decision' note' edits' db'
        ≡ inl (validation "review_queue.status")
  unfolding review_suggestion
  review-once c d id decision decision' note note' edits edits' db db' r h allowed fits =
      let (row, settled, case_id, u, found, still, was_allowed, is, outcome, audited) =
        review-Reviewed c id decision note edits db db' r h in
      let (entry, wrote, whole) = audited in
      let there =
        now_decided c id decision note db db' u settled row r outcome.0 found is
          (λ i. (whole i).suggestions) in
      let closed =
        ap (λ x. str_eq x.status "suggested") is ∙ decision-settled decision was_allowed in
      ground (arith, h, allowed, fits, there, closed)

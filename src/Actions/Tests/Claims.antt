-- ===== src/Actions/Tests/Claims.antt =====
-- Runs of the actions on claims, suggestions and identity, and the theorems on them at such runs.
use criminal_networks_analys.Common.{
  ℕ, ◌≡◌, refl, String, true, false, none, some, [], ◌∷◌, ◌++◌, inl, inr,
}
use criminal_networks_analys.Identity.Store.{Session}
use criminal_networks_analys.Identity.Store.{confirm}
use criminal_networks_analys.Identity.Monad.{ok}
use criminal_networks_analys.Identity.Steps.{Adjudicates}
use criminal_networks_analys.Identity.Adjudication.{AdjudicationResult, plain_result}
use criminal_networks_analys.Actions.Ontology.{action, ActionSpec}
use criminal_networks_analys.Actions.Store.{Db, Claim, ReviewQueue}
use criminal_networks_analys.Actions.Monad.{validation}
use text.Mathlib.Text.{◌==◌ as str_eq}
use criminal_networks_analys.Audit.Log.{is_blank}
use criminal_networks_analys.Actions.Gate.{require_action}
use criminal_networks_analys.Actions.Gated.{satisfies}
use criminal_networks_analys.Actions.Sound.{wrote}
use criminal_networks_analys.Actions.Lawful.{IsLawful, create_claim-IsLawful}
use criminal_networks_analys.Actions.Relating.{
  link_claims, relation_exists, add_relation, relation_row,
}
use criminal_networks_analys.Actions.Review.{accept_relation, review_suggestion}
use criminal_networks_analys.Actions.Reviewed.{HasClaim}
use criminal_networks_analys.Actions.Settled.{review-outcome, review-once}
use criminal_networks_analys.Actions.Submitted.{submit_suggestion-once}
use criminal_networks_analys.Actions.Adjudicate.{confirms, handler, adjudicate_identity}
use criminal_networks_analys.Actions.Adjudicated.{adjudicate_identity-decides}
use criminal_networks_analys.Actions.Related.{accept_relation_self, relation_draft, with_relation}
use criminal_networks_analys.Actions.Claims.{claim_row, claim_exists, create_claim}
use criminal_networks_analys.Actions.Suggestions.{
  SuggestionForm, submit_suggestion, suggestion_row, get_suggestion,
}
use criminal_networks_analys.Actions.Tests.{
  rt, ontology, context, session, start, row_of, after, program, turned, draft, drafts,
}

claimed : Db ℕ
unfolding program
claimed = after (create_claim ontology (record draft { object_id = some 1 }) start)

-- The arguments are turned, and their anchors with them.
claimed_row : Claim
claimed_row = record (claim_row ontology.version draft turned 50 0 7) { object_id = some 2 }

create_claim-IsLawful_example :
    (claimed ≡ wrote ontology claimed_row claimed.identity start)
    × IsLawful ontology claimed_row claimed
unfolding program claimed claimed_row
create_claim-IsLawful_example =
    create_claim-IsLawful ontology (record draft { object_id = some 1 }) start claimed claimed_row
      refl

abbrev claim_form : String → SuggestionForm
claim_form producer = record {
  payload = [];
  producer = producer;
  producer_meta = [];
  suggestion_kind = "claim_draft";
  producer_version = "1";
  record_id = some 5;
  case_id = none;
  idempotency_key = none;
  supersedes = none;
  expires_at = none;
  suggestion_id = none;
}

abbrev suggested : String → ℕ → ReviewQueue
suggested producer id = suggestion_row drafts (claim_form producer) "record_claim" id 7

queue1 : Db ℕ
unfolding program
queue1 = after (submit_suggestion rt drafts ontology context (claim_form "extractor") start)

queue2 : Db ℕ
unfolding program queue1
queue2 = after (submit_suggestion rt drafts ontology context (claim_form "rules") queue1)

submit_suggestion-once_example :
    (queue1.suggestions ≡ start.suggestions ++ suggested "extractor" 100 ∷ [])
    × (str_eq "suggested" "suggested" ≡ true)
    × (str_eq "extractor" "rules" ≡ false)
unfolding program queue1 queue2
submit_suggestion-once_example =
    submit_suggestion-once rt drafts ontology context context (claim_form "extractor")
      (claim_form "rules") start queue1 queue2 (suggested "extractor" 100) (suggested "rules" 101)
      refl refl

reviewed : Db ℕ
unfolding program queue1
reviewed =
    after (review_suggestion rt drafts ontology context 100 "accepted" (some "fine") [] queue1)

reviewed_row : ReviewQueue
unfolding program queue1
reviewed_row =
    row_of (suggested "extractor" 100)
      (review_suggestion rt drafts ontology context 100 "accepted" (some "fine") [] queue1)

accepted :
    review_suggestion rt drafts ontology context 100 "accepted" (some "fine") [] queue1
    ≡ inr (reviewed_row, reviewed)
unfolding program queue1 reviewed reviewed_row
accepted = refl

found : get_suggestion 100 queue1.suggestions ≡ some (suggested "extractor" 100)
unfolding program queue1
found = refl

review-outcome_example :
    (get_suggestion 100 reviewed.suggestions ≡ some reviewed_row)
    × (reviewed_row.status ≡ "accepted")
    × (reviewed_row.decided_by ≡ some "alice")
    × (str_eq "accepted" "accepted" ≡ true
        → str_eq "claim_draft" "claim_draft" ≡ true
        → HasClaim rt drafts ontology reviewed_row queue1 reviewed)
    × (str_eq "accepted" "accepted" ≡ false
        → (reviewed.claims ≡ queue1.claims)
          × (reviewed.relations ≡ queue1.relations)
          × (reviewed.identity ≡ queue1.identity))
review-outcome_example =
    review-outcome rt drafts ontology context 100 "accepted" (some "fine") [] queue1 reviewed
      reviewed_row (suggested "extractor" 100) accepted found

review-once_example :
    review_suggestion rt drafts ontology context 100 "rejected" none [] reviewed
    ≡ inl (validation "review_queue.status")
review-once_example =
    review-once rt drafts ontology context context 100 "accepted" "rejected" (some "fine") none []
      [] queue1 reviewed reviewed_row accepted refl refl

gate_open : require_action ontology "link_claims" none [] claimed ≡ inr (tt, claimed)
unfolding program
gate_open = refl

claim_there : claim_exists 50 claimed ≡ true
unfolding program claimed
claim_there = refl

relation_free : relation_exists 50 50 "contradicts" claimed ≡ false
unfolding program claimed
relation_free = refl

accept_relation_self_example :
    (link_claims rt ontology context 50 50 "contradicts" claimed
      ≡ inl (validation "claim_relation.to_claim"))
    × (accept_relation rt drafts ontology context
          (suggested "rules" 60)
          (relation_draft rt ontology drafts 50 50 "contradicts")
          claimed
        ≡ inr (
          (none, with_relation rt ontology drafts (suggested "rules" 60) 50 50 "contradicts"),
          add_relation (relation_row 50 50 "contradicts" "alice" claimed) claimed,
        ))
accept_relation_self_example =
    accept_relation_self rt ontology drafts context (suggested "rules" 60) 50 "contradicts" claimed
      gate_open refl claim_there relation_free

abbrev pub no_decision : AdjudicationResult
no_decision = plain_result (record {
  decision_id = 0;
  kind = confirm;
  decided_by = "";
  decision_note = "";
  candidate_id = none;
  input_mentions = [];
  parent_revision_id = 0;
  result_revision_id = 0;
})

adjudicated : Db ℕ
unfolding program
adjudicated =
    after (adjudicate_identity rt drafts ontology context (confirms 10 11 none) 0 "same" true start)

result : AdjudicationResult
unfolding program
result =
    row_of no_decision
      (adjudicate_identity rt drafts ontology context (confirms 10 11 none) 0 "same" true start)

adjudicates_it :
    adjudicate_identity rt drafts ontology context (confirms 10 11 none) 0 "same" true start
    ≡ inr (result, adjudicated)
unfolding program result adjudicated
adjudicates_it = refl

adjudicate_identity-decides_example :
    ((spec : ActionSpec) × (action ontology "adjudicate_identity" ≡ some spec)
      × (satisfies spec context ("protected_person" ∷ []) ≡ true))
    × (is_blank "same" ≡ false)
    × ((t : Session) × (handler (confirms 10 11 none) "alice" "same" 0 session ≡ ok (result, t))
        × Adjudicates session t
        × (adjudicated.identity ≡ record t { drawn = adjudicated.identity.drawn }))
adjudicate_identity-decides_example =
    adjudicate_identity-decides rt drafts ontology context (confirms 10 11 none) 0 "same" true start
      adjudicated result adjudicates_it

-- ===== src/Actions/Tests/Raced.antt =====
-- Two confirmations by two analysts who both looked at the first revision.
use criminal_networks_analys.Common.{
  ℕ, ◌≡◌, refl, true, ◌==◌, none, some, ◌∷◌, arith, any, member, ltb, length, if◌then◌else◌, inl,
  inr,
}
use criminal_networks_analys.Identity.Store.{Session}
use criminal_networks_analys.Identity.Monad.{stale}
use criminal_networks_analys.Identity.Scope.{entities_of, intervening}
use criminal_networks_analys.Identity.Ledger.{active_entity, opened}
use criminal_networks_analys.Identity.Steps.{IsSound}
use criminal_networks_analys.Identity.Adjudication.{AdjudicationResult, two_inputs}
use criminal_networks_analys.Actions.Store.{Db}
use criminal_networks_analys.Actions.Monad.{identity_error, validation}
use criminal_networks_analys.Actions.Adjudicate.{confirms, adjudicate_identity}
use criminal_networks_analys.Actions.Adjudicated.{Gate}
use criminal_networks_analys.Actions.Raced.{adjudicate_identity-excludes}
use criminal_networks_analys.Actions.Tests.{
  rt, drafts, ontology, context, start, session, mention, person, row_of, program,
}
use criminal_networks_analys.Actions.Tests as Tests
use criminal_networks_analys.Actions.Tests.Claims.{no_decision}

-- A third entity, which holds mention 13.
abbrev three : Session
three = record session {
  memberships = opened 3 13 3 0 ∷ session.memberships;
  mentions = mention 13 ∷ session.mentions;
  entities = person 3 ∷ session.entities;
}

three-IsSound : IsSound three
three-IsSound = record {
  one_active = λ x. ground arith;
  within = ground arith;
  revisions = ground arith;
  decisions = tt;
}

abbrev before : Db ℕ
before = record start { identity = three }

first_result : AdjudicationResult
unfolding program
first_result =
    row_of no_decision
      (adjudicate_identity rt drafts ontology context (confirms 10 11 none) 0 "same" true before)

after_first : Db ℕ
unfolding program
after_first =
    Tests.after
      (adjudicate_identity rt drafts ontology context (confirms 10 11 none) 0 "same" true before)

first_runs :
    adjudicate_identity rt drafts ontology context (confirms 10 11 none) 0 "same" true before
    ≡ inr (first_result, after_first)
unfolding program first_result after_first
first_runs = refl

stays_open : Gate rt drafts ontology context true after_first
unfolding program
stays_open = refl

still_inside : member 1 (entities_of (two_inputs 10 13) after_first.identity.memberships) ≡ true
unfolding program after_first entities_of
still_inside = refl

holds_10 : active_entity 10 three.memberships ≡ some 1
unfolding active_entity
holds_10 = refl

adjudicate_identity-excludes_example :
    (adjudicate_identity rt drafts ontology context
        (confirms 10 13 none)
        0
        "same too"
        true
        after_first
      ≡ inl (
          if ltb (length (entities_of (two_inputs 10 13) after_first.identity.memberships)) 2
          then validation "adjudicate_identity.confirm_match"
          else identity_error (stale 0 (intervening 0 after_first.identity.decisions))))
    × (any
          (λ k. k.decision_id == first_result.decision.decision_id)
          (intervening 0 after_first.identity.decisions)
        ≡ true)
unfolding program
adjudicate_identity-excludes_example =
    adjudicate_identity-excludes rt drafts ontology context context 0 0 10 11 10 13 1 none none
      "same" "same too" true true before after_first first_result three-IsSound first_runs
      (inl holds_10) (omega arith) still_inside stays_open refl

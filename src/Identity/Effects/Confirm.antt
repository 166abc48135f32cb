-- ===== src/Identity/Effects/Confirm.antt =====
-- What a `confirm_match` that succeeded did to the tables.
use mathlib.Core.Option.{some-injective}
use criminal_networks_analys.Common.{
  [], sym, ◌∙◌, subst, ℕ, suc, String, ◌≡◌, Option, some, List, arith, Option-cases, inl, inr, ltb,
  length, false,
}
use criminal_networks_analys.Identity.Store.{Session, IdentityMembership, confirm}
use criminal_networks_analys.Identity.Monad.{ok}
use criminal_networks_analys.Identity.Ledger.{active_entity}
use criminal_networks_analys.Identity.Canonical.{rebuild_canonical_map}
use criminal_networks_analys.Identity.Scope.{entities_of}
use criminal_networks_analys.Identity.Moves.{
  moved_of, mentions_of_entity, moved_table, open_decision, move_mentions,
}
use criminal_networks_analys.Identity.Adjudication.{
  AdjudicationResult, confirm_write, confirm_match, active_entity_or_raise, two_inputs,
}
use criminal_networks_analys.Identity.Effects.Steps.{
  Decided, rebuild-SameLedger, settle-SameLedger, scope-same,
}

-- The table after a confirmation.
abbrev pub confirmed_table : Session → ℕ → ℕ → List IdentityMembership
confirmed_table s survivor absorbed =
    moved_table s.ids (suc s.drawn) (mentions_of_entity absorbed s.memberships) survivor
      s.next_revision s.memberships

pub confirm_write-Decided :
    (actor note : String) (parent a b : ℕ) (candidate : Option ℕ) (survivor absorbed : ℕ)
    {s t : Session} {r : AdjudicationResult}
    → confirm_write actor note parent a b candidate survivor absorbed s ≡ ok (r, t)
    → Decided s t (confirmed_table s survivor absorbed) r.decision
unfolding confirm_write open_decision move_mentions rebuild_canonical_map
confirm_write-Decided actor note parent a b candidate survivor absorbed h =
    grind (arith, settle-SameLedger, rebuild-SameLedger)

-- What a confirmation of two mentions did: both belonged somewhere, and the second one's entity
-- gave its mentions to the first one's.
pub record Confirmed (s t : Session) (a b : ℕ) (r : AdjudicationResult) (survivor absorbed : ℕ)
    : Type 0 where
  pub of_a : active_entity a s.memberships ≡ some survivor
  pub of_b : active_entity b s.memberships ≡ some absorbed
  pub kind : r.decision.kind ≡ confirm
  pub two : ltb (length (entities_of (two_inputs a b) s.memberships)) 2 ≡ false
  pub moved :
      r.moved_mentions ≡ moved_of (mentions_of_entity absorbed s.memberships) survivor s.memberships
  pub decided : Decided s t (confirmed_table s survivor absorbed) r.decision

confirm_write-moved :
    (actor note : String) (parent a b : ℕ) (candidate : Option ℕ) (survivor absorbed : ℕ)
    (s : Session) {t : Session} {r : AdjudicationResult}
    → confirm_write actor note parent a b candidate survivor absorbed s ≡ ok (r, t)
    → r.moved_mentions ≡ moved_of (mentions_of_entity absorbed s.memberships) survivor s.memberships
unfolding confirm_write open_decision move_mentions rebuild_canonical_map
confirm_write-moved actor note parent a b candidate survivor absorbed s h =
    grind (arith, settle-SameLedger, rebuild-SameLedger)

confirm_write-kind :
    (actor note : String) (parent a b : ℕ) (candidate : Option ℕ) (survivor absorbed : ℕ)
    (s : Session) {t : Session} {r : AdjudicationResult}
    → confirm_write actor note parent a b candidate survivor absorbed s ≡ ok (r, t)
    → r.decision.kind ≡ confirm
unfolding confirm_write open_decision move_mentions rebuild_canonical_map
confirm_write-kind actor note parent a b candidate survivor absorbed s h =
    grind (arith, settle-SameLedger, rebuild-SameLedger)

confirm_write-attributed :
    (actor note : String) (parent a b : ℕ) (candidate : Option ℕ) (survivor absorbed : ℕ)
    (s : Session) {t : Session} {r : AdjudicationResult}
    → confirm_write actor note parent a b candidate survivor absorbed s ≡ ok (r, t)
    → r.unattributable_claims ≡ []
unfolding confirm_write open_decision move_mentions rebuild_canonical_map
confirm_write-attributed actor note parent a b candidate survivor absorbed s h =
    grind (arith, settle-SameLedger, rebuild-SameLedger)

confirm_two :
    (actor note : String) (parent a b : ℕ) (candidate : Option ℕ) (s : Session) {t : Session}
    {r : AdjudicationResult}
    → confirm_match actor note parent a b candidate s ≡ ok (r, t)
    → ltb (length (entities_of (two_inputs a b) s.memberships)) 2 ≡ false
unfolding confirm_match
confirm_two actor note parent a b candidate s h = grind arith

confirm_guards :
    (actor note : String) (parent a b : ℕ) (candidate : Option ℕ) (s : Session) {t : Session}
    {r : AdjudicationResult}
    → confirm_match actor note parent a b candidate s ≡ ok (r, t)
    → (survivor : ℕ) × (absorbed : ℕ) × (active_entity a s.memberships ≡ some survivor)
      × (active_entity b s.memberships ≡ some absorbed)
      × (confirm_write actor note parent a b candidate survivor absorbed s ≡ ok (r, t))
unfolding confirm_match active_entity_or_raise
confirm_guards actor note parent a b candidate s h =
    elim (Option-cases (active_entity a s.memberships)) [
      | inl no_a ↦ absurd (grind (arith, scope-same))
      | inr (survivor, of_a) ↦ elim (Option-cases (active_entity b s.memberships)) [
        | inl no_b ↦ absurd (grind (arith, scope-same))
        | inr (absorbed, of_b) ↦ (survivor, absorbed, of_a, of_b, grind (arith, scope-same))
      ]
    ]

pub confirm-Confirmed :
    (actor note : String) (parent a b : ℕ) (candidate : Option ℕ) (s : Session) {t : Session}
    {r : AdjudicationResult}
    → confirm_match actor note parent a b candidate s ≡ ok (r, t)
    → (survivor : ℕ) × (absorbed : ℕ) × Confirmed s t a b r survivor absorbed
unfolding confirm_match
confirm-Confirmed actor note parent a b candidate s h =
    let (survivor, absorbed, of_a, of_b, written) =
      confirm_guards actor note parent a b candidate s h in
    (
      survivor,
      absorbed,
      record {
        kind = confirm_write-kind actor note parent a b candidate survivor absorbed s written;
        of_a = of_a;
        two = confirm_two actor note parent a b candidate s h;
        moved = confirm_write-moved actor note parent a b candidate survivor absorbed s written;
        of_b = of_b;
        decided = confirm_write-Decided actor note parent a b candidate survivor absorbed written;
      },
    )

-- The write that a confirmation ends with, by the entities that were read.
pub confirm-written :
    (actor note : String) (parent a b : ℕ) (candidate : Option ℕ) (s : Session) {t : Session}
    {r : AdjudicationResult} (survivor absorbed : ℕ)
    → confirm_match actor note parent a b candidate s ≡ ok (r, t)
    → active_entity a s.memberships ≡ some survivor
    → active_entity b s.memberships ≡ some absorbed
    → (confirm_write actor note parent a b candidate survivor absorbed s ≡ ok (r, t))
      × Confirmed s t a b r survivor absorbed
confirm-written actor note parent a b candidate s {t} {r} survivor absorbed h of_a of_b =
    let (x, y, of_x, of_y, at_read) = confirm_guards actor note parent a b candidate s h in
    let written : confirm_write actor note parent a b candidate survivor absorbed s ≡ ok (r, t) =
      subst (λ z. confirm_write actor note parent a b candidate survivor z s ≡ ok (r, t))
        (some-injective _ _ (sym of_y ∙ of_b))
        (subst (λ z. confirm_write actor note parent a b candidate z y s ≡ ok (r, t))
          (some-injective _ _ (sym of_x ∙ of_a)) at_read) in
    (
      written,
      record {
        of_a = of_a;
        of_b = of_b;
        kind = confirm_write-kind actor note parent a b candidate survivor absorbed s written;
        two = confirm_two actor note parent a b candidate s h;
        moved = confirm_write-moved actor note parent a b candidate survivor absorbed s written;
        decided = confirm_write-Decided actor note parent a b candidate survivor absorbed written;
      },
    )

-- A confirmation leaves no claim without an attribution.
pub confirm_match-attributed :
    (actor note : String) (parent a b : ℕ) (candidate : Option ℕ) (s : Session) {t : Session}
    {r : AdjudicationResult}
    → confirm_match actor note parent a b candidate s ≡ ok (r, t)
    → r.unattributable_claims ≡ []
confirm_match-attributed actor note parent a b candidate s h =
    let (survivor, absorbed, of_a, of_b, written) =
      confirm_guards actor note parent a b candidate s h in
    confirm_write-attributed actor note parent a b candidate survivor absorbed s written

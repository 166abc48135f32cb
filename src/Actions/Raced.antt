-- ===== src/Actions/Raced.antt =====
-- Two adjudications through the service that were computed from the same revisions.
use criminal_networks_analys.Common.{
  ℕ, String, ◌≡◌, ◌<◌, ◌⊎◌, subst, sym, Bool, true, false, ◌==◌, Option, some, arith, any, member,
  ltb, length, inl, inr, if◌then◌else◌,
}
use criminal_networks_analys.Audit.Log.{is_blank}
use criminal_networks_analys.Identity.Store.{Session}
use criminal_networks_analys.Identity.Monad.{ok, err, stale, nothing_to_confirm}
use criminal_networks_analys.Identity.Scope.{entities_of, intervening, check_scope_is_current}
use criminal_networks_analys.Identity.Ledger.{active_entity}
use criminal_networks_analys.Identity.Steps.{IsSound}
use criminal_networks_analys.Identity.Effects.Confirm.{confirm_match-attributed}
use criminal_networks_analys.Identity.Concurrency.{check_scope-after_confirm, confirm_match-stale}
use criminal_networks_analys.Identity.Adjudication.{AdjudicationResult, confirm_match, two_inputs}
use criminal_networks_analys.Actions.Ontology.{Ontology}
use criminal_networks_analys.Actions.Store.{Db, Runtime, ActionContext}
use criminal_networks_analys.Actions.Monad.{identity_error, validation}
use criminal_networks_analys.Actions.Suggestions.{Drafts}
use criminal_networks_analys.Actions.Adjudicate.{confirms, handler, adjudicate_identity}
use criminal_networks_analys.Actions.Adjudicated.{adjudicate_identity-decides, Gate, Gate-passed}

module _ {H : Type 0} (rt : Runtime H) (drafts : Drafts) (ontology : Ontology) where
  -- A confirmation leaves the session of the service where the ledger left it.
  confirms-session :
      (c : ActionContext) (parent a b : ℕ) (candidate : Option ℕ) (note : String) (protected : Bool)
      (db db' : Db H) (r : AdjudicationResult) (t : Session)
      → adjudicate_identity rt drafts ontology c (confirms a b candidate) parent note protected db
        ≡ inr (r, db')
      → confirm_match c.actor note parent a b candidate db.identity ≡ ok (r, t)
      → db'.identity ≡ t
  unfolding adjudicate_identity handler
  confirms-session c parent a b candidate note protected db db' r t h e =
      let passed =
        Gate-passed rt drafts ontology c (confirms a b candidate) parent note protected db db' r
          h in
      let none_left = confirm_match-attributed c.actor note parent a b candidate db.identity e in
      ground (arith, h, passed, e, none_left)

  refused_by_service :
      (d : ActionContext) (parent x y : ℕ) (candidate : Option ℕ) (note : String) (protected : Bool)
      (db : Db H)
      → Gate rt drafts ontology d protected db
      → is_blank note ≡ false
      → confirm_match d.actor note parent x y candidate db.identity
        ≡ err (
            if ltb (length (entities_of (two_inputs x y) db.identity.memberships)) 2
            then nothing_to_confirm
            else stale parent (intervening parent db.identity.decisions))
      → adjudicate_identity rt drafts ontology d (confirms x y candidate) parent note protected db
        ≡ inl (
            if ltb (length (entities_of (two_inputs x y) db.identity.memberships)) 2
            then validation "adjudicate_identity.confirm_match"
            else identity_error (stale parent (intervening parent db.identity.decisions)))
  unfolding adjudicate_identity handler
  refused_by_service d parent x y candidate note protected db passed written refused =
      ground (arith, passed, written, refused)

  -- Let a confirmation in a sound ledger succeed. A later confirmation that was computed from a revision
  -- before it, of two mentions one of which now belongs to an entity of the first, is refused, whoever
  -- asks, where the gate lets them through and the note is not blank: as stale, with the first among the
  -- decisions that it is handed, or, if both mentions by now belong to one entity, as there is nothing to
  -- confirm.
  pub adjudicate_identity-excludes :
      (c d : ActionContext) (parent parent' a b x y e : ℕ) (candidate candidate' : Option ℕ)
      (note note' : String) (protected protected' : Bool) (db db' : Db H) (r : AdjudicationResult)
      → IsSound db.identity
      → adjudicate_identity rt drafts ontology c (confirms a b candidate) parent note protected db
        ≡ inr (r, db')
      → (active_entity a db.identity.memberships ≡ some e)
        ⊎ (active_entity b db.identity.memberships ≡ some e)
      → parent' < db.identity.next_revision
      → member e (entities_of (two_inputs x y) db'.identity.memberships) ≡ true
      → Gate rt drafts ontology d protected' db'
      → is_blank note' ≡ false
      → (adjudicate_identity rt drafts ontology d
            (confirms x y candidate')
            parent'
            note'
            protected'
            db'
          ≡ inl (
              if ltb (length (entities_of (two_inputs x y) db'.identity.memberships)) 2
              then validation "adjudicate_identity.confirm_match"
              else identity_error (stale parent' (intervening parent' db'.identity.decisions))))
        × (any
              (λ k. k.decision_id == r.decision.decision_id)
              (intervening parent' db'.identity.decisions)
            ≡ true)
  unfolding handler
  adjudicate_identity-excludes c d parent parent' a b x y e candidate candidate' note note'
        protected protected' db db' r sound h who before inside passed written =
      let (gate, noted, (t, decided, step, kept)) =
        adjudicate_identity-decides rt drafts ontology c (confirms a b candidate) parent note
          protected db db' r h in
      let is = confirms-session c parent a b candidate note protected db db' r t h decided in
      let scope = entities_of (two_inputs x y) db'.identity.memberships in
      let (refused, told) =
        check_scope-after_confirm c.actor note parent a b candidate db.identity parent' e scope
          sound decided who inside before in
      let refused' : check_scope_is_current parent' scope db'.identity
          ≡ err (stale parent' (intervening parent' db'.identity.decisions)) =
        subst
          (λ s.
            check_scope_is_current parent' scope s
            ≡ err (stale parent' (intervening parent' s.decisions)))
          (sym is) refused in
      (
        refused_by_service d parent' x y candidate' note' protected' db' passed written
            (confirm_match-stale d.actor note' parent' x y candidate' db'.identity refused'),
        subst
            (λ s.
              any (λ k. k.decision_id == r.decision.decision_id) (intervening parent' s.decisions)
              ≡ true)
            (sym is) told,
      )

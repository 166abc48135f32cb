-- ===== src/Actions/Adjudicate.antt =====
-- aegis/actions/service.py: `adjudicate_identity` and `_queue_reattribution`. The parameters of each mode
-- are given by its constructor, so that a mode that does not exist, or that gets others, does not arise.
use Prim.Native.String.{◌++◌ as append_text}
use criminal_networks_analys.Common.{
  ℕ, String, Bool, true, false, ◌&&◌, Option, none, some, List, [], ◌∷◌, ◌++◌, is_none, ◌==◌,
  if◌then◌else◌, map, ◌⊎◌, inl, inr,
}
use criminal_networks_analys.Audit.Log.{is_blank}
use criminal_networks_analys.Identity.Store.{Session}
use criminal_networks_analys.Identity.Monad.{
  Error, Result, ok, err, Work, not_migrated, already_member, nothing_to_confirm, stale,
  empty_split, stray, moves_everything, no_such_entity, no_entity, no_such_candidate,
  already_settled, lineage_cycle, missing_row, out_of_fuel, violated,
}
use criminal_networks_analys.Identity.Canonical.{canonical_entity}
use criminal_networks_analys.Identity.Adjudication.{
  AdjudicationResult, confirm_match, reject_match, split_entity, mark_unresolved,
}
use criminal_networks_analys.Actions.Ontology.{Ontology}
use criminal_networks_analys.Actions.Store.{
  Db, Runtime, ActionContext, Value, str, int, strs, Claim,
}
use criminal_networks_analys.Actions.Monad.{
  Act, ActionError, validation, identity_error, pure, gets, raise_if, ◌>>=◌, ◌>>◌,
}
use criminal_networks_analys.Actions.Gate.{require_action, audit}
use criminal_networks_analys.Actions.Cases.{optional}
use criminal_networks_analys.Actions.Claims.{optional_id}
use criminal_networks_analys.Actions.Relating.{get_claim}
use criminal_networks_analys.Actions.Suggestions.{
  Payload, Drafts, SuggestionForm, submit_suggestion,
}

pub data Mode : Type 0 where
  confirms : (mention_a mention_b : ℕ) (candidate : Option ℕ) → Mode
  rejects : (mention_a mention_b : ℕ) (basis : String) (candidate : Option ℕ) → Mode
  splits : (entity : ℕ) (mentions : List ℕ) (target : Option ℕ) → Mode
  leaves : (mention_a mention_b : ℕ) (candidate : Option ℕ) → Mode

abbrev pub mode_name : Mode → String
mode_name (confirms a b candidate) = "confirm_match"
mode_name (rejects a b basis candidate) = "reject_match"
mode_name (splits entity mentions target) = "split_entity"
mode_name (leaves a b candidate) = "mark_unresolved"

unfoldable pub handler : Mode → String → String → ℕ → Work AdjudicationResult
handler (confirms a b candidate) actor note parent = confirm_match actor note parent a b candidate
handler (rejects a b basis candidate) actor note parent =
    reject_match actor note parent a b basis candidate
handler (splits entity mentions target) actor note parent =
    split_entity actor note parent entity mentions target
handler (leaves a b candidate) actor note parent = mark_unresolved actor note parent a b candidate

-- An `AdjudicationError` becomes a validation error; a stale revision, and the errors of the ledger and of
-- the canonical map, pass through.
abbrev pub translated : String → Error → ActionError
translated path nothing_to_confirm = validation path
translated path empty_split = validation path
translated path (stray mentions) = validation path
translated path moves_everything = validation path
translated path (no_such_entity e) = validation path
translated path (no_entity m) = validation path
translated path (no_such_candidate c) = validation path
translated path (already_settled d) = validation path
translated path not_migrated = identity_error not_migrated
translated path (already_member e) = identity_error (already_member e)
translated path (stale parent intervening) = identity_error (stale parent intervening)
translated path (lineage_cycle es) = identity_error (lineage_cycle es)
translated path missing_row = identity_error missing_row
translated path (violated c) = identity_error (violated c)
translated path out_of_fuel = identity_error out_of_fuel

abbrev pub is_id : Option ℕ → ℕ → Bool
is_id none n = false
is_id (some m) n = m == n

abbrev pub same_id : Option ℕ → Option ℕ → Bool
same_id none none = true
same_id none (some n) = false
same_id (some m) none = false
same_id (some m) (some n) = m == n

-- The entries of the payload that are not None.
abbrev pub entry : String → (ℕ → Value) → Option ℕ → Payload
entry key value none = []
entry key value (some n) = (key, value n) ∷ []

abbrev pub text_entry : String → Option String → Payload
text_entry key none = []
text_entry key (some t) = (key, str t) ∷ []

abbrev pub value_entry : String → Option Value → Payload
value_entry key none = []
value_entry key (some v) = (key, v) ∷ []

abbrev pub resolved : Session → Option ℕ → Option ℕ
resolved s none = none
resolved s (some e) = some (canonical_entity s e)

-- The subject and the object of the replacement: the argument that named the split entity, after
-- resolution, and has no anchor, is pointed at the new entity.
abbrev pub repointed : Session → Option ℕ → ℕ → Claim → ℕ × Option ℕ
repointed s surviving new c =
    if same_id (some (canonical_entity s c.subject_id)) surviving && is_none c.subject_mention_id
    then (new, c.object_id)
    else if same_id (resolved s c.object_id) surviving && is_none c.object_mention_id
    then (c.subject_id, some new)
    else (c.subject_id, c.object_id)

module _ {H : Type 0} (rt : Runtime H) (drafts : Drafts) (ontology : Ontology) where
  abbrev pub spelled : Option ℕ → List String
  spelled none = []
  spelled (some id) = rt.spell id ∷ []

  abbrev pub reattribution : Claim → ℕ × Option ℕ → Payload
  reattribution c (subject, object) =
      (("subject_id", int subject) ∷ ("predicate", str c.predicate) ∷ [])
      ++ (entry "object_id" int object
          ++ (value_entry "object_value" c.object_value
              ++ (("assertion_type", str c.assertion_type)
                  ∷ ("record_id", int c.record_id)
                  ∷ (text_entry "collection_method" c.collection_method
                      ++ (text_entry "excerpt" c.excerpt ++ ("supersedes", int c.claim_id) ∷ [])))))

  abbrev pub reattribution_form : AdjudicationResult → ℕ → Claim → Payload → SuggestionForm
  reattribution_form result new c payload = record {
    payload = payload;
    producer = "split-readjudication";
    producer_meta =
        ("reason", str "unanchored claim on a split entity (spec 02 §3.1 rule 4)")
        ∷ ("decision_id", str (rt.spell result.decision.decision_id))
        ∷ ("original_claim_id", str (rt.spell c.claim_id))
        ∷ ("candidate_entities", strs (spelled result.surviving_entity_id ++ rt.spell new ∷ []))
        ∷ [];
    suggestion_kind = "claim_draft";
    producer_version = rt.spell result.decision.decision_id;
    record_id = some c.record_id;
    case_id = c.case_id;
    idempotency_key = none;
    supersedes = none;
    expires_at = none;
    suggestion_id = none;
  }

  unfoldable pub queue_claim : ActionContext → AdjudicationResult → ℕ → Claim → Act H (Unit {0})
  unfolding submit_suggestion canonical_entity
  queue_claim context result new c = do
    sides ← gets (λ db. repointed db.identity result.surviving_entity_id new c)
    submit_suggestion rt drafts ontology context
        (reattribution_form result new c (reattribution c sides))
    pure tt

  abbrev pub queue_found :
      ActionContext → AdjudicationResult → Option ℕ → Option Claim → Act H (Unit {0})
  queue_found context result new none = pure tt
  queue_found context result none (some c) = pure tt
  queue_found context result (some new) (some c) = queue_claim context result new c

  -- `_queue_reattribution`
  unfoldable pub queue_reattribution : ActionContext → AdjudicationResult → ℕ → Act H (Unit {0})
  unfolding queue_claim
  queue_reattribution context result claim_id = do
    claim ← gets (λ db. get_claim claim_id db.claims)
    queue_found context result result.new_entity_id claim

  unfoldable pub queue_each : ActionContext → AdjudicationResult → List ℕ → Act H (Unit {0})
  unfolding queue_reattribution
  queue_each context result [] = pure tt
  queue_each context result (id ∷ ids) = do
    queue_reattribution context result id
    queue_each context result ids

  abbrev pub handled :
      String
      → Db H
      → Result (AdjudicationResult × Session)
      → ActionError ⊎ (AdjudicationResult × Db H)
  handled path db (err e) = inl (translated path e)
  handled path db (ok (r, s)) = inr (r, record db { identity = s })

  unfoldable pub handle : Mode → String → String → ℕ → Act H AdjudicationResult
  unfolding handler
  handle mode actor note parent db =
      handled (append_text "adjudicate_identity." (mode_name mode)) db
        (handler mode actor note parent db.identity)

  abbrev pub protection : Bool → List String
  protection true = "protected_person" ∷ []
  protection false = []

  abbrev pub adjudication_detail : ActionContext → Mode → String → ℕ → AdjudicationResult → Payload
  adjudication_detail context mode note parent r =
      ("mode", str (mode_name mode))
      ∷ ("note", str note)
      ∷ ("parent_revision_id", int parent)
      ∷ ("result_revision_id", int r.revision.revision_id)
      ∷ ("moved_mentions", strs (map rt.spell r.moved_mentions))
      ∷ ("surviving_entity_id", optional_id rt r.surviving_entity_id)
      ∷ ("new_entity_id", optional_id rt r.new_entity_id)
      ∷ ("second_actor", optional context.second_actor)
      ∷ ("unattributable_claims", strs (map rt.spell r.unattributable_claims))
      ∷ []

  unfoldable pub adjudicate_identity :
      ActionContext → Mode → ℕ → String → Bool → Act H AdjudicationResult
  unfolding require_action handle queue_each
  adjudicate_identity context mode parent note protected_person = do
    require_action ontology "adjudicate_identity" (some context) (protection protected_person)
    raise_if (is_blank note) (validation "adjudicate_identity.note")
    result ← handle mode context.actor note parent
    queue_each context result result.unattributable_claims
    audit rt context "adjudicate_identity" "identity_decision"
        (rt.spell result.decision.decision_id) none
        (adjudication_detail context mode note parent result)
    pure result

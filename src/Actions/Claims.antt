-- ===== src/Actions/Claims.antt =====
-- aegis/actions/service.py: `_create_claim` and `record_claim`.
pub mod Draft
use Prim.Native.String.{◌++◌ as append_text}
use text.Mathlib.Text.{◌==◌ as str_eq}
use criminal_networks_analys.Common.{
  ℕ, String, Bool, false, ◌&&◌, not, Option, none, some, List, [], ◌∷◌, ◌++◌, is_none, any, ltb,
  ◌==◌, if◌then◌else◌,
}
use criminal_networks_analys.Identity.Store.{Entity, ClaimArguments}
use criminal_networks_analys.Identity.Monad.{new_id}
use criminal_networks_analys.Identity.Ledger.{active_revision_id}
use criminal_networks_analys.Actions.Ontology.{
  Ontology, PredicateSpec, contains, predicate, allows_literal, allows_entity, entity_object_types,
  credibility, verification, analytic_confidence,
}
use criminal_networks_analys.Actions.Store.{Db, Runtime, ActionContext, Value, null, str, Claim}
use criminal_networks_analys.Actions.Monad.{
  Act, validation, integrity, pure, raise, gets, modify, raise_if, or_raise, on_identity, ◌>>=◌,
  ◌>>◌,
}
use criminal_networks_analys.Actions.Gate.{require_action, handling, grade, audit}
use criminal_networks_analys.Actions.Cases.{case_exists}
use criminal_networks_analys.Actions.Evidence.{missing, record_exists, same_bool}
use criminal_networks_analys.Actions.Anchors.{entity_from_mention, check_anchor, require_anchors}
pub use criminal_networks_analys.Actions.Claims.Draft.{
  ClaimDraft, Sides, assertion_types, get_entity, out_of_order, claim_exists, ordered, subject_path,
  object_path, arguments, claim_row,
}

module _ {H : Type 0} (ontology : Ontology) where
  -- `_entity`, of which the type is read
  abbrev pub entity_type : Option ℕ → String → Act H String
  entity_type none path = raise (validation path)
  entity_type (some id) path = do
    found ← gets (λ db. get_entity id db.identity.entities)
    entity ← or_raise found (validation path)
    raise_if (not (contains entity.entity_type ontology.object_types))
        (validation (append_text "object_types." entity.entity_type))
    pure entity.entity_type

  unfoldable pub subject_argument : PredicateSpec → ClaimDraft → Option ℕ → Act H (Option ℕ)
  unfolding entity_from_mention
  subject_argument spec d none =
      entity_from_mention d.subject_mention_id "claim.subject_id" spec.subject d.subject_entity_type
  subject_argument spec d (some id) = pure (some id)

  -- The mention names the object only where neither an entity nor a value does.
  unfoldable pub object_argument : PredicateSpec → ClaimDraft → Option ℕ → Act H (Option ℕ)
  unfolding entity_from_mention
  object_argument spec d (some id) = pure (some id)
  object_argument spec d none =
      if is_none d.object_value
      then entity_from_mention d.object_mention_id "claim.object_id"
          (entity_object_types spec.object) d.object_entity_type
      else pure none

  -- The object is a value, or an entity that the predicate allows.
  abbrev pub object_sides : PredicateSpec → ClaimDraft → ℕ → Option ℕ → Act H Sides
  object_sides spec d subject none = do
    raise_if (not (allows_literal spec.object)) (validation (object_path d.predicate))
    pure (record {
      subject = subject;
      object = none;
      subject_mention = d.subject_mention_id;
      object_mention = d.object_mention_id;
    })
  object_sides spec d subject (some object) = do
    raise_if (not (allows_entity spec.object)) (validation (object_path d.predicate))
    type ← entity_type (some object) "claim.object_id"
    raise_if (not (contains type (entity_object_types spec.object)))
        (validation (object_path d.predicate))
    raise_if (subject == object) (validation "claim.object_id")
    pure (ordered spec.symmetric subject object d.subject_mention_id d.object_mention_id)

  -- The checks on the arguments, in the order of the code.
  unfoldable pub check_arguments : PredicateSpec → ClaimDraft → Option ℕ → Option ℕ → Act H Sides
  check_arguments spec d subject_id object_id = do
    type ← entity_type subject_id "claim.subject_id"
    subject ← or_raise subject_id (validation "claim.subject_id")
    raise_if (not (contains type spec.subject)) (validation (subject_path d.predicate))
    raise_if (same_bool (is_none object_id) (is_none d.object_value)) (validation "claim.object")
    object_sides spec d subject object_id

  -- The checks on the assertion, the grades and the times.
  unfoldable pub check_grading : ClaimDraft → Act H (Unit {0})
  unfolding grade handling
  check_grading d = do
    raise_if (not (contains d.assertion_type assertion_types))
        (validation (append_text "claim.assertion_type." d.assertion_type))
    grade ontology credibility "grading.credibility." (some d.credibility_normalized)
    grade ontology verification "grading.verification." (some d.verification_status)
    grade ontology analytic_confidence "grading.analytic_confidence." d.analytic_confidence
    raise_if (not (is_none d.analytic_confidence) && not (str_eq d.assertion_type "assessed"))
        (validation "claim.analytic_confidence")
    handling ontology d.handling_code
    raise_if (out_of_order d.event_time_earliest d.event_time_latest)
        (validation "claim.event_time_latest")
    raise_if (out_of_order d.valid_from d.valid_to) (validation "claim.valid_to")

  -- The rows that the claim refers to.
  unfoldable pub check_references : ClaimDraft → Act H (Unit {0})
  check_references d = do
    has_record ← gets (record_exists d.record_id)
    raise_if (not has_record) (validation "claim.record_id")
    no_case ← gets (missing case_exists d.case_id)
    raise_if no_case (validation "claim.case_id")
    no_claim ← gets (missing claim_exists d.supersedes)
    raise_if no_claim (validation "claim.supersedes")

  abbrev pub number_or_new_id : Option ℕ → Act H ℕ
  number_or_new_id none = on_identity new_id
  number_or_new_id (some id) = pure id

  abbrev pub add_claim : Claim → Db H → Db H
  add_claim c db = record db {
    claims = db.claims ++ c ∷ [];
    identity = record db.identity { claims = db.identity.claims ++ arguments c ∷ [] };
  }

  unfoldable pub insert_claim : ClaimDraft → Sides → Act H Claim
  unfolding active_revision_id
  insert_claim d sides = do
    id ← number_or_new_id d.claim_id
    revision ← on_identity active_revision_id
    taken ← gets (claim_exists id)
    raise_if taken (integrity "claim_pkey")
    now ← gets (λ db. db.identity.now)
    modify (add_claim (claim_row ontology.version d sides id revision now))
    pure (claim_row ontology.version d sides id revision now)

  -- The last part of `_create_claim`: the anchors, and the row.
  unfoldable pub anchor_and_insert : ClaimDraft → Sides → Act H Claim
  unfolding check_anchor require_anchors insert_claim
  anchor_and_insert d sides = do
    check_anchor "claim.subject_mention_id" sides.subject_mention (some sides.subject)
    check_anchor "claim.object_mention_id" sides.object_mention sides.object
    require_anchors d.assertion_type d.collection_method sides.subject_mention sides.object_mention
        sides.object
    insert_claim d sides

  -- The part after the arguments are resolved.
  unfoldable pub check_and_insert : PredicateSpec → ClaimDraft → Option ℕ → Option ℕ → Act H Claim
  unfolding check_arguments check_grading check_references anchor_and_insert
  check_and_insert spec d subject_id object_id = do
    sides ← check_arguments spec d subject_id object_id
    check_grading d
    check_references d
    anchor_and_insert d sides

  -- `_create_claim`
  unfoldable pub create_claim : ClaimDraft → Act H Claim
  unfolding predicate subject_argument object_argument check_and_insert
  create_claim d = do
    spec ←
        or_raise (predicate ontology d.predicate)
          (validation (append_text "predicates." d.predicate))
    subject_id ← subject_argument spec d d.subject_id
    object_id ← object_argument spec d d.object_id
    check_and_insert spec d subject_id object_id

abbrev pub optional_id : {H : Type 0} → Runtime H → Option ℕ → Value
optional_id rt none = null
optional_id rt (some id) = str (rt.spell id)

module _ {H : Type 0} (rt : Runtime H) (ontology : Ontology) where
  unfoldable pub record_claim : ActionContext → ClaimDraft → Act H Claim
  unfolding require_action create_claim
  record_claim context d = do
    require_action ontology "record_claim" none []
    row ← create_claim ontology d
    audit rt context "record_claim" "claim" (rt.spell row.claim_id) row.case_id (
        ("subject_id", str (rt.spell row.subject_id))
        ∷ ("predicate", str row.predicate)
        ∷ ("object_id", optional_id rt row.object_id)
        ∷ ("ontology_version", str row.ontology_version)
        ∷ [])
    pure row

-- ===== src/Actions/Suggestions.antt =====
-- aegis/actions/service.py: `submit_suggestion`, `review_suggestion` and what acceptance dispatches to.
-- SHA-256, the JSON text of a payload, and the reading of a JSON draft as the arguments of `_create_claim`
-- are parameters.
use Prim.Native.String.{◌++◌ as append_text}
use text.Mathlib.Text.{◌==◌ as str_eq}
use criminal_networks_analys.Common.{
  ℕ, String, Bool, Option, none, some, List, [], ◌∷◌, ◌++◌, is_none, any, ◌==◌, if◌then◌else◌,
}
use criminal_networks_analys.Audit.Log.{is_blank}
use criminal_networks_analys.Actions.Ontology.{
  Ontology, Dimension, find, credibility, verification, analytic_confidence,
}
use criminal_networks_analys.Actions.Store.{
  Db, Runtime, ActionContext, Value, str, int, null, ReviewQueue,
}
use criminal_networks_analys.Actions.Monad.{
  Act, validation, integrity, pure, raise, gets, modify, raise_if, or_raise, ◌>>=◌, ◌>>◌,
}
use criminal_networks_analys.Actions.Gate.{require_action, grade, handling, audit}
use criminal_networks_analys.Actions.Cases.{case_exists, given}
use criminal_networks_analys.Actions.Evidence.{missing, or_text, record_exists}
use criminal_networks_analys.Actions.Claims.{ClaimDraft, number_or_new_id}

abbrev pub Payload : Type 0
Payload = List (String × Value)

pub record Drafts : Type 0 where
  pub sha256 : String → String
  pub sorted_dumps : Payload → String
  pub read : Payload → Option ClaimDraft

abbrev pub suggestion_idempotency_key : Drafts → String → String → String → Payload → String
suggestion_idempotency_key drafts kind producer version payload = drafts.sha256 (
    append_text kind (
      append_text "|" (
        append_text producer
          (append_text "|" (append_text version (append_text "|" (drafts.sorted_dumps payload)))))))

-- `SUGGESTION_KINDS.get(kind)`
abbrev pub target_of : String → Option String
target_of kind = find kind (
    ("claim_draft", "record_claim")
    ∷ ("identity_candidate", "adjudicate_identity")
    ∷ ("claim_relation", "link_claims")
    ∷ [])

-- `d[k] = v`
abbrev pub put : String → Value → Payload → Payload
put k v [] = (k, v) ∷ []
put k v ((j, w) ∷ d) = if str_eq j k then (k, v) ∷ d else (j, w) ∷ put k v d

-- `{**payload, **edits}`
abbrev pub merged : Payload → Payload → Payload
merged payload [] = payload
merged payload ((k, v) ∷ edits) = merged (put k v payload) edits

abbrev pub as_text : Option Value → Option String
as_text (some (str t)) = some t
as_text _ = none

abbrev pub as_id : Option Value → Option ℕ
as_id (some (int n)) = some n
as_id _ = none

abbrev pub or_else {ℓ} : {A : Type ℓ} → Option A → Option A → Option A
or_else none b = b
or_else (some a) b = some a

module _ {H : Type 0} (ontology : Ontology) where
  -- A value that is no text is in no vocabulary.
  abbrev pub predicate_field : Option Value → Act H (Unit {0})
  predicate_field none = pure tt
  predicate_field (some null) = pure tt
  predicate_field (some (str name)) =
      raise_if (is_none (find name ontology.predicates))
        (validation (append_text "predicates." name))
  predicate_field (some _) = raise (validation "predicates.")

  unfoldable pub grade_field : Dimension → String → Option Value → Act H (Unit {0})
  unfolding grade
  grade_field dimension path none = pure tt
  grade_field dimension path (some null) = pure tt
  grade_field dimension path (some (str t)) = grade ontology dimension path (some t)
  grade_field dimension path (some _) = raise (validation path)

  unfoldable pub handling_field : Option Value → Act H (Unit {0})
  unfolding handling
  handling_field none = pure tt
  handling_field (some (str code)) = handling ontology code
  handling_field (some _) = raise (validation "handling_codes.")

  -- `_validate_suggestion_payload`
  unfoldable pub validate_payload : Payload → Act H (Unit {0})
  unfolding grade_field handling_field
  validate_payload payload = do
    predicate_field (find "predicate" payload)
    grade_field credibility "grading.credibility." (find "credibility_normalized" payload)
    grade_field verification "grading.verification." (find "verification_status" payload)
    grade_field analytic_confidence "grading.analytic_confidence."
        (find "analytic_confidence" payload)
    handling_field (find "handling_code" payload)

-- The arguments of `submit_suggestion`.
pub record SuggestionForm : Type 0 where
  pub payload : Payload
  pub producer : String
  pub producer_meta : Payload
  pub suggestion_kind : String
  pub producer_version : String
  pub record_id : Option ℕ
  pub case_id : Option String
  pub idempotency_key : Option String
  pub supersedes : Option ℕ
  pub expires_at : Option ℕ
  pub suggestion_id : Option ℕ

abbrev pub suggestion_row : Drafts → SuggestionForm → String → ℕ → ℕ → ReviewQueue
suggestion_row drafts form target id now = record {
  suggestion_id = id;
  suggestion_kind = form.suggestion_kind;
  schema_version = 1;
  payload = form.payload;
  target_action = target;
  producer = form.producer;
  producer_version = form.producer_version;
  producer_meta = form.producer_meta;
  record_id = or_else form.record_id (as_id (find "record_id" form.payload));
  case_id = or_else form.case_id (as_text (find "case_id" form.payload));
  idempotency_key = or_text (given form.idempotency_key) (
      suggestion_idempotency_key drafts form.suggestion_kind form.producer form.producer_version
        form.payload);
  supersedes = form.supersedes;
  expires_at = form.expires_at;
  status = "suggested";
  decided_by = none;
  decided_at = none;
  decision_note = none;
  result_claim_id = none;
  result_decision_id = none;
  result_relation = none;
  created_at = now;
}

abbrev pub get_suggestion : ℕ → List ReviewQueue → Option ReviewQueue
get_suggestion id [] = none
get_suggestion id (r ∷ rs) = if r.suggestion_id == id then some r else get_suggestion id rs

abbrev pub has_key : String → List ReviewQueue → Bool
has_key key rs = any (λ r. str_eq r.idempotency_key key) rs

module _ {H : Type 0} where
  abbrev pub suggestion_exists : ℕ → Db H → Bool
  suggestion_exists id db = any (λ r. r.suggestion_id == id) db.suggestions

  -- The constraints of the table: its keys, and the rows that it refers to.
  unfoldable pub check_row : ReviewQueue → Act H (Unit {0})
  check_row row = do
    taken ← gets (suggestion_exists row.suggestion_id)
    raise_if taken (integrity "review_queue_pkey")
    replay ← gets (λ db. has_key row.idempotency_key db.suggestions)
    raise_if replay (integrity "uq_review_queue_idempotency_key")
    no_record ← gets (missing record_exists row.record_id)
    raise_if no_record (integrity "review_queue_record_id_fkey")
    no_case ← gets (missing case_exists row.case_id)
    raise_if no_case (integrity "review_queue_case_id_fkey")
    no_older ← gets (missing suggestion_exists row.supersedes)
    raise_if no_older (integrity "review_queue_supersedes_fkey")

  abbrev pub add_suggestion : ReviewQueue → Db H → Db H
  add_suggestion r db = record db { suggestions = db.suggestions ++ r ∷ [] }

module _ {H : Type 0} (rt : Runtime H) (drafts : Drafts) (ontology : Ontology) where
  unfoldable pub if_claim_draft : String → Payload → Act H (Unit {0})
  unfolding validate_payload
  if_claim_draft kind payload db =
      if str_eq kind "claim_draft" then validate_payload ontology payload db else pure tt db

  unfoldable pub submit_suggestion : ActionContext → SuggestionForm → Act H ReviewQueue
  unfolding require_action if_claim_draft check_row
  submit_suggestion context form = do
    require_action ontology "submit_suggestion" none []
    target ←
        or_raise (target_of form.suggestion_kind)
          (validation (append_text "review_queue.suggestion_kind." form.suggestion_kind))
    if_claim_draft form.suggestion_kind form.payload
    raise_if (is_blank form.producer) (validation "review_queue.producer")
    raise_if (is_blank form.producer_version) (validation "review_queue.producer_version")
    id ← number_or_new_id ontology form.suggestion_id
    now ← gets (λ db. db.identity.now)
    check_row (suggestion_row drafts form target id now)
    modify (add_suggestion (suggestion_row drafts form target id now))
    audit rt context "submit_suggestion" "review_queue" (rt.spell id) none (
        ("producer", str form.producer)
        ∷ ("producer_version", str form.producer_version)
        ∷ ("suggestion_kind", str form.suggestion_kind)
        ∷ [])
    pure (suggestion_row drafts form target id now)

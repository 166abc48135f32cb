-- ===== src/Actions/Review.antt =====
-- aegis/actions/service.py: `review_suggestion` and `_dispatch_acceptance`.
use Prim.Native.String.{◌++◌ as append_text, compare as compare_text}
use Prim.Native.Nat.{Ordering}
use text.Mathlib.Text.{◌==◌ as str_eq}
use criminal_networks_analys.Common.{
  ℕ, String, ◌&&◌, not, Option, none, some, List, [], ◌∷◌, ◌++◌, ◌==◌, if◌then◌else◌,
}
use criminal_networks_analys.Actions.Ontology.{Ontology, contains, find, is_empty}
use criminal_networks_analys.Actions.Store.{
  Db, Runtime, ActionContext, Value, str, int, strs, null, json, ReviewQueue,
}
use criminal_networks_analys.Actions.Monad.{
  Act, validation, integrity, pure, raise, gets, modify, raise_if, or_raise, ◌>>=◌, ◌>>◌,
}
use criminal_networks_analys.Actions.Gate.{require_action, audit}
use criminal_networks_analys.Actions.Claims.{create_claim, optional_id, claim_exists}
use criminal_networks_analys.Actions.Relating.{
  claim_relations, relation_exists, relation_row, add_relation,
}
use criminal_networks_analys.Actions.Suggestions.{
  Payload, Drafts, validate_payload, merged, as_id, as_text, get_suggestion,
}

abbrev pub insert_text : String → List String → List String
insert_text t [] = t ∷ []
insert_text t (u ∷ us) = elim (compare_text u t) [
  | Ordering.lt ↦ u ∷ insert_text t us
  | _ ↦ t ∷ u ∷ us
]

-- `sorted(edits)`
abbrev pub sorted_keys : Payload → List String
sorted_keys [] = []
sorted_keys ((k, v) ∷ edits) = insert_text k (sorted_keys edits)

abbrev pub replace_row : ReviewQueue → List ReviewQueue → List ReviewQueue
replace_row r [] = []
replace_row r (s ∷ ss) = if s.suggestion_id == r.suggestion_id then r ∷ ss else s ∷ replace_row r ss

abbrev pub put_suggestion : {H : Type 0} → ReviewQueue → Db H → Db H
put_suggestion r db = record db { suggestions = replace_row r db.suggestions }

-- What the acceptance gives back: the case of the result, and the row with its typed result.
abbrev pub Dispatched : Type 0
Dispatched = Option String × ReviewQueue

abbrev pub with_payload : Payload → Payload → ReviewQueue → ReviewQueue
with_payload [] draft row = row
with_payload (_ ∷ _) draft row = record row { payload = draft }

abbrev pub decided : ReviewQueue → String → String → ℕ → Option String → ReviewQueue
decided row decision actor now note = record row {
  status = decision;
  decided_by = some actor;
  decided_at = some now;
  decision_note = note;
}

module _ {H : Type 0} (rt : Runtime H) (drafts : Drafts) (ontology : Ontology) where
  unfoldable pub accept_claim : ReviewQueue → Payload → Act H Dispatched
  unfolding validate_payload create_claim
  accept_claim row draft = do
    validate_payload ontology draft
    d ← or_raise (drafts.read draft) (validation "review_queue.payload")
    claim ← create_claim ontology d
    pure (claim.case_id, record row { result_claim_id = some claim.claim_id })

  unfoldable pub accept_relation : ActionContext → ReviewQueue → Payload → Act H Dispatched
  accept_relation context row draft = do
    from_claim ← or_raise (find "from_claim" draft) (validation "review_queue.payload")
    to_claim ← or_raise (find "to_claim" draft) (validation "review_queue.payload")
    value ← or_raise (find "relation" draft) (validation "review_queue.payload")
    relation ← or_raise (as_text (some value)) (validation "claim_relation.relation.")
    raise_if (not (contains relation claim_relations))
        (validation (append_text "claim_relation.relation." relation))
    a ← or_raise (as_id (some from_claim)) (validation "claim_relation.from_claim")
    has_left ← gets (claim_exists a)
    raise_if (not has_left) (validation "claim_relation.from_claim")
    b ← or_raise (as_id (some to_claim)) (validation "claim_relation.to_claim")
    has_right ← gets (claim_exists b)
    raise_if (not has_right) (validation "claim_relation.to_claim")
    taken ← gets (relation_exists a b relation)
    raise_if taken (integrity "claim_relation_pkey")
    added ← gets (relation_row a b relation context.actor)
    modify (add_relation added)
    pure (
      none,
      record row {
        result_relation =
            some (("from_claim", int a) ∷ ("to_claim", int b) ∷ ("relation", str relation) ∷ []);
      },
    )

  -- `_dispatch_acceptance`
  unfoldable pub dispatch_acceptance : ActionContext → ReviewQueue → Payload → Act H Dispatched
  unfolding accept_claim accept_relation
  dispatch_acceptance context row draft db =
      if str_eq row.suggestion_kind "claim_draft"
      then accept_claim row draft db
      else if str_eq row.suggestion_kind "claim_relation"
      then accept_relation context row draft db
      else raise (validation (append_text "review_queue.suggestion_kind." row.suggestion_kind)) db

  -- A rejected row is left as it is; an accepted one goes through its action.
  unfoldable pub decide : ActionContext → ReviewQueue → String → Payload → Act H Dispatched
  unfolding dispatch_acceptance
  decide context row decision edits =
      if str_eq decision "accepted"
      then (do
        (case_id, accepted) ← dispatch_acceptance context row (merged row.payload edits)
        pure (case_id, with_payload edits (merged row.payload edits) accepted))
      else pure (none, row)

  abbrev pub optional_relation : Option Payload → Value
  optional_relation none = null
  optional_relation (some r) = json (rt.dumps r)

  abbrev pub result_detail : String → ReviewQueue → Payload
  result_detail decision row =
      if str_eq decision "accepted"
      then ("result_claim_id", optional_id rt row.result_claim_id)
        ∷ ("result_decision", optional_id rt row.result_decision_id)
        ∷ ("result_relation", optional_relation row.result_relation)
        ∷ []
      else []

  abbrev pub review_detail : ReviewQueue → String → Payload → Payload
  review_detail row decision edits =
      (("decision", str decision)
        ∷ ("suggestion_kind", str row.suggestion_kind)
        ∷ ("target_action", str row.target_action)
        ∷ ("edited_fields", strs (sorted_keys edits))
        ∷ [])
      ++ result_detail decision row

  unfoldable pub review_suggestion :
      ActionContext → ℕ → String → Option String → Payload → Act H ReviewQueue
  unfolding require_action decide
  review_suggestion context suggestion_id decision note edits = do
    require_action ontology "review_suggestion" none []
    raise_if (not (contains decision ("accepted" ∷ "rejected" ∷ [])))
        (validation (append_text "review_queue.status." decision))
    raise_if (not (is_empty edits) && not (str_eq decision "accepted"))
        (validation "review_queue.edits")
    found ← gets (λ db. get_suggestion suggestion_id db.suggestions)
    row ← or_raise found (validation "review_queue.suggestion_id")
    raise_if (not (str_eq row.status "suggested")) (validation "review_queue.status")
    (case_id, settled) ← decide context row decision edits
    now ← gets (λ db. db.identity.now)
    modify (put_suggestion (decided settled decision context.actor now note))
    audit rt context "review_suggestion" "review_queue" (rt.spell suggestion_id) case_id
        (review_detail settled decision edits)
    pure (decided settled decision context.actor now note)

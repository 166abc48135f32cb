-- ===== src/Identity/Adjudication.antt =====
-- aegis/er/adjudication.py: the four modes of `adjudicate_identity`.
use criminal_networks_analys.Common.{
  ℕ, String, Bool, true, false, Option, none, some, List, [], ◌∷◌, not, ltb, if◌then◌else◌, length,
  dedup, difference, same_set, sort_by, identity,
}
use criminal_networks_analys.Identity.Store.{
  IdentityDecision, IdentityRevision, confirm, split, reject, unresolved, confirmed, rejected,
  undecided,
}
use criminal_networks_analys.Identity.Monad.{
  Work, pure, gets, raise_if, or_raise, new_id, modify, nothing_to_confirm, empty_split, stray,
  moves_everything, no_entity, violated, ◌>>=◌, ◌>>◌,
}
use criminal_networks_analys.Identity.Ledger.{active_entity}
use criminal_networks_analys.Identity.Canonical.{rebuild_canonical_map}
use criminal_networks_analys.Identity.Scope.{entities_of, check_scope_is_current}
use criminal_networks_analys.Identity.Moves.{
  revision_row, open_decision, move_mentions, mentions_of_entity,
}
use criminal_networks_analys.Identity.Candidates.{settle_candidate}
use criminal_networks_analys.Identity.Constraints.{
  latest_constraint, next_version, write_constraint, constraint_row,
}
use criminal_networks_analys.Identity.Splits.{unattributable_claims, split_target}

pub record AdjudicationResult : Type 0 where
  pub decision : IdentityDecision
  pub revision : IdentityRevision
  pub moved_mentions : List ℕ
  pub surviving_entity_id : Option ℕ
  pub new_entity_id : Option ℕ
  pub constraint_id : Option ℕ
  pub unattributable_claims : List ℕ

-- `_active_entity`
unfoldable pub active_entity_or_raise : ℕ → Work ℕ
unfolding active_entity
active_entity_or_raise mention s =
    or_raise (active_entity mention s.memberships) (no_entity mention) s

abbrev pub plain_result : IdentityDecision → AdjudicationResult
plain_result d = record {
  decision = d;
  revision = revision_row d.result_revision_id (some d.decision_id);
  moved_mentions = [];
  surviving_entity_id = none;
  new_entity_id = none;
  constraint_id = none;
  unattributable_claims = [];
}

abbrev pub two_inputs : ℕ → ℕ → List ℕ
two_inputs a b = a ∷ b ∷ []

-- What `confirm_match` writes once both entities are known.
unfoldable pub confirm_write :
    String → String → ℕ → ℕ → ℕ → Option ℕ → ℕ → ℕ → Work AdjudicationResult
unfolding open_decision move_mentions mentions_of_entity settle_candidate
confirm_write actor note parent mention_a mention_b candidate survivor absorbed = do
  decision ← open_decision confirm actor note parent candidate (two_inputs mention_a mention_b)
  held ← gets (λ s. mentions_of_entity absorbed s.memberships)
  moved ← move_mentions held survivor decision.result_revision_id
  settle_candidate candidate confirmed decision.decision_id
  rebuild_canonical_map
  pure (record (plain_result decision) {
    moved_mentions = moved;
    surviving_entity_id = some survivor;
  })

unfoldable pub confirm_match : String → String → ℕ → ℕ → ℕ → Option ℕ → Work AdjudicationResult
unfolding entities_of check_scope_is_current active_entity_or_raise confirm_write
confirm_match actor note parent mention_a mention_b candidate = do
  scope ← gets (λ s. entities_of (two_inputs mention_a mention_b) s.memberships)
  raise_if (ltb (length scope) 2) nothing_to_confirm
  check_scope_is_current parent scope
  survivor ← active_entity_or_raise mention_a
  absorbed ← active_entity_or_raise mention_b
  confirm_write actor note parent mention_a mention_b candidate survivor absorbed

abbrev pub lower : ℕ → ℕ → ℕ
lower a b = if ltb b a then b else a

abbrev pub higher : ℕ → ℕ → ℕ
higher a b = if ltb b a then a else b

-- `sorted((a, b))`
abbrev pub sorted_pair : ℕ → ℕ → List ℕ
sorted_pair a b = two_inputs (lower a b) (higher a b)

unfoldable pub reject_match :
    String → String → ℕ → ℕ → ℕ → String → Option ℕ → Work AdjudicationResult
unfolding open_decision latest_constraint settle_candidate
reject_match actor note parent mention_a mention_b basis candidate = do
  let a = lower mention_a mention_b
  let b = higher mention_a mention_b
  decision ← open_decision reject actor note parent candidate (two_inputs a b)
  previous ← gets (λ s. latest_constraint a b s.constraints)
  constraint ← new_id
  raise_if (not (ltb a b)) (violated "ck_identity_negative_constraint_pair_order")
  modify (
      write_constraint previous
        (constraint_row constraint a b (next_version previous) decision.decision_id basis))
  settle_candidate candidate rejected decision.decision_id
  pure (record (plain_result decision) { constraint_id = some constraint })

unfoldable pub mark_unresolved : String → String → ℕ → ℕ → ℕ → Option ℕ → Work AdjudicationResult
unfolding open_decision settle_candidate
mark_unresolved actor note parent mention_a mention_b candidate = do
  decision ← open_decision unresolved actor note parent candidate (sorted_pair mention_a mention_b)
  settle_candidate candidate undecided decision.decision_id
  pure (plain_result decision)

abbrev pub is_empty : List ℕ → Bool
is_empty [] = true
is_empty (_ ∷ _) = false

abbrev pub stray_mentions : List ℕ → List ℕ → List ℕ
stray_mentions mentions held = sort_by identity (difference (dedup mentions) held)

-- What `split_entity` writes once its target is known.
unfoldable pub split_moves :
    String → String → ℕ → ℕ → List ℕ → ℕ × Option ℕ → Work AdjudicationResult
unfolding open_decision move_mentions unattributable_claims
split_moves actor note parent entity mentions (onto, created) = do
  decision ← open_decision split actor note parent none (sort_by identity mentions)
  moved ← move_mentions (sort_by identity mentions) onto decision.result_revision_id
  unsettled ← gets (unattributable_claims entity)
  rebuild_canonical_map
  pure (record (plain_result decision) {
    moved_mentions = moved;
    surviving_entity_id = some entity;
    new_entity_id = created;
    unattributable_claims = unsettled;
  })

-- What `split_entity` does once its guards have passed.
unfoldable pub split_write : String → String → ℕ → ℕ → List ℕ → Option ℕ → Work AdjudicationResult
unfolding split_target split_moves
split_write actor note parent entity mentions target = do
  onto ← split_target entity mentions target
  split_moves actor note parent entity mentions onto

unfoldable pub split_entity : String → String → ℕ → ℕ → List ℕ → Option ℕ → Work AdjudicationResult
unfolding check_scope_is_current mentions_of_entity split_write
split_entity actor note parent entity mentions target = do
  raise_if (is_empty mentions) empty_split
  check_scope_is_current parent (entity ∷ [])
  held ← gets (λ s. mentions_of_entity entity s.memberships)
  raise_if (not (is_empty (stray_mentions mentions held))) (stray (stray_mentions mentions held))
  raise_if (same_set mentions held) moves_everything
  split_write actor note parent entity mentions target

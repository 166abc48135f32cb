-- ===== src/Actions/Anchors.antt =====
-- aegis/actions/service.py: mentions as the arguments of a claim, `_entity_from_mention`,
-- `_entity_type_for`, `_check_anchor` and `_require_anchors`.
use text.Mathlib.Text.{◌==◌ as str_eq}
use criminal_networks_analys.Common.{
  ℕ, String, Bool, true, ◌&&◌, not, Option, none, some, List, [], ◌∷◌, ◌++◌, is_none, select, ◌==◌,
  if◌then◌else◌,
}
use criminal_networks_analys.Identity.Store.{Entity, Mention}
use criminal_networks_analys.Identity.Monad.{new_id}
use criminal_networks_analys.Identity.Ledger.{active_entity, open_membership}
use criminal_networks_analys.Actions.Ontology.{contains, is_empty}
use criminal_networks_analys.Actions.Store.{Db}
use criminal_networks_analys.Actions.Monad.{
  Act, validation, pure, raise, gets, modify, raise_if, or_raise, on_identity, ◌>>=◌, ◌>>◌,
}

abbrev pub get_mention : ℕ → List Mention → Option Mention
get_mention id [] = none
get_mention id (m ∷ ms) = if m.mention_id == id then some m else get_mention id ms

abbrev pub entity_row : ℕ → String → String → Entity
entity_row id type label = record {
  entity_id = id;
  entity_type = type;
  label = label;
  tombstoned_at = none;
}

module _ {H : Type 0} where
  abbrev pub only_candidate : List String → String → Act H String
  only_candidate [] path = raise (validation path)
  only_candidate (t ∷ []) path = pure t
  only_candidate (t ∷ u ∷ ts) path = raise (validation path)

  abbrev pub requested_or_only : List String → Option String → String → Act H String
  requested_or_only candidates none path = only_candidate candidates path
  requested_or_only candidates (some t) path = do
    raise_if (not (contains t candidates)) (validation path)
    pure t

  -- `_entity_type_for`
  unfoldable pub entity_type_for : List String → Option String → String → Act H String
  entity_type_for allowed requested path =
      requested_or_only (select (λ t. not (str_eq t "literal")) allowed) requested path

  abbrev pub add_entity : Entity → Db H → Db H
  add_entity e db = record db {
    identity = record db.identity { entities = db.identity.entities ++ e ∷ [] };
  }

  unfoldable pub create_entity : ℕ → String → String → List String → Option String → Act H ℕ
  unfolding entity_type_for open_membership
  create_entity mention label path allowed requested = do
    raise_if (is_empty allowed) (validation path)
    id ← on_identity new_id
    type ← entity_type_for allowed requested path
    modify (add_entity (entity_row id type label))
    on_identity (open_membership mention id none)
    pure id

  unfoldable pub existing_or_new :
      Option ℕ → ℕ → String → String → List String → Option String → Act H ℕ
  unfolding create_entity
  existing_or_new none mention label path allowed requested =
      create_entity mention label path allowed requested
  existing_or_new (some entity) mention label path allowed requested = pure entity

  unfoldable pub resolve_mention : ℕ → String → List String → Option String → Act H ℕ
  unfolding existing_or_new
  resolve_mention id path allowed requested = do
    found ← gets (λ db. get_mention id db.identity.mentions)
    mention ← or_raise found (validation path)
    existing ← gets (λ db. active_entity id db.identity.memberships)
    existing_or_new existing id mention.raw_text path allowed requested

  -- `_entity_from_mention`
  unfoldable pub entity_from_mention :
      Option ℕ → String → List String → Option String → Act H (Option ℕ)
  unfolding resolve_mention
  entity_from_mention none path allowed requested = pure none
  entity_from_mention (some id) path allowed requested = do
    entity ← resolve_mention id path allowed requested
    pure (some entity)

  unfoldable pub join_or_compare : Option ℕ → ℕ → ℕ → String → Act H (Unit {0})
  unfolding open_membership
  join_or_compare none mention entity path = do
    on_identity (open_membership mention entity none)
    pure tt
  join_or_compare (some owner) mention entity path =
      raise_if (not (owner == entity)) (validation path)

  -- `_check_anchor`, where the path names the role.
  unfoldable pub check_anchor : String → Option ℕ → Option ℕ → Act H (Unit {0})
  unfolding join_or_compare
  check_anchor path none entity = pure tt
  check_anchor path (some mention) none = raise (validation path)
  check_anchor path (some mention) (some entity) = do
    found ← gets (λ db. get_mention mention db.identity.mentions)
    raise_if (is_none found) (validation path)
    owner ← gets (λ db. active_entity mention db.identity.memberships)
    join_or_compare owner mention entity path

-- The assertions that must be anchored, and the collection methods that need not be.
abbrev pub anchor_required : String → Bool
anchor_required t = contains t ("observed" ∷ "reported" ∷ [])

abbrev pub is_exempt : Option String → Bool
is_exempt none = true
is_exempt (some m) = contains m ("curated" ∷ "manual" ∷ [])

abbrev pub needs_anchors : String → Option String → Bool
needs_anchors assertion_type collection_method =
    anchor_required assertion_type && not (is_exempt collection_method)

module _ {H : Type 0} where
  -- `_require_anchors`
  unfoldable pub require_anchors :
      String → Option String → Option ℕ → Option ℕ → Option ℕ → Act H (Unit {0})
  require_anchors assertion_type collection_method subject_mention object_mention object_id = do
    raise_if (needs_anchors assertion_type collection_method && is_none subject_mention)
        (validation "claim.subject_mention_id")
    raise_if
        (needs_anchors assertion_type collection_method
          && not (is_none object_id)
          && is_none object_mention)
        (validation "claim.object_mention_id")

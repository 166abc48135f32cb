-- ===== src/Identity/Ledger.antt =====
-- aegis/er/ledger.py: the read side of the ledger, and the opening of a first membership.
use criminal_networks_analys.Common.{
  ℕ, String, Bool, Option, none, some, List, [], ◌∷◌, ◌++◌, map, ◌&&◌, ltb, ◌==◌, if◌then◌else◌,
  is_none, select, first, sort_by, any,
}
use text.Mathlib.Text.{◌==◌ as str_eq}
use criminal_networks_analys.Identity.Store.{Session, IdentityMembership, IdentityRevision}
use criminal_networks_analys.Identity.Monad.{
  Work, pure, raise, or_raise, new_id, modify, not_migrated, already_member, ◌>>=◌, ◌>>◌,
}

-- The revision that migration 0007 inserts.
abbrev pub baseline_revision : ℕ
baseline_revision = 0

-- `closed_revision_id IS NULL`
abbrev pub is_active : IdentityMembership → Bool
is_active m = is_none m.closed_revision_id

-- `SELECT max(revision_id)`
unfoldable pub max_revision : List IdentityRevision → Option ℕ
max_revision [] = none
max_revision (r ∷ rs) = elim (max_revision rs) [
  | none ↦ some r.revision_id
  | some n ↦ some (if ltb n r.revision_id then r.revision_id else n)
]

unfoldable pub active_revision_id : Work ℕ
unfolding max_revision
active_revision_id s = or_raise (max_revision s.revisions) not_migrated s

-- The entity of the first active row of the mention.
unfoldable pub active_entity : ℕ → List IdentityMembership → Option ℕ
active_entity mention [] = none
active_entity mention (m ∷ ms) =
    if m.mention_id == mention && is_active m then some m.entity_id else active_entity mention ms

unfoldable pub active_entity_for_mention : Session → ℕ → Option ℕ
unfolding active_entity
active_entity_for_mention s mention = active_entity mention s.memberships

abbrev has_key : String → Session → IdentityMembership → Bool
has_key norm_key s m =
    is_active m && any (λ n. n.mention_id == m.mention_id && str_eq n.norm_key norm_key) s.mentions

-- The first entity by `membership_id` among the active memberships of mentions with this key.
pub resolve_norm_key : Session → String → Option ℕ
resolve_norm_key s norm_key = first (
    map (λ m. m.entity_id)
      (sort_by (λ m. m.membership_id) (select (has_key norm_key s) s.memberships)))

or_active_revision : Option ℕ → Work ℕ
unfolding active_revision_id
or_active_revision none = active_revision_id
or_active_revision (some revision) = pure revision

abbrev pub opened : ℕ → ℕ → ℕ → ℕ → IdentityMembership
opened membership mention entity revision = record {
  membership_id = membership;
  mention_id = mention;
  entity_id = entity;
  opened_revision_id = revision;
  closed_revision_id = none;
}

abbrev add_membership : IdentityMembership → Session → Session
add_membership row s = record s { memberships = s.memberships ++ row ∷ [] }

-- The keyword arguments are evaluated in order: the identifier is minted before the head is read.
insert_membership : ℕ → ℕ → Option ℕ → Work IdentityMembership
unfolding or_active_revision
insert_membership mention entity revision = do
  membership ← new_id
  at ← or_active_revision revision
  modify (add_membership (opened membership mention entity at))
  pure (opened membership mention entity at)

refuse_or_insert : Option ℕ → ℕ → ℕ → Option ℕ → Work IdentityMembership
unfolding insert_membership
refuse_or_insert none mention entity revision = insert_membership mention entity revision
refuse_or_insert (some existing) mention entity revision = raise (already_member existing)

unfoldable pub open_membership : ℕ → ℕ → Option ℕ → Work IdentityMembership
unfolding refuse_or_insert active_entity_for_mention
open_membership mention entity revision s =
    refuse_or_insert (active_entity_for_mention s mention) mention entity revision s

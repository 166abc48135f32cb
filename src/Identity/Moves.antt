-- ===== src/Identity/Moves.antt =====
-- aegis/er/adjudication.py: the ledger write, `_open_decision`, `_move_mentions` and
-- `_mentions_of_entity`.
use criminal_networks_analys.Common.{
  ℕ, suc, ◌+◌, String, Bool, Option, none, some, List, [], ◌∷◌, ◌++◌, map, ◌&&◌, ◌||◌, any, not,
  ◌==◌, if◌then◌else◌, select, length, member, sort_by,
}
use criminal_networks_analys.Identity.Store.{
  Session, IdentityMembership, IdentityDecision, IdentityRevision, Kind,
}
use criminal_networks_analys.Identity.Monad.{
  Work, pure, gets, raise_if, violated, new_id, modify, ◌>>=◌, ◌>>◌,
}
use criminal_networks_analys.Identity.Ledger.{is_active}

abbrev pub revision_row : ℕ → Option ℕ → IdentityRevision
revision_row revision decision = record { revision_id = revision; decision_id = decision }

abbrev pub decision_row : ℕ → Kind → String → String → Option ℕ → List ℕ → ℕ → ℕ → IdentityDecision
decision_row decision kind actor note candidate inputs parent result = record {
  decision_id = decision;
  kind = kind;
  decided_by = actor;
  decision_note = note;
  candidate_id = candidate;
  input_mentions = inputs;
  parent_revision_id = parent;
  result_revision_id = result;
}

abbrev pub add_decision : IdentityDecision → Session → Session
add_decision d s = record s {
  revisions = s.revisions ++ revision_row d.result_revision_id (some d.decision_id) ∷ [];
  next_revision = suc s.next_revision;
  decisions = s.decisions ++ d ∷ [];
}

-- The parent is a revision of the table, to which the new one was added before.
abbrev pub is_revision : ℕ → Session → Bool
is_revision parent s = any (λ r. r.revision_id == parent) s.revisions || s.next_revision == parent

-- `_open_decision`: the revision takes the next number of its sequence.
unfoldable pub open_decision :
    Kind → String → String → ℕ → Option ℕ → List ℕ → Work IdentityDecision
open_decision kind actor note parent candidate inputs = do
  revision ← gets (λ s. s.next_revision)
  decision ← new_id
  known ← gets (is_revision parent)
  raise_if (not known) (violated "identity_decision_parent_revision_id_fkey")
  modify (add_decision (decision_row decision kind actor note candidate inputs parent revision))
  pure (decision_row decision kind actor note candidate inputs parent revision)

-- The memberships that `_move_mentions` acts on: active, of these mentions, not yet on the target.
abbrev pub moves : List ℕ → ℕ → IdentityMembership → Bool
moves mentions target m =
    (member m.mention_id mentions && is_active m) && not (m.entity_id == target)

abbrev pub close_moved : List ℕ → ℕ → ℕ → IdentityMembership → IdentityMembership
close_moved mentions target revision m =
    if moves mentions target m then record m { closed_revision_id = some revision } else m

-- One new row for each closed one, with an identifier of its own.
unfoldable pub reopened : (ℕ → ℕ) → ℕ → ℕ → ℕ → List IdentityMembership → List IdentityMembership
reopened ids drawn target revision [] = []
reopened ids drawn target revision (m ∷ ms) =
    record {
      membership_id = ids drawn;
      mention_id = m.mention_id;
      entity_id = target;
      opened_revision_id = revision;
      closed_revision_id = none;
    }
    ∷ reopened ids (suc drawn) target revision ms

-- The closed rows stay in the table, and the new rows follow in the order of their mentions.
unfoldable pub moved_table :
    (ℕ → ℕ) → ℕ → List ℕ → ℕ → ℕ → List IdentityMembership → List IdentityMembership
unfolding reopened
moved_table ids drawn mentions target revision ms =
    map (close_moved mentions target revision) ms
    ++ reopened ids drawn target revision
        (sort_by (λ m. m.mention_id) (select (moves mentions target) ms))

abbrev pub moved_of : List ℕ → ℕ → List IdentityMembership → List ℕ
moved_of mentions target ms =
    map (λ m. m.mention_id) (sort_by (λ m. m.mention_id) (select (moves mentions target) ms))

abbrev pub write_moves : List ℕ → ℕ → ℕ → Session → Session
write_moves mentions target revision s = record s {
  memberships = moved_table s.ids s.drawn mentions target revision s.memberships;
  drawn = s.drawn + length (select (moves mentions target) s.memberships);
}

-- `_move_mentions`
unfoldable pub move_mentions : List ℕ → ℕ → ℕ → Work (List ℕ)
unfolding moved_table
move_mentions mentions target revision = do
  moved ← gets (λ s. moved_of mentions target s.memberships)
  modify (write_moves mentions target revision)
  pure moved

-- `_mentions_of_entity`
unfoldable pub mentions_of_entity : ℕ → List IdentityMembership → List ℕ
mentions_of_entity entity ms =
    map (λ m. m.mention_id)
      (sort_by (λ m. m.mention_id) (select (λ m. m.entity_id == entity && is_active m) ms))

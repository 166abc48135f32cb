-- ===== src/Identity/Effects/Open.antt =====
-- What an `open_membership` that succeeded did to the tables.
use criminal_networks_analys.Common.{ℕ, ◌≡◌, Option, none, some, [], ◌∷◌, ◌++◌, arith}
use criminal_networks_analys.Identity.Store.{Session, IdentityMembership}
use criminal_networks_analys.Identity.Monad.{ok}
use criminal_networks_analys.Identity.Ledger.{
  active_entity, max_revision, active_revision_id, open_membership,
}

-- The mention had no active membership, and has the new row now, at the given or the head revision.
pub record Opened (s t : Session) (mention entity : ℕ) (revision : Option ℕ)
    (m : IdentityMembership) : Type 0 where
  pub unresolved : active_entity mention s.memberships ≡ none
  pub at_head : revision ≡ none → max_revision s.revisions ≡ some m.opened_revision_id
  pub at_given : (n : ℕ) → revision ≡ some n → m.opened_revision_id ≡ n
  pub mention_id : m.mention_id ≡ mention
  pub entity_id : m.entity_id ≡ entity
  pub still_open : m.closed_revision_id ≡ none
  pub memberships : t.memberships ≡ s.memberships ++ m ∷ []
  pub revisions : t.revisions ≡ s.revisions
  pub next_revision : t.next_revision ≡ s.next_revision
  pub decisions : t.decisions ≡ s.decisions
  pub entities : t.entities ≡ s.entities

pub open_membership-Opened :
    (mention entity : ℕ) (revision : Option ℕ) (s : Session) {t : Session} {m : IdentityMembership}
    → open_membership mention entity revision s ≡ ok (m, t)
    → Opened s t mention entity revision m
unfolding open_membership active_revision_id
open_membership-Opened mention entity none s h = record {
  unresolved = ground arith;
  at_head = λ q. ground arith;
  at_given = λ n q. cc;
  mention_id = ground arith;
  entity_id = ground arith;
  still_open = ground arith;
  memberships = ground arith;
  revisions = ground arith;
  next_revision = ground arith;
  decisions = ground arith;
  entities = ground arith;
}
open_membership-Opened mention entity (some n) s h = record {
  unresolved = ground arith;
  at_head = λ q. cc;
  at_given = λ n q. ground arith;
  mention_id = ground arith;
  entity_id = ground arith;
  still_open = ground arith;
  memberships = ground arith;
  revisions = ground arith;
  next_revision = ground arith;
  decisions = ground arith;
  entities = ground arith;
}

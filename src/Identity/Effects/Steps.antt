-- ===== src/Identity/Effects/Steps.antt =====
-- What the steps of an adjudication write, and what they leave alone.
use criminal_networks_analys.Common.{
  ℕ, suc, ◌≡◌, true, Option, none, some, List, [], ◌∷◌, ◌++◌, arith,
}
use criminal_networks_analys.Identity.Store.{
  Session, IdentityDecision, IdentityMembership, Disposition,
}
use criminal_networks_analys.Identity.Monad.{ok}
use criminal_networks_analys.Identity.Canonical.{CanonicalMapReport, rebuild_canonical_map}
use criminal_networks_analys.Identity.Scope.{check_scope_is_current}
use criminal_networks_analys.Identity.Moves.{revision_row, is_revision}
use criminal_networks_analys.Identity.Candidates.{settle_candidate}

-- The tables that the canonical map and the candidate queue are no part of.
pub record SameLedger (s t : Session) : Type 0 where
  pub revisions : t.revisions ≡ s.revisions
  pub next_revision : t.next_revision ≡ s.next_revision
  pub decisions : t.decisions ≡ s.decisions
  pub memberships : t.memberships ≡ s.memberships
  pub mentions : t.mentions ≡ s.mentions
  pub constraints : t.constraints ≡ s.constraints
  pub claims : t.claims ≡ s.claims

pub rebuild-SameLedger :
    {s t : Session} {report : CanonicalMapReport}
    → rebuild_canonical_map s ≡ ok (report, t)
    → SameLedger s t
unfolding rebuild_canonical_map
rebuild-SameLedger h = ground arith

pub settle-SameLedger :
    (candidate : Option ℕ) (disposition : Disposition) (decision : ℕ) {s t : Session} {u : Unit {0}}
    → settle_candidate candidate disposition decision s ≡ ok (u, t)
    → SameLedger s t
unfolding settle_candidate
settle-SameLedger none disposition decision h = ground arith
settle-SameLedger (some c) disposition decision h = ground arith

pub scope-same :
    (parent : ℕ) (scope : List ℕ) {s t : Session} {u : Unit {0}}
    → check_scope_is_current parent scope s ≡ ok (u, t)
    → t ≡ s
unfolding check_scope_is_current
scope-same parent [] h = ground arith
scope-same parent (e ∷ scope) h = ground arith

-- One decision and one revision were added, and the memberships are now `ms`.
pub record Decided (s t : Session) (ms : List IdentityMembership) (d : IdentityDecision)
    : Type 0 where
  pub revisions :
      t.revisions ≡ s.revisions ++ revision_row s.next_revision (some d.decision_id) ∷ []
  pub next_revision : t.next_revision ≡ suc s.next_revision
  pub decisions : t.decisions ≡ s.decisions ++ d ∷ []
  pub result_revision : d.result_revision_id ≡ s.next_revision
  pub known_parent : is_revision d.parent_revision_id s ≡ true
  pub memberships : t.memberships ≡ ms
  pub mentions : t.mentions ≡ s.mentions
  pub claims : t.claims ≡ s.claims

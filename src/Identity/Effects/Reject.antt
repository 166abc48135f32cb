-- ===== src/Identity/Effects/Reject.antt =====
-- What `reject_match` and `mark_unresolved` did to the tables where they succeeded.
use criminal_networks_analys.Common.{ℕ, String, ◌≡◌, Option, arith}
use criminal_networks_analys.Identity.Store.{Session}
use criminal_networks_analys.Identity.Monad.{ok}
use criminal_networks_analys.Identity.Moves.{open_decision}
use criminal_networks_analys.Identity.Adjudication.{
  AdjudicationResult, reject_match, mark_unresolved,
}
use criminal_networks_analys.Identity.Effects.Steps.{Decided, settle-SameLedger}

pub reject-Decided :
    (actor note : String) (parent a b : ℕ) (basis : String) (candidate : Option ℕ) (s : Session)
    {t : Session} {r : AdjudicationResult}
    → reject_match actor note parent a b basis candidate s ≡ ok (r, t)
    → Decided s t s.memberships r.decision
unfolding reject_match open_decision
reject-Decided actor note parent a b basis candidate s h = grind (arith, settle-SameLedger)

pub unresolved-Decided :
    (actor note : String) (parent a b : ℕ) (candidate : Option ℕ) (s : Session) {t : Session}
    {r : AdjudicationResult}
    → mark_unresolved actor note parent a b candidate s ≡ ok (r, t)
    → Decided s t s.memberships r.decision
unfolding mark_unresolved open_decision
unresolved-Decided actor note parent a b candidate s h = grind (arith, settle-SameLedger)

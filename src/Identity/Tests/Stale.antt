-- ===== src/Identity/Tests/Stale.antt =====
-- A decision that was computed before a confirmation, where a third entity holds mention 13.
use criminal_networks_analys.Common.{none, ◌∷◌}
use criminal_networks_analys.Identity.Store.{Session}
use criminal_networks_analys.Identity.Ledger.{opened}
use criminal_networks_analys.Identity.Adjudication.{AdjudicationResult, confirm_match}
use criminal_networks_analys.Identity.Tests.{start, value, no_result}

abbrev three : Session
three = record start { memberships = opened 4 13 3 0 ∷ start.memberships }

abbrev first : AdjudicationResult × Session
first = value (no_result, three) (confirm_match "alice" "same person" 0 10 11 none three)

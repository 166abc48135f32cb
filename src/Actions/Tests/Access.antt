-- ===== src/Actions/Tests/Access.antt =====
-- Runs of the actions on cases and evidence, and the theorems on sequences of actions at such a run.
use native.Mathlib.Decide.{ℕ_discrete}
use criminal_networks_analys.Common.{
  ℕ, ◌+◌, ◌≡◌, refl, String, true, false, none, some, List, [], ◌∷◌, ◌↔◌, inr, length,
}
use criminal_networks_analys.Authz.Tuples.{Tuple3, member, desired_tuples}
use criminal_networks_analys.Authz.Outbox.{Drain, sync, finish, pending_rows}
use criminal_networks_analys.Authz.Rebuilt.{holds}
use criminal_networks_analys.Authz.Memory.{server, server-IsStore}
use criminal_networks_analys.Actions.Ontology.{action, ActionSpec}
use criminal_networks_analys.Actions.Store.{Db, tables}
use criminal_networks_analys.Actions.Cases.{assign_case_member}
use criminal_networks_analys.Actions.Evidence.{
  EvidenceForm, CustodyForm, aware, register_evidence, add_custody_event,
}
use criminal_networks_analys.Audit.Log.{verify, passes}
use criminal_networks_analys.Audit.Appends.{IsNumbered}
use criminal_networks_analys.Actions.Chains.{AreChains, Reach-AreChains}
use criminal_networks_analys.Actions.Logged.{Reach-verify}
use criminal_networks_analys.Actions.Gate.{require_action}
use criminal_networks_analys.Actions.Gated.{satisfies, require_action-exact}
use criminal_networks_analys.Actions.Steps.{Reach, here, next, assigns, registers, transfers, count}
use criminal_networks_analys.Actions.Access.Granting.{IsGranted}
use criminal_networks_analys.Actions.Access.Synced.{actions-sync}
use criminal_networks_analys.Actions.Tests.{rt, ontology, context, start, after, program, drafts}

abbrev evidence_form : EvidenceForm
evidence_form = record {
  description = "a phone";
  evidence_id = some "e1";
  case_id = some "c1";
  record_id = some 5;
  content_hash = none;
  storage_uri = none;
  acquired_at = none;
  acquired_by = none;
  legal_basis = none;
  handling_code = "restricted";
}

abbrev custody_form : String → ℕ → CustodyForm
custody_form to at = record {
  evidence_id = "e1";
  to_actor = to;
  occurred_at = aware at;
  purpose = "analysis";
  from_actor = none;
  hash_checked = false;
  note = none;
}

db1 : Db ℕ
unfolding program
db1 = after (assign_case_member rt ontology context "c1" "u1" "analyst" start)

db2 : Db ℕ
unfolding program
db2 = after (assign_case_member rt ontology context "c1" "u1" "supervisor" db1)

db3 : Db ℕ
unfolding program
db3 = after (register_evidence rt ontology context evidence_form db2)

db4 : Db ℕ
unfolding program
db4 = after (add_custody_event rt ontology context (custody_form "u1" 3) db3)

db5 : Db ℕ
unfolding program
db5 = after (add_custody_event rt ontology context (custody_form "u2" 4) db4)

abbrev Run : Type 0
Run = Reach rt drafts ontology start db5

five : Run
unfolding program db1 db2 db3 db4 db5
five =
    next context
      (next context
        (next context
          (next context (next context here (assigns "c1" "u1" "analyst" _ refl))
            (assigns "c1" "u1" "supervisor" _ refl))
          (registers evidence_form _ refl))
        (transfers (custody_form "u1" 3) _ refl))
      (transfers (custody_form "u2" 4) _ refl)

start-IsGranted : IsGranted server [] start
unfolding desired_tuples
start-IsGranted = record { keyed = tt; leads = ([], tt, refl, λ t. refl) }

actions-sync_example :
    (d : Drain (List Tuple3)) × (sync server none 9 db5.outbox [] ≡ finish server db5.outbox d)
    × (d.report.error ≡ none)
    × (d.report.processed ≡ length (pending_rows none db5.outbox))
    × ((t : Tuple3) → holds server t d.store ≡ member t (desired_tuples (tables db5)))
actions-sync_example =
    actions-sync server rt drafts ontology 9 [] start db5 server-IsStore start-IsGranted five

AreChains-start : AreChains start.custody
AreChains-start id = tt

Reach-AreChains_example : AreChains db5.custody
Reach-AreChains_example = Reach-AreChains rt drafts ontology start db5 five AreChains-start

start_verifies : verify ℕ_discrete rt.digest rt.genesis start.audit ≡ passes 0
unfolding program
start_verifies = refl

Reach-verify_example :
    IsNumbered db5.audit
    × (verify ℕ_discrete rt.digest rt.genesis db5.audit
        ≡ passes (count rt drafts ontology five + 0))
Reach-verify_example = Reach-verify rt drafts ontology ℕ_discrete 0 start db5 five tt start_verifies

require_action-exact_example :
    (require_action ontology "adjudicate_identity" (some context) ("protected_person" ∷ []) start
      ≡ inr (tt, start))
    ↔ ((spec : ActionSpec) × (action ontology "adjudicate_identity" ≡ some spec)
        × (satisfies spec context ("protected_person" ∷ []) ≡ true))
require_action-exact_example =
    require_action-exact ontology "adjudicate_identity" context ("protected_person" ∷ []) start

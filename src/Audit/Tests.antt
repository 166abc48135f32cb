-- ===== src/Audit/Tests.antt =====
-- Runs of the audit chain, with the list of all events so far as the hash.
use mathlib.Core.HLevel.{Discrete}
use text.Mathlib.Text.{◌==◌ as str_eq}
use text.Mathlib.TextEquality.{eq_iff}
use native.Mathlib.Decide.{ℕ_discrete}
use criminal_networks_analys.Common.{
  ◌≡◌, refl, ap, String, none, some, List, [], ◌∷◌, ◌⊎◌, inl, inr, length, arith, Bool-cases,
}
use criminal_networks_analys.Audit.Log.{
  Event, AuditLog, Log, Entry, AuditError, Verdict, allow, deny, verify, append, passes, by_id,
}
use criminal_networks_analys.Audit.Appends.{IsNumbered, append-verify}
use criminal_networks_analys.Audit.Tamper.{IsCollisionFree, newest_first, verify-tamper}

String-discrete : Discrete String
String-discrete s t = elim (Bool-cases (str_eq s t)) [
  | inl same ↦ yes ((eq_iff s t).0 same)
  | inr other ↦ no (λ e. ground (arith, other, (eq_iff s t).1 e))
]

Verdict-discrete : Discrete Verdict
Verdict-discrete = hlevel

Event-discrete : Discrete Event
Event-discrete = hlevel (ℕ_discrete, String-discrete)

abbrev Trace : Type 0
Trace = List Event

Trace-discrete : Discrete Trace
Trace-discrete = hlevel (Event-discrete)

abbrev traced : Trace → Event → Trace
traced h e = e ∷ h

abbrev first_or : Event → Trace → Event
first_or d [] = d
first_or d (e ∷ h) = e

abbrev rest_of : Trace → Trace
rest_of [] = []
rest_of (e ∷ h) = h

traced-IsCollisionFree : IsCollisionFree traced []
traced-IsCollisionFree = record {
  same_hash = λ g h d e q. ap rest_of q;
  same_event = λ g h d e q. ap (first_or d) q;
  not_genesis = λ h e q. ground (arith, ap length q);
}

abbrev new_log : Log Trace
new_log = record { rows = []; sequence = 1; now = 50 }

abbrev entry : Verdict → Entry
entry decision = record {
  actor = "alice";
  action = "claim.read";
  decision = decision;
  session_id = none;
  purpose = none;
  case_id = some "case_1";
  resource_type = none;
  resource_id = none;
  detail = none;
  at = none;
}

abbrev value :
    AuditError ⊎ (AuditLog Trace × Log Trace)
    → AuditLog Trace × Log Trace
    → AuditLog Trace × Log Trace
value (inl e) d = d
value (inr r) d = r

abbrev no_row : AuditLog Trace
no_row = record {
  event = record {
    id = 0;
    at = 0;
    actor = "";
    session_id = none;
    purpose = none;
    case_id = none;
    action = "";
    resource_type = none;
    resource_id = none;
    decision = deny;
    detail = "";
  };
  prev_hash = [];
  entry_hash = [];
}

abbrev one : AuditLog Trace × Log Trace
one = value (append traced [] (entry allow) new_log) (no_row, new_log)

abbrev two : AuditLog Trace × Log Trace
two = value (append traced [] (entry deny) one.1) (no_row, new_log)

one_runs : append traced [] (entry allow) new_log ≡ inr one
unfolding append
one_runs = refl

two_runs : append traced [] (entry deny) one.1 ≡ inr two
unfolding append
two_runs = refl

new_valid : verify Trace-discrete traced [] new_log ≡ passes 0
unfolding verify
new_valid = refl

one_valid : IsNumbered one.1 × (verify Trace-discrete traced [] one.1 ≡ passes 1)
one_valid = append-verify Trace-discrete traced [] (entry allow) new_log 0 tt new_valid one_runs

two_valid : verify Trace-discrete traced [] two.1 ≡ passes 2
two_valid =
    (append-verify Trace-discrete traced [] (entry deny) one.1 1 one_valid.0 one_valid.1 two_runs).1

append-verify_example : IsNumbered two.1 × (verify Trace-discrete traced [] two.1 ≡ passes 2)
append-verify_example =
    append-verify Trace-discrete traced [] (entry deny) one.1 1 one_valid.0 one_valid.1 two_runs

-- A log whose table lost its last row, and had one appended again.
abbrev again : AuditLog Trace × Log Trace
again = value (append traced [] (entry deny) (record one.1 { sequence = 2 })) (no_row, new_log)

verify-tamper_example : newest_first [] (by_id two.1.rows) ≡ newest_first [] (by_id again.1.rows)
unfolding append
verify-tamper_example =
    verify-tamper Trace-discrete traced [] two.1 again.1 2 2 traced-IsCollisionFree two_valid
      two_valid refl

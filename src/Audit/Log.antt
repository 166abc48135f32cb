-- ===== src/Audit/Log.antt =====
-- aegis/audit/chain.py: the rows of the chain, `append` and `verify`. A hash is a value of any type with
-- a decidable equality. The digest of a canonical event after the previous hash, which SHA-256 and JSON
-- compute, is a parameter, and so is the hash that stands before the first row.
use Prim.Native.Char.{code}
use Prim.Native.String.{[] as end_of_text, ◌∷◌ as char_then}
use mathlib.Core.Logic.{ite}
use mathlib.Core.HLevel.{Discrete}
use criminal_networks_analys.Common.{
  ℕ, suc, String, Bool, true, false, ◌&&◌, ◌||◌, Option, none, some, List, [], ◌∷◌, ◌++◌, leb, ◌==◌,
  if◌then◌else◌, sort_by, ◌⊎◌, inl, inr,
}

abbrev between : ℕ → ℕ → ℕ → Bool
between low high n = leb low n && leb n high

-- The characters that `str.strip` removes.
abbrev is_space : ℕ → Bool
is_space n =
    between 9 13 n
    || between 28 32 n
    || n == 133
    || n == 160
    || n == 5760
    || between 8192 8202 n
    || between 8232 8233 n
    || n == 8239
    || n == 8287
    || n == 12288

-- `not text.strip()`
unfoldable pub is_blank : String → Bool
is_blank end_of_text = true
is_blank (char_then c s) = is_space (code c) && is_blank s

pub data Verdict : Type 0 where
  allow deny : Verdict

-- What `canonical_event` returns: every column but the two hashes.
pub record Event : Type 0 where
  pub id : ℕ
  pub at : ℕ
  pub actor : String
  pub session_id : Option String
  pub purpose : Option String
  pub case_id : Option String
  pub action : String
  pub resource_type : Option String
  pub resource_id : Option String
  pub decision : Verdict
  pub detail : String

pub record AuditLog (H : Type 0) : Type 0 where
  pub event : Event
  pub prev_hash : H
  pub entry_hash : H

-- The arguments of `append`; `detail` is canonical JSON.
pub record Entry : Type 0 where
  pub actor : String
  pub action : String
  pub decision : Verdict
  pub session_id : Option String
  pub purpose : Option String
  pub case_id : Option String
  pub resource_type : Option String
  pub resource_id : Option String
  pub detail : Option String
  pub at : Option ℕ

pub data AuditError : Type 0 where
  blank_actor blank_action : AuditError

-- The table, the sequence of its identifiers and the clock.
pub record Log (H : Type 0) : Type 0 where
  pub rows : List (AuditLog H)
  pub sequence : ℕ
  pub now : ℕ

pub data Reason : Type 0 where
  wrong_previous wrong_entry : Reason

pub record VerificationReport (H : Type 0) : Type 0 where
  pub valid : Bool
  pub checked : ℕ
  pub failed_id : Option ℕ
  pub reason : Option Reason
  pub expected : Option H
  pub actual : Option H

abbrev pub or_default {ℓ} : {A : Type ℓ} → Option A → A → A
or_default none d = d
or_default (some a) d = a

abbrev pub event_of : ℕ → ℕ → Entry → Event
event_of id now e = record {
  id = id;
  at = or_default e.at now;
  actor = e.actor;
  session_id = e.session_id;
  purpose = e.purpose;
  case_id = e.case_id;
  action = e.action;
  resource_type = e.resource_type;
  resource_id = e.resource_id;
  decision = e.decision;
  detail = or_default e.detail "{}";
}

module _ {H : Type 0} where
  abbrev pub by_id : List (AuditLog H) → List (AuditLog H)
  by_id rows = sort_by (λ r. r.event.id) rows

  -- The entry hash of the last row, or what stands before the first one.
  abbrev pub head_hash : H → List (AuditLog H) → H
  head_hash before [] = before
  head_hash before (r ∷ rs) = head_hash r.entry_hash rs

  abbrev pub passes : ℕ → VerificationReport H
  passes n = record {
    valid = true;
    checked = n;
    failed_id = none;
    reason = none;
    expected = none;
    actual = none;
  }

  abbrev pub fails : ℕ → ℕ → Reason → H → H → VerificationReport H
  fails n id reason expected actual = record {
    valid = false;
    checked = n;
    failed_id = some id;
    reason = some reason;
    expected = some expected;
    actual = some actual;
  }

  -- The loop of `verify`, over the rows in the order of their identifiers.
  unfoldable pub check :
      Discrete H → (H → Event → H) → H → ℕ → List (AuditLog H) → VerificationReport H
  check decide digest before n [] = passes n
  check decide digest before n (r ∷ rs) =
      let rest = check decide digest r.entry_hash (suc n) rs in
      ite (decide r.prev_hash before)
        (ite (decide r.entry_hash (digest r.prev_hash r.event)) rest
          (fails n r.event.id wrong_entry (digest r.prev_hash r.event) r.entry_hash))
        (fails n r.event.id wrong_previous before r.prev_hash)

  unfoldable pub verify : Discrete H → (H → Event → H) → H → Log H → VerificationReport H
  unfolding check
  verify decide digest genesis log = check decide digest genesis 0 (by_id log.rows)

  abbrev pub chained : (H → Event → H) → H → Event → AuditLog H
  chained digest before e = record { event = e; prev_hash = before; entry_hash = digest before e }

  -- The row that `append` adds: the next identifier, after the row with the highest one.
  abbrev pub next_row : (H → Event → H) → H → Entry → Log H → AuditLog H
  next_row digest genesis e log =
      chained digest (head_hash genesis (by_id log.rows)) (event_of log.sequence log.now e)

  abbrev pub add_row : AuditLog H → Log H → Log H
  add_row r log = record log { rows = log.rows ++ r ∷ []; sequence = suc log.sequence }

  unfoldable pub append : (H → Event → H) → H → Entry → Log H → AuditError ⊎ (AuditLog H × Log H)
  unfolding is_blank
  append digest genesis e log =
      if is_blank e.actor
      then inl blank_actor
      else if is_blank e.action
      then inl blank_action
      else inr (next_row digest genesis e log, add_row (next_row digest genesis e log) log)

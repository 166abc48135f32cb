-- ===== src/Actions/Monad.antt =====
-- One action on the database. A raise discards what was written: each action runs in a transaction, or in
-- a savepoint of the one that the caller began, and is rolled back as a whole.
use criminal_networks_analys.Common.{
  suc, String, ◌≡◌, refl, ◌⊎◌, inl, inr, Bool, true, false, Option, none, some, [], ◌∷◌, ◌++◌,
}
use criminal_networks_analys.Identity.Monad.{Error, Result, ok, err, Work}
use criminal_networks_analys.Identity.Store.{Session}
use criminal_networks_analys.Audit.Log.{AuditError, AuditLog, Log}
use criminal_networks_analys.Authz.Tuples.{Tuple3}
use criminal_networks_analys.Authz.Outbox.{AuthzOutbox, Op}
use criminal_networks_analys.Actions.Store.{Db}

-- `ActionValidationError` with its path, an error of the identity ledger or of the audit log that passes
-- through, a constraint of the database, or a `KeyError`.
pub data ActionError : Type 0 where
  validation : String → ActionError
  identity_error : Error → ActionError
  audit_error : AuditError → ActionError
  integrity : String → ActionError
  key_error : String → ActionError

abbrev pub Act : Type 0 → Type 0 → Type 0
Act H A = Db H → ActionError ⊎ (A × Db H)

module _ {H : Type 0} where
  module _ {A : Type 0} where
    abbrev pub pure : A → Act H A
    pure a db = inr (a, db)

    abbrev pub raise : ActionError → Act H A
    raise e db = inl e

    abbrev pub gets : (Db H → A) → Act H A
    gets f db = inr (f db, db)

    abbrev pub or_raise : Option A → ActionError → Act H A
    or_raise none e = raise e
    or_raise (some a) e = pure a

  abbrev pub continue :
      {A B : Type 0} → ActionError ⊎ (A × Db H) → (A → Act H B) → ActionError ⊎ (B × Db H)
  continue (inl e) f = inl e
  continue (inr (a, db)) f = f a db

  infixl 5 ◌>>=◌ ◌>>◌
  abbrev pub ◌>>=◌ : {A B : Type 0} → Act H A → (A → Act H B) → Act H B
  ◌>>=◌ m f db = continue (m db) f

  abbrev pub ◌>>◌ : {A B : Type 0} → Act H A → Act H B → Act H B
  m >> k = m >>= λ _. k

  abbrev pub modify : (Db H → Db H) → Act H (Unit {0})
  modify f db = inr (tt, f db)

  abbrev pub raise_if : Bool → ActionError → Act H (Unit {0})
  raise_if true e db = inl e
  raise_if false e db = inr (tt, db)

  -- `_outbox`
  abbrev pub outbox_row : Op → Tuple3 → Db H → AuthzOutbox
  outbox_row op t db = record {
    outbox_id = db.next_outbox;
    op = op;
    fga_tuple = t;
    created_at = db.identity.now;
    processed_at = none;
    attempts = 0;
    last_error = none;
  }

  abbrev pub queue : Op → Tuple3 → Db H → Db H
  queue op t db = record db {
    outbox = db.outbox ++ outbox_row op t db ∷ [];
    next_outbox = suc db.next_outbox;
  }

  -- A unit of work on the identity tables.
  abbrev pub identity_result : {A : Type 0} → Db H → Result (A × Session) → ActionError ⊎ (A × Db H)
  identity_result db (err e) = inl (identity_error e)
  identity_result db (ok (a, s)) = inr (a, record db { identity = s })

  abbrev pub on_identity : {A : Type 0} → Work A → Act H A
  on_identity w db = identity_result db (w db.identity)

  abbrev pub audit_result :
      Db H → AuditError ⊎ (AuditLog H × Log H) → ActionError ⊎ (Unit {0} × Db H)
  audit_result db (inl e) = inl (audit_error e)
  audit_result db (inr (r, log)) = inr (tt, record db { audit = log })

  continue-eq-inr :
      {A B : Type 0} (r : ActionError ⊎ (A × Db H)) (f : A → Act H B) {b : B} {d : Db H}
      → continue r f ≡ inr (b, d)
      → (a : A) × (c : Db H) × (r ≡ inr (a, c)) × (f a c ≡ inr (b, d))
  continue-eq-inr (inr (a, c)) f h = (a, c, refl, h)
  continue-eq-inr (inl e) f h = cc

  -- What a successful block did: its first step succeeded, and the rest did from there.
  pub >>=-eq-inr :
      {A B : Type 0} (m : Act H A) (f : A → Act H B) (db : Db H) {b : B} {d : Db H}
      → (m >>= f) db ≡ inr (b, d)
      → (a : A) × (c : Db H) × (m db ≡ inr (a, c)) × (f a c ≡ inr (b, d))
  >>=-eq-inr m f db h = continue-eq-inr (m db) f h

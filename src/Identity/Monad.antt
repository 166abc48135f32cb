-- ===== src/Identity/Monad.antt =====
-- A unit of work on the session. A raise discards what was written: the action service runs each
-- operation in one transaction and rolls it back.
use criminal_networks_analys.Common.{
  ℕ, suc, String, ◌≡◌, refl, ◌⊎◌, inl, inr, Bool, true, false, Option, none, some, List,
}
use criminal_networks_analys.Identity.Store.{Session, IdentityDecision, Disposition}

-- `LedgerError`, `CanonicalMapError`, `AdjudicationError` with one case for each message,
-- `StaleRevisionError` with what it carries, the `AttributeError` of a missing row, and a constraint of
-- the schema that an insert violates.
pub data Error : Type 0 where
  not_migrated : Error
  already_member : ℕ → Error
  nothing_to_confirm : Error
  stale : ℕ → List IdentityDecision → Error
  empty_split : Error
  stray : List ℕ → Error
  moves_everything : Error
  no_such_entity : ℕ → Error
  no_entity : ℕ → Error
  no_such_candidate : ℕ → Error
  already_settled : Disposition → Error
  lineage_cycle : List ℕ → Error
  missing_row : Error
  violated : String → Error
  out_of_fuel : Error

pub data Result {ℓ} (A : Type ℓ) : Type ℓ where
  ok : A → Result A
  err : Error → Result A

pub Result-cases {ℓ} :
    {A : Type ℓ} (r : Result A) → ((a : A) × (r ≡ ok a)) ⊎ ((e : Error) × (r ≡ err e))
Result-cases (ok a) = inl (a, refl)
Result-cases (err e) = inr (e, refl)

abbrev pub Work : Type 0 → Type 0
Work A = Session → Result (A × Session)

module _ {A : Type 0} where
  abbrev pub pure : A → Work A
  pure a s = ok (a, s)

  abbrev pub raise : Error → Work A
  raise e s = err e

  abbrev pub gets : (Session → A) → Work A
  gets f s = ok (f s, s)

  abbrev pub or_raise : Option A → Error → Work A
  or_raise none e = raise e
  or_raise (some a) e = pure a

abbrev pub continue : {A B : Type 0} → Result (A × Session) → (A → Work B) → Result (B × Session)
continue (ok (a, s)) f = f a s
continue (err e) f = err e

infixl 5 ◌>>=◌ ◌>>◌
abbrev pub ◌>>=◌ : {A B : Type 0} → Work A → (A → Work B) → Work B
◌>>=◌ m f s = continue (m s) f

abbrev pub ◌>>◌ : {A B : Type 0} → Work A → Work B → Work B
m >> k = m >>= λ _. k

abbrev pub modify : (Session → Session) → Work (Unit {0})
modify f s = ok (tt, f s)

abbrev pub raise_if : Bool → Error → Work (Unit {0})
raise_if true e s = err e
raise_if false e s = ok (tt, s)

-- `new_id(prefix)`
abbrev pub new_id : Work ℕ
new_id s = ok (s.ids s.drawn, record s { drawn = suc s.drawn })

continue-eq-ok :
    {A B : Type 0} (r : Result (A × Session)) (f : A → Work B) {b : B} {t : Session}
    → continue r f ≡ ok (b, t)
    → (a : A) × (u : Session) × (r ≡ ok (a, u)) × (f a u ≡ ok (b, t))
continue-eq-ok (ok (a, u)) f h = (a, u, refl, h)
continue-eq-ok (err e) f h = cc

-- What a successful block did: its first step succeeded, and the rest did from there.
pub >>=-eq-ok :
    {A B : Type 0} (m : Work A) (f : A → Work B) (s : Session) {b : B} {t : Session}
    → (m >>= f) s ≡ ok (b, t)
    → (a : A) × (u : Session) × (m s ≡ ok (a, u)) × (f a u ≡ ok (b, t))
>>=-eq-ok m f s h = continue-eq-ok (m s) f h

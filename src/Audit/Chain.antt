-- ===== src/Audit/Chain.antt =====
-- The loop of `verify`: what it means that it passes, and how it goes on over a longer chain.
use mathlib.Core.Logic.{ite}
use mathlib.Core.HLevel.{Discrete}
use criminal_networks_analys.Common.{ℕ, suc, ◌≡◌, refl, ◌∙◌, List, [], ◌∷◌, ◌++◌, arith, ◌≢◌, ap}
use criminal_networks_analys.Audit.Log.{
  Event, AuditLog, Reason, wrong_previous, wrong_entry, check, passes, fails, head_hash, chained,
}

ite_holds : {P C : Type 0} (d : Dec P) (x y : C) → P → ite d x y ≡ x
ite_holds (yes p) x y q = refl
ite_holds (no n) x y q = absurd (n q)

ite_passes : {P C : Type 0} (d : Dec P) (x y z : C) → ite d x y ≡ z → y ≢ z → P × (x ≡ z)
ite_passes (yes p) x y z h other = (p, h)
ite_passes (no n) x y z h other = absurd (other h)

module _ {H : Type 0} (decide : Discrete H) (digest : H → Event → H) where
  fails-passes :
      (n m id : ℕ) (reason : Reason) (expected actual : H)
      → fails n id reason expected actual ≢ passes m
  fails-passes n m id reason expected actual e = ground (arith, ap (λ r. r.valid) e)

  -- The loop passes a row only if both of its hashes are what they should be.
  pub check-passes :
      (before : H) (n m : ℕ) (r : AuditLog H) (rs : List (AuditLog H))
      → check decide digest before n (r ∷ rs) ≡ passes m
      → (r.prev_hash ≡ before)
        × (r.entry_hash ≡ digest r.prev_hash r.event)
        × (check decide digest r.entry_hash (suc n) rs ≡ passes m)
  unfolding check
  check-passes before n m r rs h =
      let (previous, h') =
        ite_passes (decide r.prev_hash before) _ _ (passes m) h
          (fails-passes n m r.event.id wrong_previous before r.prev_hash) in
      let (entry, rest) =
        ite_passes (decide r.entry_hash (digest r.prev_hash r.event)) _ _ (passes m) h'
          (fails-passes n m r.event.id wrong_entry (digest r.prev_hash r.event) r.entry_hash) in
      (previous, entry, rest)

  check-next :
      (before : H) (n : ℕ) (r : AuditLog H) (rs : List (AuditLog H))
      → r.prev_hash ≡ before
      → r.entry_hash ≡ digest r.prev_hash r.event
      → check decide digest before n (r ∷ rs) ≡ check decide digest r.entry_hash (suc n) rs
  unfolding check
  check-next before n r rs previous entry =
      ite_holds (decide r.prev_hash before) _ _ previous
      ∙ ite_holds (decide r.entry_hash (digest r.prev_hash r.event)) _ _ entry

  -- A loop that passed goes on from the last row's hash.
  pub check-append :
      (before : H) (n m : ℕ) (rs ss : List (AuditLog H))
      → check decide digest before n rs ≡ passes m
      → check decide digest before n (rs ++ ss) ≡ check decide digest (head_hash before rs) m ss
  unfolding check
  check-append before n m [] ss h = let same : n ≡ m = ap (λ r. r.checked) h in rw same refl
  check-append before n m (r ∷ rs) ss h =
      let (previous, entry, rest) = check-passes before n m r rs h in
      check-next before n r (rs ++ ss) previous entry
      ∙ check-append r.entry_hash (suc n) m rs ss rest

  pub check-chained :
      (before : H) (n : ℕ) (e : Event)
      → check decide digest before n (chained digest before e ∷ []) ≡ passes (suc n)
  unfolding check
  check-chained before n e = check-next before n (chained digest before e) [] refl refl

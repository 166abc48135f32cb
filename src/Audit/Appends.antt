-- ===== src/Audit/Appends.antt =====
-- The lemmas and the theorem on `append` and `verify`.
use mathlib.Core.HLevel.{Discrete}
use criminal_networks_analys.Common.{
  ℕ, suc, ◌<◌, ◌≡◌, refl, ◌∙◌, ap, List, [], ◌∷◌, arith, All, All-append, sort_by-last, inr,
}
use criminal_networks_analys.Audit.Log.{
  Event, AuditLog, Log, Entry, check, verify, append, passes, head_hash, by_id, next_row, add_row,
}
use criminal_networks_analys.Audit.Chain.{check-append, check-chained}

module _ {H : Type 0} where
  -- No row has an identifier that the sequence has not given out.
  abbrev pub IsNumbered : Log H → Type 0
  IsNumbered log = All (λ r. r.event.id < log.sequence) log.rows

  IsNumbered-suc :
      (n : ℕ) (rs : List (AuditLog H))
      → All (λ r. r.event.id < n) rs
      → All (λ r. r.event.id < suc n) rs
  IsNumbered-suc n [] hs = tt
  IsNumbered-suc n (r ∷ rs) hs = (omega (arith, hs.0), IsNumbered-suc n rs hs.1)

  pub append-adds :
      (digest : H → Event → H) (genesis : H) (e : Entry) (log : Log H) {r : AuditLog H}
      {log' : Log H}
      → append digest genesis e log ≡ inr (r, log')
      → log' ≡ add_row (next_row digest genesis e log) log
  unfolding append
  append-adds digest genesis e log h = ground arith

  -- Appending to a numbered log that verifies gives a numbered log that verifies, with one more row.
  pub append-verify :
      (decide : Discrete H) (digest : H → Event → H) (genesis : H) (e : Entry) (log : Log H) (n : ℕ)
      {r : AuditLog H} {log' : Log H}
      → IsNumbered log
      → verify decide digest genesis log ≡ passes n
      → append digest genesis e log ≡ inr (r, log')
      → IsNumbered log' × (verify decide digest genesis log' ≡ passes (suc n))
  unfolding verify
  append-verify decide digest genesis e log n numbered valid h =
      rw (append-adds digest genesis e log h) (
        All-append (λ r. r.event.id < suc log.sequence) log.rows _
            (IsNumbered-suc log.sequence log.rows numbered) (omega arith, tt),
        ap (check decide digest genesis 0) (
              sort_by-last (λ r. r.event.id) log.sequence log.rows (next_row digest genesis e log)
                numbered refl)
            ∙ check-append decide digest genesis 0 n (by_id log.rows) _ valid
            ∙ check-chained decide digest (head_hash genesis (by_id log.rows)) n _,
      )

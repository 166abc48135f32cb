-- ===== src/Audit/Tamper.antt =====
-- Two logs that `verify` passes, compared from their newest rows back.
use mathlib.Core.HLevel.{Discrete}
use criminal_networks_analys.Common.{ℕ, suc, ◌≡◌, ◌≢◌, refl, sym, ◌∙◌, ap, List, [], ◌∷◌}
use criminal_networks_analys.Audit.Log.{
  Event, AuditLog, Log, check, verify, passes, head_hash, by_id,
}
use criminal_networks_analys.Audit.Chain.{check-passes}

module _ {H : Type 0} where
  -- The rows from the newest to the oldest, put in front of older ones.
  abbrev pub newest_first : List (AuditLog H) → List (AuditLog H) → List (AuditLog H)
  newest_first older [] = older
  newest_first older (r ∷ rs) = newest_first (r ∷ older) rs

  -- The entry hash of the newest row.
  abbrev newest_hash : H → List (AuditLog H) → H
  newest_hash genesis [] = genesis
  newest_hash genesis (r ∷ rs) = r.entry_hash

  -- Each row is hashed onto the one before it.
  abbrev IsLinked : (H → Event → H) → H → List (AuditLog H) → Type 0
  IsLinked digest genesis [] = Unit
  IsLinked digest genesis (r ∷ rs) =
      (r.prev_hash ≡ newest_hash genesis rs)
      × (r.entry_hash ≡ digest r.prev_hash r.event)
      × IsLinked digest genesis rs

  -- What is assumed of the digest: no two inputs have one hash, and none has the genesis hash.
  pub record IsCollisionFree (digest : H → Event → H) (genesis : H) : Type 0 where
    pub same_hash : (g h : H) (d e : Event) → digest g d ≡ digest h e → g ≡ h
    pub same_event : (g h : H) (d e : Event) → digest g d ≡ digest h e → d ≡ e
    pub not_genesis : (h : H) (e : Event) → digest h e ≢ genesis

  check-IsLinked :
      (decide : Discrete H) (digest : H → Event → H) (genesis : H) (older rs : List (AuditLog H))
      (n m : ℕ)
      → IsLinked digest genesis older
      → check decide digest (newest_hash genesis older) n rs ≡ passes m
      → IsLinked digest genesis (newest_first older rs)
        × (head_hash (newest_hash genesis older) rs ≡ newest_hash genesis (newest_first older rs))
  check-IsLinked decide digest genesis older [] n m l h = (l, refl)
  check-IsLinked decide digest genesis older (r ∷ rs) n m l h =
      let (previous, entry, rest) = check-passes decide digest _ n m r rs h in
      check-IsLinked decide digest genesis (r ∷ older) rs (suc n) m (previous, entry, l) rest

  row_unique :
      (digest : H → Event → H) (genesis : H) (r x : AuditLog H)
      → IsCollisionFree digest genesis
      → r.entry_hash ≡ digest r.prev_hash r.event
      → x.entry_hash ≡ digest x.prev_hash x.event
      → r.entry_hash ≡ x.entry_hash
      → r ≡ x
  row_unique digest genesis r x free er ex same =
      let inputs = sym er ∙ same ∙ ex in
      λ i. record {
        event = free.same_event r.prev_hash x.prev_hash r.event x.event inputs i;
        prev_hash = free.same_hash r.prev_hash x.prev_hash r.event x.event inputs i;
        entry_hash = same i;
      }

  linked_unique :
      (digest : H → Event → H) (genesis : H) (rs xs : List (AuditLog H))
      → IsCollisionFree digest genesis
      → IsLinked digest genesis rs
      → IsLinked digest genesis xs
      → newest_hash genesis rs ≡ newest_hash genesis xs
      → rs ≡ xs
  linked_unique digest genesis [] [] free l k same = refl
  linked_unique digest genesis [] (x ∷ xs) free l k same =
      absurd (free.not_genesis x.prev_hash x.event (sym (same ∙ k.1)))
  linked_unique digest genesis (r ∷ rs) [] free l k same =
      absurd (free.not_genesis r.prev_hash r.event (sym l.1 ∙ same))
  linked_unique digest genesis (r ∷ rs) (x ∷ xs) free l k same =
      let first_row = row_unique digest genesis r x free l.1 k.1 same in
      let rest =
        linked_unique digest genesis rs xs free l.2 k.2
          (sym l.0 ∙ ap (λ y. y.prev_hash) first_row ∙ k.0) in
      λ i. first_row i ∷ rest i

  -- If the digest is free of collisions, two logs that both verify and whose last entry hashes agree
  -- have the same rows: no event can be changed, removed, added or moved and go unnoticed.
  pub verify-tamper :
      (decide : Discrete H) (digest : H → Event → H) (genesis : H) (log forged : Log H) (n m : ℕ)
      → IsCollisionFree digest genesis
      → verify decide digest genesis log ≡ passes n
      → verify decide digest genesis forged ≡ passes m
      → head_hash genesis (by_id log.rows) ≡ head_hash genesis (by_id forged.rows)
      → newest_first [] (by_id log.rows) ≡ newest_first [] (by_id forged.rows)
  unfolding verify
  verify-tamper decide digest genesis log forged n m free valid valid' same =
      let (linked, end) = check-IsLinked decide digest genesis [] (by_id log.rows) 0 n tt valid in
      let (linked', end') =
        check-IsLinked decide digest genesis [] (by_id forged.rows) 0 m tt valid' in
      linked_unique digest genesis _ _ free linked linked' (sym end ∙ same ∙ end')

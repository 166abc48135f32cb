-- ===== src/Authz/Batch.antt =====
-- The rows that one run of `sync` takes from the outbox, and the table that it leaves.
use criminal_networks_analys.Common.{
  ℕ, zero, suc, ◌≤◌, ◌≡◌, ◌≢◌, refl, ap, ◌∙◌, Bool, ◌&&◌, Option, none, some, List, [], ◌∷◌, ◌++◌,
  map, arith, any, any-sort_by, any-select, select, sort_by, insert_by, length, ◌==◌, if◌then◌else◌,
  Option-cases, inl, inr,
}
use criminal_networks_analys.Authz.Outbox.{
  AuthzOutbox, Server, is_pending, take, limited, pending_rows, processed, updated,
}

-- The oldest row comes first.
abbrev pub IsOrdered : List AuthzOutbox → Type 0
IsOrdered [] = Unit
IsOrdered (r ∷ []) = Unit
IsOrdered (r ∷ s ∷ rs) = (r.outbox_id ≤ s.outbox_id) × IsOrdered (s ∷ rs)

IsOrdered-insert_by :
    (r : AuthzOutbox) (rs : List AuthzOutbox)
    → IsOrdered rs
    → IsOrdered (insert_by (λ r. r.outbox_id) r rs)
IsOrdered-insert_by r [] o = tt
IsOrdered-insert_by r (s ∷ []) o = ground arith
IsOrdered-insert_by r (s ∷ t ∷ ts) o = ground (arith, o, IsOrdered-insert_by r (t ∷ ts))

pub IsOrdered-sort_by : (rs : List AuthzOutbox) → IsOrdered (sort_by (λ r. r.outbox_id) rs)
IsOrdered-sort_by [] = tt
IsOrdered-sort_by (r ∷ rs) =
    IsOrdered-insert_by r (sort_by (λ r. r.outbox_id) rs) (IsOrdered-sort_by rs)

-- What a limit leaves for later.
abbrev left_over {ℓ} : {A : Type ℓ} → ℕ → List A → List A
left_over n [] = []
left_over zero (x ∷ xs) = x ∷ xs
left_over (suc n) (x ∷ xs) = left_over n xs

abbrev pub beyond : Option ℕ → List AuthzOutbox → List AuthzOutbox
beyond none rs = []
beyond (some n) rs = left_over n rs

-- A run takes all rows, or as many as the limit allows.
abbrev pub FitsLimit : Option ℕ → List AuthzOutbox → List AuthzOutbox → Type 0
FitsLimit none batch later = later ≡ []
FitsLimit (some n) batch later = (length batch ≤ n) × (later ≢ [] → length batch ≡ n)

take-left_over : (n : ℕ) (rs : List AuthzOutbox) → take n rs ++ left_over n rs ≡ rs
take-left_over n [] = refl
take-left_over zero (r ∷ rs) = refl
take-left_over (suc n) (r ∷ rs) = ap (λ l. r ∷ l) (take-left_over n rs)

pub limited-beyond :
    (limit : Option ℕ) (rs : List AuthzOutbox) → limited limit rs ++ beyond limit rs ≡ rs
limited-beyond none [] = refl
limited-beyond none (r ∷ rs) = ap (λ l. r ∷ l) (limited-beyond none rs)
limited-beyond (some n) rs = take-left_over n rs

fits : (n : ℕ) (rs : List AuthzOutbox) → FitsLimit (some n) (take n rs) (left_over n rs)
fits n [] = (omega arith, λ more. absurd (more refl))
fits zero (r ∷ rs) = (omega arith, λ more. refl)
fits (suc n) (r ∷ rs) =
    let (le, full) = fits n rs in (omega (arith, le), λ more. omega (arith, full more))

pub limited-FitsLimit :
    (limit : Option ℕ) (rs : List AuthzOutbox)
    → FitsLimit limit (limited limit rs) (beyond limit rs)
limited-FitsLimit none rs = refl
limited-FitsLimit (some n) rs = fits n rs

-- The row of the identifier.
abbrev pub get_row : ℕ → List AuthzOutbox → Option AuthzOutbox
get_row i [] = none
get_row i (r ∷ rs) = if r.outbox_id == i then some r else get_row i rs

abbrev pub or_else : Option AuthzOutbox → AuthzOutbox → AuthzOutbox
or_else none r = r
or_else (some s) r = s

-- A row of the table after a run: one that was applied is marked as processed, one that was left with a
-- mark of its failure has it, and any other is as it was.
abbrev pub row_after :
    ℕ → List AuthzOutbox → List AuthzOutbox → ℕ → Option AuthzOutbox → Option AuthzOutbox
row_after now applied left i none = none
row_after now applied left i (some r) = elim (get_row i applied) [
  | some a ↦
      some (record a { attempts = suc a.attempts; processed_at = some now; last_error = none })
  | none ↦ some (or_else (get_row i left) r)
]

module _ {F : Type 0} (server : Server F) where
  get_row-map-updated :
      (us : List AuthzOutbox) (i : ℕ) (table : List AuthzOutbox)
      → get_row i (map (updated server us) table)
        ≡ (elim (get_row i table) [ none ↦ none | some r ↦ some (updated server us r) ])
  get_row-map-updated us i [] = refl
  get_row-map-updated us i (r ∷ rs) = ground (arith, updated-id us r, get_row-map-updated us i rs)
    where
      updated-id :
          (us : List AuthzOutbox) (r : AuthzOutbox) → (updated server us r).outbox_id ≡ r.outbox_id
      updated-id [] r = refl
      updated-id (u ∷ us) r = ground (arith, updated-id us r)

  updated-get_row :
      (us : List AuthzOutbox) (r : AuthzOutbox)
      → updated server us r ≡ or_else (get_row r.outbox_id us) r
  updated-get_row [] r = refl
  updated-get_row (u ∷ us) r = ground (arith, updated-get_row us r)

  get_row-id :
      (i : ℕ) (rs : List AuthzOutbox) (r : AuthzOutbox) → get_row i rs ≡ some r → r.outbox_id ≡ i
  get_row-id i [] r h = cc
  get_row-id i (s ∷ ss) r h = ground (arith, h, get_row-id i ss r)

  applied-row :
      (now i : ℕ) (applied left : List AuthzOutbox) (r : AuthzOutbox)
      → some (or_else (get_row i (map (processed now) applied ++ left)) r)
        ≡ row_after now applied left i (some r)
  applied-row now i [] left r = refl
  applied-row now i (a ∷ applied) left r = ground (arith, applied-row now i applied left r)

  pub get_row-after :
      (now i : ℕ) (applied left table : List AuthzOutbox)
      → get_row i (map (updated server (map (processed now) applied ++ left)) table)
        ≡ row_after now applied left i (get_row i table)
  get_row-after now i applied left table =
      let rows = map (processed now) applied ++ left in
      get_row-map-updated rows i table ∙ (elim (Option-cases (get_row i table)) [
        | inl gone ↦ rw gone refl
        | inr (r, found) ↦ rw found (
            ap (λ x. some x) (updated-get_row rows r)
            ∙ ap (λ j. some (or_else (get_row j rows) r)) (get_row-id i table r found)
            ∙ applied-row now i applied left r)
      ])

-- The rows that are taken and those that are left for later are the pending rows of the table.
pub any-pending :
    (limit : Option ℕ) (p : AuthzOutbox → Bool) (table : List AuthzOutbox)
    → any p (pending_rows limit table ++ beyond limit (pending_rows none table))
      ≡ any (λ r. is_pending r && p r) table
any-pending limit p table =
    ap (any p) (limited-beyond limit (pending_rows none table))
    ∙ any-sort_by p (λ r. r.outbox_id) (select is_pending table)
    ∙ any-select p is_pending table

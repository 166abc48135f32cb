-- ===== src/Projection/Segments/Merging.antt =====
-- The second loop of `_segment`: the claims of each date, and neighbours.
use criminal_networks_analys.Common.{
  ℕ, ◌≤◌, ◌<◌, ◌≡◌, refl, ap, sym, ◌∙◌, ◌≢◌, Bool-cases, inl, inr, true, false, ◌&&◌, Option, none,
  some, List, [], ◌∷◌, leb, ltb, if◌then◌else◌, arith, All,
}
use criminal_networks_analys.Projection.Segments.{
  Segment, same_ids, continues, stretch, push, merge,
}

abbrev pub or_else {ℓ} : {A : Type ℓ} → Option A → Option A → Option A
or_else none y = y
or_else (some x) y = some x

abbrev pub claims_in : ℕ → Segment → Option (List ℕ)
claims_in d s = if leb s.low d && ltb d s.high then some s.claim_ids else none

-- The claims of the first segment that holds the date.
abbrev pub claims_at : ℕ → List Segment → Option (List ℕ)
claims_at d [] = none
claims_at d (s ∷ ss) = or_else (claims_in d s) (claims_at d ss)

abbrev pub Proper : Segment → Type 0
Proper s = s.low < s.high

same_ids-eq : (xs ys : List ℕ) → same_ids xs ys ≡ true → xs ≡ ys
same_ids-eq [] [] h = refl
same_ids-eq [] (y ∷ ys) h = cc
same_ids-eq (x ∷ xs) [] h = cc
same_ids-eq (x ∷ xs) (y ∷ ys) h = ground (arith, same_ids-eq xs ys)

claims_in-stretch :
    (d : ℕ) (x s : Segment)
    → continues x s ≡ true
    → Proper x
    → Proper s
    → claims_in d (stretch x s) ≡ or_else (claims_in d x) (claims_in d s)
claims_in-stretch d x s h p q = ground (arith, same_ids-eq x.claim_ids s.claim_ids)

claims_at-push :
    (d : ℕ) (merged : List Segment) (s : Segment)
    → All Proper merged
    → Proper s
    → claims_at d (push merged s) ≡ or_else (claims_at d merged) (claims_in d s)
claims_at-push d [] s ps p = ground arith
claims_at-push d (x ∷ []) s ps p = ground (arith, claims_in-stretch d x s)
claims_at-push d (x ∷ y ∷ ys) s ps p = ground (arith, claims_at-push d (y ∷ ys) s)

push-Proper :
    (merged : List Segment) (s : Segment)
    → All Proper merged
    → Proper s
    → All Proper (push merged s)
push-Proper [] s ps p = ground arith
push-Proper (x ∷ []) s ps p = ground arith
push-Proper (x ∷ y ∷ ys) s ps p = (ps.0, push-Proper (y ∷ ys) s ps.1 p)

pub claims_at-merge :
    (d : ℕ) (merged ss : List Segment)
    → All Proper merged
    → All Proper ss
    → claims_at d (merge merged ss) ≡ or_else (claims_at d merged) (claims_at d ss)
unfolding merge
claims_at-merge d merged [] ps qs = ground arith
claims_at-merge d merged (s ∷ ss) ps qs =
    claims_at-merge d (push merged s) ss (push-Proper merged s ps qs.0) qs.1
    ∙ ground (arith, claims_at-push d merged s ps qs.0)

-- Each range holds a date, neighbours do not overlap and are in order, and two that meet differ in their
-- claims.
abbrev pub IsMaximal : List Segment → Type 0
IsMaximal [] = Unit
IsMaximal (x ∷ []) = x.low < x.high
IsMaximal (x ∷ y ∷ ys) =
    (x.low < x.high)
    × (x.high ≤ y.low)
    × (x.high ≡ y.low → x.claim_ids ≢ y.claim_ids)
    × IsMaximal (y ∷ ys)

same_ids_refl : (xs : List ℕ) → same_ids xs xs ≡ true
same_ids_refl [] = refl
same_ids_refl (x ∷ xs) = ground (arith, same_ids_refl xs)

-- Two ranges that the loop does not join are apart, or differ in their claims.
continues-differ :
    (x y : Segment) → continues x y ≡ false → x.high ≡ y.low → x.claim_ids ≢ y.claim_ids
continues-differ x y h meets same =
    ground (arith, h, meets, same_ids_refl y.claim_ids, ap (λ c. same_ids c y.claim_ids) same)

-- The date that the list ends at is at most this one.
abbrev pub EndsBy : ℕ → List Segment → Type 0
EndsBy d [] = Unit
EndsBy d (x ∷ []) = x.high ≤ d
EndsBy d (x ∷ y ∷ ys) = EndsBy d (y ∷ ys)

-- Ranges one after the other, none before the date.
abbrev pub Follows : ℕ → List Segment → Type 0
Follows d [] = Unit
Follows d (s ∷ ss) = (d ≤ s.low) × Proper s × Follows s.high ss

joined_ids : (y s : Segment) → continues y s ≡ true → y.claim_ids ≡ s.claim_ids
joined_ids y s h = same_ids-eq y.claim_ids s.claim_ids (ground (arith, h))

push-IsMaximal :
    (merged : List Segment) (s : Segment)
    → IsMaximal merged
    → EndsBy s.low merged
    → Proper s
    → IsMaximal (push merged s)
push-IsMaximal [] s m e p = p
push-IsMaximal (x ∷ []) s m e p = elim (Bool-cases (continues x s)) [
  | inl joined ↦ rw joined (omega (arith, m, e, p))
  | inr apart ↦ rw apart (m, e, continues-differ x s apart, p)
]
push-IsMaximal (x ∷ y ∷ []) s m e p = elim (Bool-cases (continues y s)) [
  | inl joined ↦ rw joined (
    m.0,
    m.1,
    (λ meets same. m.2 meets (same ∙ sym (joined_ids y s joined))),
    omega (arith, m.3, e, p),
  )
  | inr apart ↦ rw apart (m.0, m.1, m.2, (m.3, e, continues-differ y s apart, p))
]
push-IsMaximal (x ∷ y ∷ z ∷ zs) s m e p = (m.0, m.1, m.2, push-IsMaximal (y ∷ z ∷ zs) s m.3 e p)

push-EndsBy : (merged : List Segment) (s : Segment) → EndsBy s.high (push merged s)
push-EndsBy [] s = ground arith
push-EndsBy (x ∷ []) s = ground arith
push-EndsBy (x ∷ y ∷ []) s = ground arith
push-EndsBy (x ∷ y ∷ z ∷ zs) s = push-EndsBy (y ∷ z ∷ zs) s

EndsBy-mono : (c d : ℕ) (merged : List Segment) → c ≤ d → EndsBy c merged → EndsBy d merged
EndsBy-mono c d [] le e = tt
EndsBy-mono c d (x ∷ []) le e = omega (arith, e)
EndsBy-mono c d (x ∷ y ∷ ys) le e = EndsBy-mono c d (y ∷ ys) le e

pub merge-IsMaximal :
    (d : ℕ) (merged ss : List Segment)
    → IsMaximal merged
    → EndsBy d merged
    → Follows d ss
    → IsMaximal (merge merged ss)
unfolding merge
merge-IsMaximal d merged [] m e f = m
merge-IsMaximal d merged (s ∷ ss) m e f =
    merge-IsMaximal s.high (push merged s) ss
      (push-IsMaximal merged s m (EndsBy-mono d s.low merged f.0 e) f.1) (push-EndsBy merged s) f.2

pub Follows-Proper : (d : ℕ) (ss : List Segment) → Follows d ss → All Proper ss
Follows-Proper d [] f = tt
Follows-Proper d (s ∷ ss) f = (f.1, Follows-Proper s.high ss f.2)

pub merge-Proper :
    (merged ss : List Segment) → All Proper merged → All Proper ss → All Proper (merge merged ss)
unfolding merge
merge-Proper merged [] ps qs = ps
merge-Proper merged (s ∷ ss) ps qs =
    merge-Proper (push merged s) ss (push-Proper merged s ps qs.0) qs.1

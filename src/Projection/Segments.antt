-- ===== src/Projection/Segments.antt =====
-- aegis/projections/edges.py: `_Interval`, `_segment` and `_to_bound`. A date is its proleptic
-- ordinal, as `date.toordinal` gives it.
use criminal_networks_analys.Common.{
  ℕ, ◌-◌, Bool, true, false, ◌&&◌, Option, none, some, List, [], ◌∷◌, ◌++◌, map, leb, ltb, ◌==◌,
  if◌then◌else◌, arith, select, sort_by, sorted_set, identity,
}
pub mod Cuts
pub mod Merging
pub mod Dates

-- `date.min`
abbrev pub neg_inf : ℕ
neg_inf = 1

-- `date.max`, 9999-12-31
abbrev pub pos_inf : ℕ
pos_inf = 3652059

-- `[start, end)`
pub record Interval : Type 0 where
  pub start : ℕ
  pub end : ℕ
  pub claim_id : ℕ

-- A range of dates, half-open too, and the claims that cover it.
pub record Segment : Type 0 where
  pub low : ℕ
  pub high : ℕ
  pub claim_ids : List ℕ

abbrev pub covers : ℕ → Interval → Bool
covers d i = leb i.start d && ltb d i.end

-- `sorted(i.claim_id for i in intervals if i.start <= low < i.end)`
unfoldable pub covering : List Interval → ℕ → List ℕ
covering intervals d = sort_by identity (map (λ i. i.claim_id) (select (covers d) intervals))

abbrev pub bounds : List Interval → List ℕ
bounds [] = []
bounds (i ∷ is) = i.start ∷ i.end ∷ bounds is

unfoldable pub cuts : List Interval → List ℕ
cuts intervals = sorted_set (bounds intervals)

abbrev pub cons_nonempty : ℕ → ℕ → List ℕ → List Segment → List Segment
cons_nonempty low high [] rest = rest
cons_nonempty low high (c ∷ cs) rest = record { low = low; high = high; claim_ids = c ∷ cs } ∷ rest

-- One range between consecutive cuts, where any claim covers it.
unfoldable pub elementary : List Interval → List ℕ → List Segment
elementary intervals [] = []
elementary intervals (low ∷ []) = []
elementary intervals (low ∷ high ∷ rest) =
    cons_nonempty low high (covering intervals low) (elementary intervals (high ∷ rest))

abbrev pub same_ids : List ℕ → List ℕ → Bool
same_ids [] [] = true
same_ids [] (y ∷ ys) = false
same_ids (x ∷ xs) [] = false
same_ids (x ∷ xs) (y ∷ ys) = x == y && same_ids xs ys

-- `merged[-1][2] == covering and merged[-1][1] == low`
abbrev pub continues : Segment → Segment → Bool
continues last s = same_ids last.claim_ids s.claim_ids && last.high == s.low

abbrev pub stretch : Segment → Segment → Segment
stretch last s = record { low = last.low; high = s.high; claim_ids = s.claim_ids }

-- One turn of the second loop.
abbrev pub push : List Segment → Segment → List Segment
push [] s = s ∷ []
push (x ∷ []) s = if continues x s then stretch x s ∷ [] else x ∷ s ∷ []
push (x ∷ y ∷ ys) s = x ∷ push (y ∷ ys) s

unfoldable pub merge : List Segment → List Segment → List Segment
merge merged [] = merged
merge merged (s ∷ ss) = merge (push merged s) ss

unfoldable pub segment : List Interval → List Segment
unfolding cuts elementary merge
segment intervals = merge [] (elementary intervals (cuts intervals))

-- `_to_bound`
unfoldable pub to_bound : Bool → ℕ → Option ℕ
to_bound true d = if d == pos_inf then none else some (d - 1)
to_bound false d = if d == neg_inf then none else some d

-- ===== src/Projection/Segments/Dates.antt =====
-- `_segment` as a whole: what its segments say of each date, and their shape.
use criminal_networks_analys.Common.{
  ℕ, ◌<◌, ◌≡◌, refl, ◌∙◌, true, none, some, List, [], ◌∷◌, ltb, arith, All, Bool-cases, inl, inr,
  select, member, member-sorted_set,
}
use criminal_networks_analys.Projection.Segments.{
  Interval, covers, covering, bounds, cuts, elementary, segment,
}
use criminal_networks_analys.Projection.Segments.Merging.{
  claims_at, Proper, Follows, Follows-Proper, IsMaximal, merge-IsMaximal, merge-Proper,
  claims_at-merge,
}
use criminal_networks_analys.Projection.Segments.Cuts.{
  Ascends, Ascends-sorted_set, nonempty, Bounded, Follows-mono, Follows-elementary,
  claims_at-before, Ascends-member, bound_next, claims_at-elementary,
}

AreCut : List ℕ → List Interval → Type 0
AreCut cs intervals = All (λ i. (member i.start cs ≡ true) × (member i.end cs ≡ true)) intervals

AreCut-bounds :
    (cs : List ℕ) (intervals : List Interval)
    → ((x : ℕ) → member x (bounds intervals) ≡ true → member x cs ≡ true)
    → AreCut cs intervals
unfolding AreCut
AreCut-bounds cs [] h = tt
AreCut-bounds cs (i ∷ is) h = (
  (h i.start (ground arith), h i.end (ground arith)),
  AreCut-bounds cs is (λ x m. h x (ground arith)),
)

AreCut-Bounded :
    (c : ℕ) (cs : List ℕ) (intervals : List Interval)
    → AreCut (c ∷ cs) intervals
    → All (Bounded c cs) intervals
unfolding AreCut
AreCut-Bounded c cs [] h = tt
AreCut-Bounded c cs (i ∷ is) h = (
  (
    bound_next c c i.start cs (omega arith) (inr h.0.0),
    bound_next c c i.end cs (omega arith) (inr h.0.1),
  ),
  AreCut-Bounded c cs is h.1,
)

not_started :
    (c d : ℕ) (cs : List ℕ) (intervals : List Interval)
    → Ascends (c ∷ cs)
    → AreCut (c ∷ cs) intervals
    → d < c
    → select (covers d) intervals ≡ []
unfolding AreCut
not_started c d cs [] a h lt = refl
not_started c d cs (i ∷ is) a h lt =
    ground (arith, Ascends-member c i.start cs a h.0.0, not_started c d cs is a h.1 lt)

claims_at-cuts :
    (intervals : List Interval) (cs : List ℕ) (d : ℕ)
    → Ascends cs
    → AreCut cs intervals
    → claims_at d (elementary intervals cs) ≡ nonempty (covering intervals d)
unfolding elementary covering AreCut
claims_at-cuts [] [] d a h = refl
claims_at-cuts (i ∷ is) [] d a h = cc
claims_at-cuts intervals (c ∷ cs) d a h = elim (Bool-cases (ltb d c)) [
  | inl before ↦
      claims_at-before c d _ (Follows-elementary intervals c cs a) (ground arith)
      ∙ rw (not_started c d cs intervals a h (ground arith)) refl
  | inr from ↦
      claims_at-elementary intervals c cs d a (AreCut-Bounded c cs intervals h) (ground arith)
]

Follows-start :
    (intervals : List Interval) (cs : List ℕ) → Ascends cs → Follows 0 (elementary intervals cs)
unfolding elementary
Follows-start intervals [] a = tt
Follows-start intervals (c ∷ cs) a =
    Follows-mono 0 c _ (omega arith) (Follows-elementary intervals c cs a)

-- The segments of any claims have, at every date, exactly the claims that are valid then, sorted,
-- and no segment holds a date that no claim covers.
pub segment-claims_at :
    (intervals : List Interval) (d : ℕ)
    → claims_at d (segment intervals)
      ≡ (elim (covering intervals d) [ [] ↦ none | c ∷ cs ↦ some (c ∷ cs) ])
unfolding segment
segment-claims_at intervals d =
    let a = Ascends-sorted_set (bounds intervals) in
    claims_at-merge d [] (elementary intervals (cuts intervals)) tt
      (Follows-Proper 0 _ (Follows-start intervals (cuts intervals) a))
    ∙ claims_at-cuts intervals (cuts intervals) d a (
        AreCut-bounds (cuts intervals) intervals
          (λ x m. member-sorted_set x (bounds intervals) ∙ m))

-- Every segment holds a date, the segments are in order and do not overlap, and they are maximal: two
-- neighbours of which one begins where the other ends do not have the same claims.
pub segment-IsMaximal : (intervals : List Interval) → IsMaximal (segment intervals)
unfolding segment
segment-IsMaximal intervals =
    merge-IsMaximal 0 [] (elementary intervals (cuts intervals)) tt tt
      (Follows-start intervals (cuts intervals) (Ascends-sorted_set (bounds intervals)))

pub segment-Proper : (intervals : List Interval) → All Proper (segment intervals)
unfolding segment
segment-Proper intervals = merge-Proper [] (elementary intervals (cuts intervals)) tt (
    Follows-Proper 0 _
      (Follows-start intervals (cuts intervals) (Ascends-sorted_set (bounds intervals))))

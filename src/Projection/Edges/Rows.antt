-- ===== src/Projection/Edges/Rows.antt =====
-- The rows of a group and its claims, date by date.
use criminal_networks_analys.Common.{
  ℕ, ◌≤◌, ◌<◌, ◌≡◌, refl, ◌∙◌, ap, none, some, List, [], ◌∷◌, ◌++◌, map, if◌then◌else◌, arith,
  select, sort_by, identity, Option-cases, inl, inr, All,
}
use criminal_networks_analys.Projection.Store.{Claim, EdgeProjection}
use criminal_networks_analys.Projection.Groups.{Key, Group, same_key}
use criminal_networks_analys.Projection.Segments.{
  Interval, Segment, covers, covering, segment, neg_inf, pos_inf,
}
use criminal_networks_analys.Projection.Segments.Merging.{or_else, claims_in, claims_at, Proper}
use criminal_networks_analys.Projection.Segments.Dates.{segment-claims_at, segment-Proper}
use criminal_networks_analys.Projection.Build.{
  Builder, end_of, with_end, intervals, edge_row, segment_rows, claims_of, group_rows,
}
use criminal_networks_analys.Projection.Edges.{
  valid_claims, nonempty, valid_on, row_claims, edge_claims_at,
}
use criminal_networks_analys.Projection.Edges.Grouped.{group_claims_at}

covers-valid_on :
    (d : ℕ) (c : Claim) (i : Interval)
    → with_end c (end_of c.valid_to) ≡ some i
    → neg_inf ≤ d
    → d < pos_inf
    → (covers d i ≡ valid_on d c) × (i.claim_id ≡ c.claim_id)
covers-valid_on d c i h low high = (ground arith, ground arith)

covers-intervals :
    (d : ℕ) (cs : List Claim) (is : List Interval)
    → intervals cs ≡ some is
    → neg_inf ≤ d
    → d < pos_inf
    → map (λ i. i.claim_id) (select (covers d) is) ≡ map (λ c. c.claim_id) (select (valid_on d) cs)
unfolding intervals
covers-intervals d [] is h low high = ground arith
covers-intervals d (c ∷ cs) is h low high = elim (Option-cases (with_end c (end_of c.valid_to))) [
  | inl none_first ↦ absurd (ground arith)
  | inr (i, first_one) ↦ elim (Option-cases (intervals cs)) [
    | inl none_rest ↦ absurd (ground arith)
    | inr (rest, more) ↦
        ground (
          arith,
          covers-valid_on d c i first_one low high,
          covers-intervals d cs rest more low high,
        )
  ]
]

row_claims-edge_row :
    (b : Builder) (j k : Key) (s : Segment) (cs : List Claim) (d : ℕ)
    → Proper s
    → neg_inf ≤ d
    → d < pos_inf
    → row_claims k d (edge_row b j s cs) ≡ (if same_key j k then claims_in d s else none)
unfolding edge_row
row_claims-edge_row b j k s cs d p low high = ground arith

segment_rows-at :
    (b : Builder) (j k : Key) (ss : List Segment) (rows : List EdgeProjection) (d : ℕ)
    → segment_rows b j ss ≡ some rows
    → All Proper ss
    → neg_inf ≤ d
    → d < pos_inf
    → edge_claims_at k d rows ≡ (if same_key j k then claims_at d ss else none)
unfolding segment_rows
segment_rows-at b j k [] rows d h ps low high = ground arith
segment_rows-at b j k (s ∷ ss) rows d h ps low high =
    elim (Option-cases (claims_of b.by_claim s.claim_ids)) [
      | inl none_first ↦ absurd (ground arith)
      | inr (cs, found) ↦ elim (Option-cases (segment_rows b j ss)) [
        | inl none_rest ↦ absurd (ground arith)
        | inr (rest, more) ↦ ground (
          arith,
          row_claims-edge_row b j k s cs d ps.0 low high,
          segment_rows-at b j k ss rest d more ps.1 low high,
        )
      ]
    ]

edge_claims_at-append :
    (k : Key) (d : ℕ) (xs ys : List EdgeProjection)
    → edge_claims_at k d (xs ++ ys) ≡ or_else (edge_claims_at k d xs) (edge_claims_at k d ys)
edge_claims_at-append k d [] ys = refl
edge_claims_at-append k d (x ∷ xs) ys = ground (arith, edge_claims_at-append k d xs ys)

claims_at-valid :
    (d : ℕ) (cs : List Claim) (is : List Interval)
    → intervals cs ≡ some is
    → neg_inf ≤ d
    → d < pos_inf
    → claims_at d (segment is) ≡ valid_claims d cs
unfolding covering
claims_at-valid d cs is h low high =
    segment-claims_at is d
    ∙ ap (λ ids. nonempty (sort_by identity ids)) (covers-intervals d cs is h low high)

-- What a build of the groups says of an edge at a date is what their claims say.
pub group_rows-at :
    (b : Builder) (k : Key) (gs : List Group) (rows : List EdgeProjection) (d : ℕ)
    → group_rows b gs ≡ some rows
    → neg_inf ≤ d
    → d < pos_inf
    → edge_claims_at k d rows ≡ group_claims_at k d gs
unfolding group_rows
group_rows-at b k [] rows d h low high = ground arith
group_rows-at b k (g ∷ gs) rows d h low high = elim (Option-cases (intervals g.claims)) [
  | inl overflow ↦ absurd (ground arith)
  | inr (is, bounded) ↦ elim (Option-cases (segment_rows b g.key (segment is))) [
    | inl missing ↦ absurd (ground arith)
    | inr (here, made) ↦ elim (Option-cases (group_rows b gs)) [
      | inl none_rest ↦ absurd (ground arith)
      | inr (rest, more) ↦ ground (
        arith,
        edge_claims_at-append k d here rest,
        segment_rows-at b g.key k (segment is) here d made (segment-Proper is) low high,
        claims_at-valid d g.claims is bounded low high,
        group_rows-at b k gs rest d more low high,
      )
    ]
  ]
]

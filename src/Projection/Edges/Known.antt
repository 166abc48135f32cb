-- ===== src/Projection/Edges/Known.antt =====
-- Building the rows of groups of known claims that end before the last date.
use criminal_networks_analys.Common.{
  ℕ, ◌≡◌, refl, ◌∙◌, Bool, true, false, not, none, some, List, [], ◌∷◌, ◌++◌, map, ◌==◌, arith,
  select, identity, is_none, Option-cases, inl, inr, All, any, any-sort_by,
}
use criminal_networks_analys.Common.Dict.{Dict, lookup}
use criminal_networks_analys.Projection.Store.{Claim, EdgeProjection}
use criminal_networks_analys.Projection.Groups.{Key, Group}
use criminal_networks_analys.Projection.Segments.{
  Interval, Segment, covers, covering, cons_nonempty, elementary, cuts, push, merge, segment,
  pos_inf,
}
use criminal_networks_analys.Projection.Build.{
  Builder, end_of, with_end, intervals, claims_of, edge_row, segment_rows, group_rows,
}

-- The table of claims has no claim of this identifier.
abbrev pub unknown : Dict Claim → ℕ → Bool
unknown d i = is_none (lookup i d)

abbrev Known : Dict Claim → Segment → Type 0
Known d s = any (unknown d) s.claim_ids ≡ false

-- The claim ends before the last date.
abbrev pub ends_before_last : Claim → Bool
ends_before_last c = elim c.valid_to [ none ↦ true | some d ↦ not (d == pos_inf) ]

abbrev pub Buildable : Dict Claim → Claim → Type 0
Buildable d c = (ends_before_last c ≡ true) × (unknown d c.claim_id ≡ false)

abbrev pub AreBuildable : Dict Claim → List Group → Type 0
AreBuildable d gs = All (λ g. All (Buildable d) g.claims) gs

abbrev KnownIntervals : Dict Claim → List Interval → Type 0
KnownIntervals d is = All (λ i. unknown d i.claim_id ≡ false) is

claims_of-succeeds :
    (d : Dict Claim) (ids : List ℕ)
    → any (unknown d) ids ≡ false
    → (cs : List Claim) × (claims_of d ids ≡ some cs)
unfolding claims_of
claims_of-succeeds d [] h = ([], refl)
claims_of-succeeds d (i ∷ is) h =
    let (cs, rest) = claims_of-succeeds d is (ground arith) in
    elim (Option-cases (lookup i d)) [
      | inl absent ↦ absurd (ground arith)
      | inr (c, found) ↦ (c ∷ cs, ground arith)
    ]

intervals-succeeds :
    (d : Dict Claim) (cs : List Claim)
    → All (Buildable d) cs
    → (is : List Interval) × (intervals cs ≡ some is) × KnownIntervals d is
unfolding intervals
intervals-succeeds d [] h = ([], refl, tt)
intervals-succeeds d (c ∷ cs) h =
    let (is, rest, known) = intervals-succeeds d cs h.1 in
    elim (Option-cases (with_end c (end_of c.valid_to))) [
      | inl overflow ↦ absurd (ground (arith, h.0.0))
      | inr (i, made) ↦ (i ∷ is, ground arith, (ground (arith, h.0.1), known))
    ]

known_covering :
    (d : Dict Claim) (is : List Interval) (t : ℕ)
    → KnownIntervals d is
    → any (unknown d) (map (λ i. i.claim_id) (select (covers t) is)) ≡ false
known_covering d [] t h = refl
known_covering d (i ∷ is) t h = ground (arith, h.0, known_covering d is t h.1)

covering-known :
    (d : Dict Claim) (is : List Interval) (t : ℕ)
    → KnownIntervals d is
    → any (unknown d) (covering is t) ≡ false
unfolding covering
covering-known d is t h = any-sort_by (unknown d) identity _ ∙ known_covering d is t h

cons_nonempty-Known :
    (d : Dict Claim) (low high : ℕ) (ids : List ℕ) (rest : List Segment)
    → any (unknown d) ids ≡ false
    → All (Known d) rest
    → All (Known d) (cons_nonempty low high ids rest)
cons_nonempty-Known d low high [] rest h hs = hs
cons_nonempty-Known d low high (x ∷ xs) rest h hs = (h, hs)

elementary-Known :
    (d : Dict Claim) (is : List Interval) (cs : List ℕ)
    → KnownIntervals d is
    → All (Known d) (elementary is cs)
unfolding elementary
elementary-Known d is [] h = tt
elementary-Known d is (low ∷ []) h = tt
elementary-Known d is (low ∷ high ∷ rest) h =
    cons_nonempty-Known d low high (covering is low) _ (covering-known d is low h)
      (elementary-Known d is (high ∷ rest) h)

push-Known :
    (d : Dict Claim) (merged : List Segment) (s : Segment)
    → All (Known d) merged
    → Known d s
    → All (Known d) (push merged s)
push-Known d [] s hs h = (h, tt)
push-Known d (x ∷ []) s hs h = ground (arith, hs)
push-Known d (x ∷ y ∷ ys) s hs h = (hs.0, push-Known d (y ∷ ys) s hs.1 h)

merge-Known :
    (d : Dict Claim) (merged ss : List Segment)
    → All (Known d) merged
    → All (Known d) ss
    → All (Known d) (merge merged ss)
unfolding merge
merge-Known d merged [] hs ks = hs
merge-Known d merged (s ∷ ss) hs ks =
    merge-Known d (push merged s) ss (push-Known d merged s hs ks.0) ks.1

segment_rows-succeeds :
    (b : Builder) (k : Key) (ss : List Segment)
    → All (Known b.by_claim) ss
    → (rows : List EdgeProjection) × (segment_rows b k ss ≡ some rows)
unfolding segment_rows
segment_rows-succeeds b k [] hs = ([], refl)
segment_rows-succeeds b k (s ∷ ss) hs =
    let (cs, found) = claims_of-succeeds b.by_claim s.claim_ids hs.0 in
    let (rows, more) = segment_rows-succeeds b k ss hs.1 in
    (edge_row b k s cs ∷ rows, rw (found, more) refl)

segment-Known :
    (d : Dict Claim) (is : List Interval) → KnownIntervals d is → All (Known d) (segment is)
unfolding segment
segment-Known d is h =
    merge-Known d [] (elementary is (cuts is)) tt (elementary-Known d is (cuts is) h)

pub group_rows-succeeds :
    (b : Builder) (gs : List Group)
    → AreBuildable b.by_claim gs
    → (rows : List EdgeProjection) × (group_rows b gs ≡ some rows)
unfolding group_rows
group_rows-succeeds b [] hs = ([], refl)
group_rows-succeeds b (g ∷ gs) hs =
    let (is, bounded, known) = intervals-succeeds b.by_claim g.claims hs.0 in
    let (here, made) =
      segment_rows-succeeds b g.key (segment is) (segment-Known b.by_claim is known) in
    let (rest, more) = group_rows-succeeds b gs hs.1 in
    (here ++ rest, rw (bounded, made, more) refl)

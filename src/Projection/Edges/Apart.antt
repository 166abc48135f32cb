-- ===== src/Projection/Edges/Apart.antt =====
-- No two rows of a build have one edge and one first date, so that their identifiers differ.
use criminal_networks_analys.Common.{
  ℕ, ◌<◌, ◌≡◌, refl, sym, subst, ◌∙◌, Bool, true, false, ◌&&◌, Option, none, some, List, [], ◌∷◌,
  ◌==◌, ==_refl, arith, any, All, Option-cases, Bool-cases, inl, inr,
}
use criminal_networks_analys.Projection.Store.{EdgeProjection}
use criminal_networks_analys.Projection.Groups.{Key, same_key}
use criminal_networks_analys.Projection.Segments.{Segment, to_bound}
use criminal_networks_analys.Projection.Segments.Merging.{IsMaximal}
use criminal_networks_analys.Projection.Build.{Builder, claims_of, edge_row, segment_rows, collides}
use criminal_networks_analys.Projection.Edges.{key_of_row}

-- The digest is free of collisions: equal digests are of equal edges and dates.
abbrev pub IsCollisionFree : (Key → Option ℕ → Option ℕ → ℕ) → Type 0
IsCollisionFree digest =
    (j k : Key) (a b c d : Option ℕ)
    → digest j a c ≡ digest k b d
    → (same_key j k ≡ true) × (a ≡ b) × (c ≡ d)

abbrev same_bound : Option ℕ → Option ℕ → Bool
same_bound none none = true
same_bound none (some b) = false
same_bound (some a) none = false
same_bound (some a) (some b) = a == b

same_bound_refl : (a : Option ℕ) → same_bound a a ≡ true
same_bound_refl none = refl
same_bound_refl (some a) = ==_refl a

abbrev pub same_start : EdgeProjection → EdgeProjection → Bool
same_start e f = same_key (key_of_row e) (key_of_row f) && same_bound e.segment_from f.segment_from

abbrev pub AreApart : List EdgeProjection → Type 0
AreApart [] = Unit
AreApart (e ∷ es) = (any (same_start e) es ≡ false) × AreApart es

-- The identifier is the digest of the edge and the dates.
abbrev pub IsNamed : Builder → EdgeProjection → Type 0
IsNamed b e = e.edge_id ≡ b.digest (key_of_row e) e.segment_from e.segment_to

differs :
    (b : Builder) (e f : EdgeProjection)
    → IsCollisionFree b.digest
    → IsNamed b e
    → IsNamed b f
    → same_start e f ≡ false
    → (f.edge_id == e.edge_id) ≡ false
differs b e f free named named' apart = elim (Bool-cases (f.edge_id == e.edge_id)) [
  | inl same ↦
      let (keys, from, to) =
        free (key_of_row e) (key_of_row f) e.segment_from f.segment_from e.segment_to f.segment_to
          (sym named ∙ ground (arith, same) ∙ named') in
      ground (arith, apart, keys, from, same_bound_refl f.segment_from)
  | inr other ↦ other
]

none_same :
    (b : Builder) (e : EdgeProjection) (es : List EdgeProjection)
    → IsCollisionFree b.digest
    → IsNamed b e
    → All (IsNamed b) es
    → any (same_start e) es ≡ false
    → any (λ f. f.edge_id == e.edge_id) es ≡ false
none_same b e [] free named all apart = refl
none_same b e (f ∷ fs) free named all apart = ground (
  arith,
  differs b e f free named all.0 (ground (arith, apart)),
  none_same b e fs free named all.1 (ground (arith, apart)),
)

pub AreApart-collides :
    (b : Builder) (es : List EdgeProjection)
    → IsCollisionFree b.digest
    → All (IsNamed b) es
    → AreApart es
    → collides es ≡ false
AreApart-collides b [] free all apart = refl
AreApart-collides b (e ∷ es) free all apart =
    ground
      (arith, none_same b e es free all.0 all.1 apart.0, AreApart-collides b es free all.1 apart.1)

-- All segments begin after the date.
abbrev Later : ℕ → List Segment → Type 0
Later d ss = All (λ s. d < s.low) ss

Later-mono : (c d : ℕ) (ss : List Segment) → c < d → Later d ss → Later c ss
Later-mono c d [] lt h = tt
Later-mono c d (s ∷ ss) lt h = (omega (arith, lt, h.0), Later-mono c d ss lt h.1)

IsMaximal-tail : (s : Segment) (ss : List Segment) → IsMaximal (s ∷ ss) → IsMaximal ss
IsMaximal-tail s [] m = tt
IsMaximal-tail s (t ∷ ts) m = m.3

IsMaximal-Later : (s : Segment) (ss : List Segment) → IsMaximal (s ∷ ss) → Later s.low ss
IsMaximal-Later s [] m = tt
IsMaximal-Later s (t ∷ ts) m =
    let lt : s.low < t.low = omega (arith, m.0, m.1) in
    (lt, Later-mono s.low t.low ts lt (IsMaximal-Later t ts m.3))

abbrev pub has_edge : Key → EdgeProjection → Bool
has_edge k e = same_key (key_of_row e) k

-- The rows of the segments, each of which has the key and its digest.
pub segment_rows-All :
    (b : Builder) (k : Key) (ss : List Segment) (rows : List EdgeProjection)
    → segment_rows b k ss ≡ some rows
    → All (λ e. IsNamed b e × (key_of_row e ≡ k)) rows
unfolding segment_rows edge_row
segment_rows-All b k [] rows h = ground (arith, h)
segment_rows-All b k (s ∷ ss) rows h = elim (Option-cases (claims_of b.by_claim s.claim_ids)) [
  | inl gone ↦ absurd (ground (arith, h, gone))
  | inr (cs, found) ↦ elim (Option-cases (segment_rows b k ss)) [
    | inl gone ↦ absurd (ground (arith, h, found, gone))
    | inr (rest, more) ↦
        let is : edge_row b k s cs ∷ rest ≡ rows = ground (arith, h, found, more) in
        subst (All (λ e. IsNamed b e × (key_of_row e ≡ k))) is
          ((refl, refl), segment_rows-All b k ss rest more)
  ]
]

later_start : (c d : ℕ) → c < d → same_bound (to_bound false c) (to_bound false d) ≡ false
unfolding to_bound
later_start c d lt = ground arith

segment_rows-begin_after :
    (b : Builder) (k : Key) (d : ℕ) (ss : List Segment) (rows : List EdgeProjection)
    → segment_rows b k ss ≡ some rows
    → Later d ss
    → any (λ e. same_bound (to_bound false d) e.segment_from) rows ≡ false
unfolding segment_rows edge_row
segment_rows-begin_after b k d [] rows h later = ground (arith, h)
segment_rows-begin_after b k d (s ∷ ss) rows h later =
    elim (Option-cases (claims_of b.by_claim s.claim_ids)) [
      | inl gone ↦ absurd (ground (arith, h, gone))
      | inr (cs, found) ↦ elim (Option-cases (segment_rows b k ss)) [
        | inl gone ↦ absurd (ground (arith, h, found, gone))
        | inr (rest, more) ↦
            let is : edge_row b k s cs ∷ rest ≡ rows = ground (arith, h, found, more) in
            subst (λ es. any (λ e. same_bound (to_bound false d) e.segment_from) es ≡ false) is
              (ground (
                arith,
                later_start d s.low later.0,
                segment_rows-begin_after b k d ss rest more later.1,
              ))
      ]
    ]

any-same_start :
    (e : EdgeProjection) (es : List EdgeProjection)
    → any (λ f. same_bound e.segment_from f.segment_from) es ≡ false
    → any (same_start e) es ≡ false
any-same_start e [] h = refl
any-same_start e (f ∷ fs) h = ground (arith, h, any-same_start e fs)

pub segment_rows-AreApart :
    (b : Builder) (k : Key) (ss : List Segment) (rows : List EdgeProjection)
    → segment_rows b k ss ≡ some rows
    → IsMaximal ss
    → AreApart rows
unfolding segment_rows edge_row
segment_rows-AreApart b k [] rows h m = ground (arith, h)
segment_rows-AreApart b k (s ∷ ss) rows h m =
    elim (Option-cases (claims_of b.by_claim s.claim_ids)) [
      | inl gone ↦ absurd (ground (arith, h, gone))
      | inr (cs, found) ↦ elim (Option-cases (segment_rows b k ss)) [
        | inl gone ↦ absurd (ground (arith, h, found, gone))
        | inr (rest, more) ↦
            let is : edge_row b k s cs ∷ rest ≡ rows = ground (arith, h, found, more) in
            subst AreApart is (
              any-same_start (edge_row b k s cs) rest
                  (segment_rows-begin_after b k s.low ss rest more (IsMaximal-Later s ss m)),
              segment_rows-AreApart b k ss rest more (IsMaximal-tail s ss m),
            )
      ]
    ]

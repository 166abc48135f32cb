-- ===== src/Projection/Edges/Distinct.antt =====
-- The rows of all groups: each edge has one group, so that no two rows have one identifier.
use criminal_networks_analys.Common.{
  ◌≡◌, refl, subst, ap, ◌∙◌, false, ◌||◌, some, List, [], ◌∷◌, ◌++◌, arith, any, any-append, All,
  All-append, Option-cases, Bool-cases, inl, inr,
}
use criminal_networks_analys.Projection.Store.{EdgeProjection}
use criminal_networks_analys.Projection.Groups.{
  Key, Group, same_key, key_lt, insert_group, sort_groups,
}
use criminal_networks_analys.Projection.Segments.{segment}
use criminal_networks_analys.Projection.Segments.Dates.{segment-IsMaximal}
use criminal_networks_analys.Projection.Build.{
  Builder, intervals, segment_rows, group_rows, collides,
}
use criminal_networks_analys.Projection.Edges.{key_of_row}
use criminal_networks_analys.Projection.Edges.Grouped.{has_key, IsUnique}
use criminal_networks_analys.Projection.Edges.Apart.{
  IsCollisionFree, AreApart, same_start, IsNamed, has_edge, segment_rows-All, segment_rows-AreApart,
  AreApart-collides,
}

has_key-insert_group :
    (k : Key) (g : Group) (gs : List Group)
    → has_key k (insert_group g gs) ≡ (same_key g.key k || has_key k gs)
has_key-insert_group k g [] = refl
has_key-insert_group k g (h ∷ hs) = ground (arith, has_key-insert_group k g hs)

has_key-sort_groups : (k : Key) (gs : List Group) → has_key k (sort_groups gs) ≡ has_key k gs
has_key-sort_groups k [] = refl
has_key-sort_groups k (g ∷ gs) =
    has_key-insert_group k g (sort_groups gs)
    ∙ ap (λ b. same_key g.key k || b) (has_key-sort_groups k gs)

same_key_sym : (j k : Key) → same_key j k ≡ same_key k j
same_key_sym j k = ground arith

insert_group-IsUnique :
    (g : Group) (gs : List Group)
    → has_key g.key gs ≡ false
    → IsUnique gs
    → IsUnique (insert_group g gs)
insert_group-IsUnique g [] new u = (refl, tt)
insert_group-IsUnique g (h ∷ hs) new u = elim (Bool-cases (key_lt h.key g.key)) [
  | inl before ↦ rw before (
    has_key-insert_group h.key g hs ∙ ground (arith, new, u, same_key_sym g.key h.key),
    insert_group-IsUnique g hs (ground (arith, new)) u.1,
  )
  | inr from ↦ rw from (new, u)
]

pub sort_groups-IsUnique : (gs : List Group) → IsUnique gs → IsUnique (sort_groups gs)
sort_groups-IsUnique [] u = tt
sort_groups-IsUnique (g ∷ gs) u =
    insert_group-IsUnique g (sort_groups gs) (has_key-sort_groups g.key gs ∙ u.0)
      (sort_groups-IsUnique gs u.1)

AreApart-append :
    (xs ys : List EdgeProjection)
    → AreApart xs
    → AreApart ys
    → All (λ e. any (same_start e) ys ≡ false) xs
    → AreApart (xs ++ ys)
AreApart-append [] ys p q h = q
AreApart-append (x ∷ xs) ys p q h =
    (rw any-append (ground (arith, p, h)), AreApart-append xs ys p.1 q h.1)

other_edge :
    (k : Key) (e : EdgeProjection) (es : List EdgeProjection)
    → key_of_row e ≡ k
    → any (has_edge k) es ≡ false
    → any (same_start e) es ≡ false
other_edge k e [] of none_has = refl
other_edge k e (f ∷ fs) of none_has = ground (
  arith,
  ap (λ j. same_key j (key_of_row f)) of,
  same_key_sym k (key_of_row f),
  none_has,
  other_edge k e fs of,
)

none_of_edge :
    (k : Key) (b : Builder) (j : Key) (es : List EdgeProjection)
    → All (λ e. IsNamed b e × (key_of_row e ≡ j)) es
    → same_key j k ≡ false
    → any (has_edge k) es ≡ false
none_of_edge k b j [] all other = refl
none_of_edge k b j (e ∷ es) all other =
    ground (arith, ap (λ i. same_key i k) (all.0.1) ∙ other, none_of_edge k b j es all.1 other)

none_other :
    (b : Builder) (k : Key) (xs ys : List EdgeProjection)
    → All (λ e. IsNamed b e × (key_of_row e ≡ k)) xs
    → any (has_edge k) ys ≡ false
    → All (λ e. any (same_start e) ys ≡ false) xs
none_other b k [] ys all none_has = tt
none_other b k (x ∷ xs) ys all none_has =
    (other_edge k x ys all.0.1 none_has, none_other b k xs ys all.1 none_has)

All-IsNamed :
    (b : Builder) (k : Key) (xs : List EdgeProjection)
    → All (λ e. IsNamed b e × (key_of_row e ≡ k)) xs
    → All (IsNamed b) xs
All-IsNamed b k [] all = tt
All-IsNamed b k (x ∷ xs) all = (all.0.0, All-IsNamed b k xs all.1)

-- What a build gives where every edge has one group.
group_rows-AreApart :
    (b : Builder) (gs : List Group) (rows : List EdgeProjection)
    → group_rows b gs ≡ some rows
    → IsUnique gs
    → All (IsNamed b) rows
      × AreApart rows
      × ((k : Key) → has_key k gs ≡ false → any (has_edge k) rows ≡ false)
unfolding group_rows
group_rows-AreApart b [] rows h u =
    let is : [] ≡ rows = ground (arith, h) in
    subst
      (λ es.
        All (IsNamed b) es
        × AreApart es
        × ((k : Key) → has_key k [] ≡ false → any (has_edge k) es ≡ false))
      is (tt, tt, λ k e. refl)
group_rows-AreApart b (g ∷ gs) rows h u = elim (Option-cases (intervals g.claims)) [
  | inl gone ↦ absurd (ground (arith, h, gone))
  | inr (is, bounded) ↦ elim (Option-cases (segment_rows b g.key (segment is))) [
    | inl gone ↦ absurd (ground (arith, h, bounded, gone))
    | inr (here, made) ↦ elim (Option-cases (group_rows b gs)) [
      | inl gone ↦ absurd (ground (arith, h, bounded, made, gone))
      | inr (rest, more) ↦
          let (named, apart, only) = group_rows-AreApart b gs rest more u.1 in
          let all = segment_rows-All b g.key (segment is) here made in
          let joined : here ++ rest ≡ rows = ground (arith, h, bounded, made, more) in
          subst
            (λ es.
              All (IsNamed b) es
              × AreApart es
              × ((k : Key) → has_key k (g ∷ gs) ≡ false → any (has_edge k) es ≡ false))
            joined
            (
              All-append (IsNamed b) here rest (All-IsNamed b g.key here all) named,
              AreApart-append here rest
                  (segment_rows-AreApart b g.key (segment is) here made (segment-IsMaximal is))
                  apart (none_other b g.key here rest all (only g.key u.0)),
              λ k other.
                  any-append (has_edge k) here rest
                  ∙ ground (
                    arith,
                    none_of_edge k b g.key here all (ground (arith, other)),
                    only k (ground (arith, other)),
                  ),
            )
    ]
  ]
]

-- With a digest that is free of collisions the insertion of the rows succeeds.
pub group_rows-collides :
    (b : Builder) (gs : List Group) (rows : List EdgeProjection)
    → IsCollisionFree b.digest
    → group_rows b gs ≡ some rows
    → IsUnique gs
    → collides rows ≡ false
group_rows-collides b gs rows free h u =
    let (named, apart, only) = group_rows-AreApart b gs rows h u in
    AreApart-collides b rows free named apart

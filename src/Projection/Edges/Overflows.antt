-- ===== src/Projection/Edges/Overflows.antt =====
-- `rebuild_edge_projection` where a claim ends on the last date.
use criminal_networks_analys.Common.{
  ℕ, ◌≡◌, ◌≢◌, refl, ap, Bool, true, false, not, Option, none, some, List, [], ◌∷◌, arith, select,
  Option-cases, Bool-cases, inl, inr, All, any,
}
use criminal_networks_analys.Projection.Store.{Claim, EdgeProjection, Ontology, Database}
use criminal_networks_analys.Projection.Groups.{Key, Group, no_groups, insert_group, sort_groups}
use criminal_networks_analys.Projection.Build.{
  Builder, intervals, group_rows, ordered_claims, builder_of, resolver_of, grouping_of,
  rebuild_edge_projection,
}
use criminal_networks_analys.Projection.Edges.{supports}
use criminal_networks_analys.Projection.Edges.Grouped.{group_of, group_of-group_claims}
use criminal_networks_analys.Projection.Edges.Built.{rebuild-rows}
use criminal_networks_analys.Projection.Edges.Known.{ends_before_last}

abbrev ends_last : Claim → Bool
ends_last c = not (ends_before_last c)

abbrev NoneEndsLast : List Group → Type 0
NoneEndsLast gs = All (λ g. any ends_last g.claims ≡ false) gs

intervals-NoneEndsLast : (cs : List Claim) → intervals cs ≢ none → any ends_last cs ≡ false
unfolding intervals
intervals-NoneEndsLast [] h = refl
intervals-NoneEndsLast (c ∷ cs) h = elim (Option-cases (intervals cs)) [
  | inl none_rest ↦ absurd (h (ground arith))
  | inr (is, rest) ↦ elim (Bool-cases (ends_last c)) [
    | inl last ↦ absurd (h (ground arith))
    | inr before ↦ ground (arith, intervals-NoneEndsLast cs)
  ]
]

group_rows-NoneEndsLast :
    (b : Builder) (gs : List Group) (rows : List EdgeProjection)
    → group_rows b gs ≡ some rows
    → NoneEndsLast gs
unfolding group_rows
group_rows-NoneEndsLast b [] rows h = tt
group_rows-NoneEndsLast b (g ∷ gs) rows h = elim (Option-cases (intervals g.claims)) [
  | inl overflow ↦ absurd (ground arith)
  | inr (is, bounded) ↦ elim (Option-cases (group_rows b gs)) [
    | inl none_rest ↦ absurd (grind arith)
    | inr (rest, more) ↦ (
      intervals-NoneEndsLast g.claims (λ e. ground arith),
      group_rows-NoneEndsLast b gs rest more,
    )
  ]
]

NoneEndsLast-insert_group :
    (g : Group) (gs : List Group) → NoneEndsLast (insert_group g gs) → NoneEndsLast (g ∷ gs)
NoneEndsLast-insert_group g [] h = h
NoneEndsLast-insert_group g (k ∷ ks) h = ground (arith, h, NoneEndsLast-insert_group g ks)

NoneEndsLast-sort_groups : (gs : List Group) → NoneEndsLast (sort_groups gs) → NoneEndsLast gs
NoneEndsLast-sort_groups [] h = tt
NoneEndsLast-sort_groups (g ∷ gs) h =
    let (first_one, rest) = NoneEndsLast-insert_group g (sort_groups gs) h in
    (first_one, NoneEndsLast-sort_groups gs rest)

group_of-NoneEndsLast :
    (k : Key) (gs : List Group) → NoneEndsLast gs → any ends_last (group_of k gs) ≡ false
group_of-NoneEndsLast k [] h = refl
group_of-NoneEndsLast k (g ∷ gs) h = ground (arith, h, group_of-NoneEndsLast k gs)

-- A rebuild raises if any claim that supports an edge ends on the last date, 9999-12-31.
pub rebuild-overflows :
    (digest : Key → Option ℕ → Option ℕ → ℕ) (ontology : Ontology) (db : Database) (k : Key)
    → any
        (λ c. not (ends_before_last c))
        (select (supports (resolver_of ontology db) k) (ordered_claims db))
      ≡ true
    → rebuild_edge_projection digest ontology db ≡ none
rebuild-overflows digest ontology db k last =
    elim (Option-cases (rebuild_edge_projection digest ontology db)) [
      | inl raised ↦ raised
      | inr ((report, db'), done) ↦
          let (revision, head, made) = rebuild-rows digest ontology db done in
          let groups = (grouping_of ontology db).groups in
          let good = group_of-NoneEndsLast k groups (
            NoneEndsLast-sort_groups groups (
              group_rows-NoneEndsLast (builder_of digest ontology db revision) (sort_groups groups)
                db'.edges made)) in
          let same =
            group_of-group_claims (resolver_of ontology db) k (ordered_claims db) no_groups in
          absurd (ground (arith, last, good, ap (any ends_last) same))
    ]

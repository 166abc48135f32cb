-- ===== src/Projection/Edges/Succeeds.antt =====
-- `rebuild_edge_projection` where no claim ends on the last date.
use criminal_networks_analys.Common.{
  ℕ, ◌≡◌, refl, ◌∙◌, Bool, true, false, ◌&&◌, not, Option, none, some, List, [], ◌∷◌, ◌==◌, ==_refl,
  arith, select, is_none, All, All-append, any,
}
use criminal_networks_analys.Common.Dict.{Dict, insert, lookup-insert}
use criminal_networks_analys.Identity.Ledger.{max_revision}
use criminal_networks_analys.Projection.Store.{Claim, EdgeProjection, Ontology, Database}
use criminal_networks_analys.Projection.Groups.{
  Key, Group, Resolver, Grouping, key_of, add_claim, group_row, group_claims, no_groups,
  insert_group, sort_groups,
}
use criminal_networks_analys.Projection.Build.{
  EdgeProjectionReport, claim_dict, is_edge_claim, ordered_claims, builder_of, report_of,
  resolver_of, grouping_of, rebuild_edge_projection,
}
use criminal_networks_analys.Projection.Edges.Grouped.{group_claims-IsUnique}
use criminal_networks_analys.Projection.Edges.Apart.{IsCollisionFree}
use criminal_networks_analys.Projection.Edges.Distinct.{sort_groups-IsUnique, group_rows-collides}
use criminal_networks_analys.Projection.Edges.Known.{
  unknown, ends_before_last, Buildable, AreBuildable, group_rows-succeeds,
}

insert_group-AreBuildable :
    (d : Dict Claim) (g : Group) (gs : List Group)
    → All (Buildable d) g.claims
    → AreBuildable d gs
    → AreBuildable d (insert_group g gs)
insert_group-AreBuildable d g [] h hs = (h, tt)
insert_group-AreBuildable d g (k ∷ ks) h hs =
    ground (arith, h, hs, insert_group-AreBuildable d g ks h hs.1)

sort_groups-AreBuildable :
    (d : Dict Claim) (gs : List Group) → AreBuildable d gs → AreBuildable d (sort_groups gs)
sort_groups-AreBuildable d [] hs = tt
sort_groups-AreBuildable d (g ∷ gs) hs =
    insert_group-AreBuildable d g (sort_groups gs) hs.0 (sort_groups-AreBuildable d gs hs.1)

add_claim-AreBuildable :
    (d : Dict Claim) (k : Key) (c : Claim) (gs : List Group)
    → Buildable d c
    → AreBuildable d gs
    → AreBuildable d (add_claim k c gs)
add_claim-AreBuildable d k c [] h hs = ((h, tt), tt)
add_claim-AreBuildable d k c (g ∷ gs) h hs = ground (
  arith,
  h,
  hs,
  add_claim-AreBuildable d k c gs h hs.1,
  All-append (Buildable d) g.claims (c ∷ []) hs.0 (h, tt),
)

group_row-AreBuildable :
    (d : Dict Claim) (v : Resolver) (c : Claim) (object : Option ℕ) (live : Bool) (g : Grouping)
    → (((elim object [ none ↦ false | some _ ↦ true ]) && live) ≡ true → Buildable d c)
    → AreBuildable d g.groups
    → AreBuildable d (group_row v c object live g).groups
group_row-AreBuildable d v c none live g h hs = hs
group_row-AreBuildable d v c (some object) false g h hs = hs
group_row-AreBuildable d v c (some object) true g h hs =
    ground (arith, hs, add_claim-AreBuildable d (key_of v object c) c g.groups (h refl) hs)

group_claims-AreBuildable :
    (d : Dict Claim) (v : Resolver) (cs : List Claim) (g : Grouping)
    → All (λ c. is_edge_claim c ≡ true → Buildable d c) cs
    → AreBuildable d g.groups
    → AreBuildable d (group_claims v cs g).groups
unfolding group_claims
group_claims-AreBuildable d v [] g h hs = hs
group_claims-AreBuildable d v (c ∷ cs) g h hs =
    group_claims-AreBuildable d v cs _ h.1
      (group_row-AreBuildable d v c c.object_id (is_none c.retracted_at) g h.0 hs)

unknown-claim_dict :
    (i : ℕ) (cs : List Claim) (d : Dict Claim)
    → unknown (claim_dict cs d) i ≡ (unknown d i && not (any (λ c. c.claim_id == i) cs))
unfolding claim_dict
unknown-claim_dict i [] d = ground arith
unknown-claim_dict i (c ∷ cs) d =
    unknown-claim_dict i cs (insert c.claim_id c d) ∙ ground (arith, lookup-insert c.claim_id i c d)

are_known :
    (d : Dict Claim) (cs : List Claim)
    → ((i : ℕ) → any (λ c. c.claim_id == i) (select is_edge_claim cs) ≡ true → unknown d i ≡ false)
    → any (λ c. not (ends_before_last c)) (select is_edge_claim cs) ≡ false
    → All (λ c. is_edge_claim c ≡ true → Buildable d c) cs
are_known d [] known ends = tt
are_known d (c ∷ cs) known ends = (
  (λ live. (ground (arith, live), known c.claim_id (ground (arith, live, ==_refl c.claim_id)))),
  are_known d cs (λ i m. known i (ground (arith, m))) (ground arith),
)

-- With a digest that is free of collisions, a rebuild succeeds in a migrated database in which no live
-- claim between entities ends on the last date: no two of its rows have one identifier, so that they
-- can be inserted.
pub rebuild_edge_projection-succeeds :
    (digest : Key → Option ℕ → Option ℕ → ℕ) (ontology : Ontology) (db : Database) (revision : ℕ)
    → IsCollisionFree digest
    → max_revision db.revisions ≡ some revision
    → any (λ c. not (ends_before_last c)) (select is_edge_claim (ordered_claims db)) ≡ false
    → (report : EdgeProjectionReport) × (rows : List EdgeProjection) × (rebuild_edge_projection
          digest ontology db
        ≡ some (report, record db { edges = rows }))
unfolding rebuild_edge_projection
rebuild_edge_projection-succeeds digest ontology db revision free head ends =
    let b = builder_of digest ontology db revision in
    let groups = (grouping_of ontology db).groups in
    let known =
      are_known b.by_claim (ordered_claims db)
        (λ i m.
          unknown-claim_dict i (select is_edge_claim (ordered_claims db)) [] ∙ ground (arith, m))
        ends in
    let (rows, made) = group_rows-succeeds b (sort_groups groups) (
      sort_groups-AreBuildable b.by_claim groups (
        group_claims-AreBuildable b.by_claim (resolver_of ontology db) (ordered_claims db) no_groups
          known tt)) in
    let unique =
      sort_groups-IsUnique groups
        (group_claims-IsUnique (resolver_of ontology db) (ordered_claims db) no_groups tt) in
    let fits = group_rows-collides b (sort_groups groups) rows free made unique in
    (report_of ontology revision (grouping_of ontology db) rows, rows, rw (head, made, fits) refl)

-- ===== src/Projection/Edges/Built.antt =====
-- `rebuild_edge_projection` as a whole: the projection and the claims, edge by edge and date by date.
use criminal_networks_analys.Common.{
  ℕ, ◌≤◌, ◌<◌, ◌≡◌, refl, ◌∙◌, Option, some, arith, select, Option-cases, inl, inr,
}
use criminal_networks_analys.Identity.Ledger.{max_revision}
use criminal_networks_analys.Projection.Store.{Ontology, Database}
use criminal_networks_analys.Projection.Groups.{Key, no_groups, sort_groups}
use criminal_networks_analys.Projection.Segments.{neg_inf, pos_inf}
use criminal_networks_analys.Projection.Build.{
  rebuild_edge_projection, EdgeProjectionReport, group_rows, builder_of, grouping_of, resolver_of,
  ordered_claims,
}
use criminal_networks_analys.Projection.Edges.{edge_claims_at, valid_claims, supports}
use criminal_networks_analys.Projection.Edges.Grouped.{
  group_of-group_claims, group_claims-IsUnique, claims_at-group_of, at_sort_groups,
}
use criminal_networks_analys.Projection.Edges.Rows.{group_rows-at}

pub rebuild-rows :
    (digest : Key → Option ℕ → Option ℕ → ℕ) (ontology : Ontology) (db : Database) {db' : Database}
    {report : EdgeProjectionReport}
    → rebuild_edge_projection digest ontology db ≡ some (report, db')
    → (revision : ℕ) × (max_revision db.revisions ≡ some revision)
      × (group_rows
            (builder_of digest ontology db revision)
            (sort_groups (grouping_of ontology db).groups)
          ≡ some db'.edges)
unfolding rebuild_edge_projection
rebuild-rows digest ontology db h = elim (Option-cases (max_revision db.revisions)) [
  | inl not_migrated ↦ absurd (ground arith)
  | inr (revision, head) ↦
      elim (Option-cases (
        group_rows (builder_of digest ontology db revision)
          (sort_groups (grouping_of ontology db).groups))) [
            | inl failed ↦ absurd (ground arith)
            | inr (rows, made) ↦ (revision, head, ground arith)
          ]
]

pub rebuild-revisions :
    (digest : Key → Option ℕ → Option ℕ → ℕ) (ontology : Ontology) (db : Database) {db' : Database}
    {report : EdgeProjectionReport}
    → rebuild_edge_projection digest ontology db ≡ some (report, db')
    → db'.revisions ≡ db.revisions
unfolding rebuild_edge_projection
rebuild-revisions digest ontology db h = elim (Option-cases (max_revision db.revisions)) [
  | inl not_migrated ↦ absurd (ground arith)
  | inr (revision, head) ↦
      elim (Option-cases (
        group_rows (builder_of digest ontology db revision)
          (sort_groups (grouping_of ontology db).groups))) [
            | inl failed ↦ absurd (ground arith)
            | inr (rows, made) ↦ ground arith
          ]
]

-- After a rebuild the rows of an edge name, at every date before the last one that a date can hold,
-- exactly the claims that support the edge and are valid then, and there is no row if there are none.
-- A claim supports an edge if it is not retracted and its two ends resolve to the edge's two
-- different ends, through their anchors where these belong somewhere and else through the canonical
-- map, in the order of the identifiers if the predicate is symmetric.
pub rebuild-edge_claims_at :
    (digest : Key → Option ℕ → Option ℕ → ℕ) (ontology : Ontology) (db : Database) {db' : Database}
    {report : EdgeProjectionReport} (k : Key) (d : ℕ)
    → rebuild_edge_projection digest ontology db ≡ some (report, db')
    → neg_inf ≤ d
    → d < pos_inf
    → edge_claims_at k d db'.edges
      ≡ valid_claims d (select (supports (resolver_of ontology db) k) (ordered_claims db))
rebuild-edge_claims_at digest ontology db {db'} k d h low high =
    let (revision, head, made) = rebuild-rows digest ontology db h in
    let groups = (grouping_of ontology db).groups in
    group_rows-at (builder_of digest ontology db revision) k (sort_groups groups) db'.edges d made
      low high
    ∙ at_sort_groups k d groups
    ∙ claims_at-group_of k d groups
        (group_claims-IsUnique (resolver_of ontology db) (ordered_claims db) no_groups tt)
    ∙ rw (group_of-group_claims (resolver_of ontology db) k (ordered_claims db) no_groups) refl

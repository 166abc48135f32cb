-- ===== src/Projection/Staleness.antt =====
-- `is_stale` after a rebuild, and after the next identity decision.
use criminal_networks_analys.Common.{
  none, false, ℕ, ◌≡◌, ◌≢◌, refl, sym, ◌∙◌, ap, true, Option, some, List, [], ◌∷◌, ◌++◌, arith, All,
  All-append, Option-cases, inl, inr, ◌⊎◌,
}
use criminal_networks_analys.Identity.Store.{
  Session, IdentityRevision, IdentityMembership, IdentityDecision,
}
use criminal_networks_analys.Identity.Ledger.{max_revision}
use criminal_networks_analys.Identity.Moves.{revision_row}
use criminal_networks_analys.Identity.Effects.Steps.{Decided}
use criminal_networks_analys.Identity.Effects.Confirm.{confirm-Confirmed}
use criminal_networks_analys.Identity.Effects.Split.{split-Splitted}
use criminal_networks_analys.Identity.Effects.Reject.{reject-Decided, unresolved-Decided}
use criminal_networks_analys.Identity.Steps.{
  Adjudicates, confirms, rejects, splits, leaves, IsSound, RevisionBelow, max_revision-lt,
}
use criminal_networks_analys.Projection.Store.{EdgeProjection, Ontology, Database}
use criminal_networks_analys.Projection.Groups.{Key, Group}
use criminal_networks_analys.Projection.Segments.{Segment, segment}
use criminal_networks_analys.Projection.Stamps.{oldest_build, is_stale}
use criminal_networks_analys.Projection.Build.{
  Builder, EdgeProjectionReport, intervals, claims_of, segment_rows, group_rows, edge_row,
  rebuild_edge_projection,
}
use criminal_networks_analys.Projection.Edges.Built.{rebuild-revisions, rebuild-rows}

abbrev BuiltAt : ℕ → EdgeProjection → Type 0
BuiltAt revision e = e.built_at_revision_id ≡ revision

segment_rows-BuiltAt :
    (b : Builder) (k : Key) (ss : List Segment) (rows : List EdgeProjection)
    → segment_rows b k ss ≡ some rows
    → All (BuiltAt b.revision_id) rows
unfolding segment_rows edge_row
segment_rows-BuiltAt b k [] rows h = ground arith
segment_rows-BuiltAt b k (s ∷ ss) rows h = elim (Option-cases (claims_of b.by_claim s.claim_ids)) [
  | inl missing ↦ absurd (ground arith)
  | inr (cs, found) ↦ elim (Option-cases (segment_rows b k ss)) [
    | inl none_rest ↦ absurd (ground arith)
    | inr (rest, more) ↦ ground (arith, segment_rows-BuiltAt b k ss rest more)
  ]
]

group_rows-BuiltAt :
    (b : Builder) (gs : List Group) (rows : List EdgeProjection)
    → group_rows b gs ≡ some rows
    → All (BuiltAt b.revision_id) rows
unfolding group_rows
group_rows-BuiltAt b [] rows h = ground arith
group_rows-BuiltAt b (g ∷ gs) rows h = elim (Option-cases (intervals g.claims)) [
  | inl overflow ↦ absurd (ground arith)
  | inr (is, bounded) ↦ elim (Option-cases (segment_rows b g.key (segment is))) [
    | inl missing ↦ absurd (ground arith)
    | inr (here, made) ↦ elim (Option-cases (group_rows b gs)) [
      | inl none_rest ↦ absurd (ground arith)
      | inr (rest, more) ↦ ground (
        arith,
        All-append (BuiltAt b.revision_id) here rest
            (segment_rows-BuiltAt b g.key (segment is) here made)
            (group_rows-BuiltAt b gs rest more),
      )
    ]
  ]
]

oldest_build-BuiltAt :
    (revision : ℕ) (es : List EdgeProjection)
    → es ≢ []
    → All (BuiltAt revision) es
    → oldest_build es ≡ some revision
unfolding oldest_build
oldest_build-BuiltAt revision [] some_row h = absurd (some_row refl)
oldest_build-BuiltAt revision (e ∷ []) some_row h = ground (arith, h)
oldest_build-BuiltAt revision (e ∷ f ∷ es) some_row h =
    ground (arith, h, oldest_build-BuiltAt revision (f ∷ es) (λ q. cc) h.1)

rebuilt_at :
    (digest : Key → Option ℕ → Option ℕ → ℕ) (ontology : Ontology) (db : Database) {db' : Database}
    {report : EdgeProjectionReport}
    → rebuild_edge_projection digest ontology db ≡ some (report, db')
    → (revision : ℕ) × (max_revision db.revisions ≡ some revision)
      × All (BuiltAt revision) db'.edges
rebuilt_at digest ontology db {db'} h =
    let (revision, head, made) = rebuild-rows digest ontology db h in
    (revision, head, group_rows-BuiltAt _ _ db'.edges made)

oldest_build-cases :
    (revision : ℕ) (es : List EdgeProjection)
    → All (BuiltAt revision) es
    → (oldest_build es ≡ none) ⊎ (oldest_build es ≡ some revision)
unfolding oldest_build
oldest_build-cases revision [] h = inl refl
oldest_build-cases revision (e ∷ es) h = inr (oldest_build-BuiltAt revision (e ∷ es) (λ q. cc) h)

-- A projection that was just rebuilt is not stale.
pub rebuild-is_fresh :
    (digest : Key → Option ℕ → Option ℕ → ℕ) (ontology : Ontology) (db : Database) {db' : Database}
    {report : EdgeProjectionReport}
    → rebuild_edge_projection digest ontology db ≡ some (report, db')
    → is_stale db' ≡ some false
unfolding is_stale
rebuild-is_fresh digest ontology db {db'} h =
    let (revision, head, built) = rebuilt_at digest ontology db h in
    let same = ap max_revision (rebuild-revisions digest ontology db h) in
    elim (oldest_build-cases revision db'.edges built) [
      | inl no_row ↦ ground (arith, no_row)
      | inr at ↦ ground (arith, at, same, head)
    ]

max_revision-append :
    (n : ℕ) (d : Option ℕ) (rs : List IdentityRevision)
    → All (RevisionBelow n) rs
    → max_revision (rs ++ revision_row n d ∷ []) ≡ some n
unfolding max_revision
max_revision-append n d [] h = ground arith
max_revision-append n d (r ∷ rs) h = ground (arith, h, max_revision-append n d rs h.1)

Adjudicates-Decided :
    {s t : Session}
    → Adjudicates s t
    → (ms : List IdentityMembership) × (d : IdentityDecision) × Decided s t ms d
Adjudicates-Decided {s} (confirms actor note parent a b candidate r h) =
    let (survivor, absorbed, c) = confirm-Confirmed actor note parent a b candidate s h in
    (_, _, c.decided)
Adjudicates-Decided {s} (rejects actor note parent a b basis candidate r h) =
    (_, _, reject-Decided actor note parent a b basis candidate s h)
Adjudicates-Decided {s} (splits actor note parent entity mentions target r h) =
    let (onto, d, c) = split-Splitted actor note parent entity mentions target s h in
    (_, _, c.decided)
Adjudicates-Decided {s} (leaves actor note parent a b candidate r h) =
    (_, _, unresolved-Decided actor note parent a b candidate s h)

-- The projection that a rebuild of a sound ledger's tables left, if it has any row, is stale as soon as
-- one identity decision has been made, of whichever kind.
pub Adjudicates-makes_stale :
    (digest : Key → Option ℕ → Option ℕ → ℕ) (ontology : Ontology) (db : Database) {db' : Database}
    {report : EdgeProjectionReport} {s t : Session}
    → rebuild_edge_projection digest ontology db ≡ some (report, db')
    → db.revisions ≡ s.revisions
    → db'.edges ≢ []
    → IsSound s
    → Adjudicates s t
    → is_stale (record db' { revisions = t.revisions }) ≡ some true
unfolding is_stale
Adjudicates-makes_stale digest ontology db {db'} {s = s} {t = t} h same some_row v a =
    let (revision, head, built) = rebuilt_at digest ontology db h in
    let (ms, d, decided) = Adjudicates-Decided a in
    let now = max_revision-append s.next_revision (some d.decision_id) s.revisions v.revisions in
    ground (
      arith,
      oldest_build-BuiltAt revision db'.edges some_row built,
      ap max_revision decided.revisions,
      now,
      max_revision-lt s.next_revision revision s.revisions v.revisions
          (ap max_revision (sym same) ∙ head),
    )

-- ===== src/Projection/Build.antt =====
-- aegis/projections/edges.py: `_intervals`, and the rows of `rebuild_edge_projection`. An exception is
-- `none`.
use criminal_networks_analys.Common.{
  ℕ, suc, String, Bool, true, false, ◌&&◌, ◌||◌, any, Option, none, some, List, [], ◌∷◌, ◌++◌, ltb,
  ◌==◌, if◌then◌else◌, select, sort_by, length, is_none,
}
use criminal_networks_analys.Common.Dict.{Dict, lookup, insert}
use criminal_networks_analys.Identity.Ledger.{max_revision}
use criminal_networks_analys.Projection.Store.{
  Claim, Source, SourceRecord, Ontology, EdgeProjection, Database,
}
use criminal_networks_analys.Projection.Support.{
  Index, relation_index, support_summary, distinct_records, handling_rank,
}
use criminal_networks_analys.Projection.Segments.{
  Interval, Segment, segment, to_bound, neg_inf, pos_inf,
}
use criminal_networks_analys.Projection.Groups.{
  Key, Group, Resolver, Grouping, canonical_dict, anchor_dict, group_claims, no_groups, sort_groups,
}

abbrev pub start_of : Option ℕ → ℕ
start_of none = neg_inf
start_of (some d) = d

-- `claim.valid_to + _DAY` raises OverflowError at `date.max`.
abbrev pub end_of : Option ℕ → Option ℕ
end_of none = some pos_inf
end_of (some d) = if d == pos_inf then none else some (suc d)

abbrev pub with_end : Claim → Option ℕ → Option Interval
with_end c none = none
with_end c (some end) =
    some (record { start = start_of c.valid_from; end = end; claim_id = c.claim_id })

abbrev pub cons_both {ℓ} : {A : Type ℓ} → Option A → Option (List A) → Option (List A)
cons_both (some x) (some xs) = some (x ∷ xs)
cons_both _ _ = none

unfoldable pub intervals : List Claim → Option (List Interval)
intervals [] = some []
intervals (c ∷ cs) = cons_both (with_end c (end_of c.valid_to)) (intervals cs)

-- `{claim.claim_id: claim for claim in claims}`
unfoldable pub claim_dict : List Claim → Dict Claim → Dict Claim
claim_dict [] d = d
claim_dict (c ∷ cs) d = claim_dict cs (insert c.claim_id c d)

-- `[by_claim[claim_id] for claim_id in claim_ids]`
unfoldable pub claims_of : Dict Claim → List ℕ → Option (List Claim)
claims_of by_claim [] = some []
claims_of by_claim (i ∷ is) = cons_both (lookup i by_claim) (claims_of by_claim is)

abbrev pub larger : ℕ → ℕ → ℕ
larger a b = if ltb a b then b else a

-- The maximum of the ranks; there is at least one claim.
unfoldable pub max_rank : List Claim → ℕ
max_rank [] = 0
max_rank (c ∷ cs) = larger (handling_rank c.handling_code) (max_rank cs)

-- What every row of one build is made with.
pub record Builder : Type 0 where
  pub digest : Key → Option ℕ → Option ℕ → ℕ
  pub by_claim : Dict Claim
  pub reliability : Dict (Option String)
  pub relations : Index
  pub revision_id : ℕ
  pub ontology_version : String

abbrev pub builder_version : String
builder_version = "edge-projection-v2"

unfoldable pub edge_row : Builder → Key → Segment → List Claim → EdgeProjection
unfolding to_bound
edge_row b k s cs = record {
  edge_id = b.digest k (to_bound false s.low) (to_bound true s.high);
  subject_id = k.subject;
  object_id = k.object;
  predicate = k.predicate;
  segment_from = to_bound false s.low;
  segment_to = to_bound true s.high;
  claim_ids = s.claim_ids;
  record_count = distinct_records cs;
  support = support_summary cs b.reliability b.relations;
  handling_rank = max_rank cs;
  built_at_revision_id = b.revision_id;
  ontology_version = b.ontology_version;
  builder_version = builder_version;
}

abbrev pub map_row_of : Builder → Key → Segment → Option (List Claim) → Option EdgeProjection
map_row_of b k s none = none
map_row_of b k s (some cs) = some (edge_row b k s cs)

unfoldable pub segment_rows : Builder → Key → List Segment → Option (List EdgeProjection)
segment_rows b k [] = some []
segment_rows b k (s ∷ ss) =
    cons_both (map_row_of b k s (claims_of b.by_claim s.claim_ids)) (segment_rows b k ss)

abbrev pub rows_of_intervals : Builder → Key → Option (List Interval) → Option (List EdgeProjection)
rows_of_intervals b k none = none
rows_of_intervals b k (some is) = segment_rows b k (segment is)

abbrev pub append_both {ℓ} : {A : Type ℓ} → Option (List A) → Option (List A) → Option (List A)
append_both (some xs) (some ys) = some (xs ++ ys)
append_both _ _ = none

-- The loop over the sorted groups.
unfoldable pub group_rows : Builder → List Group → Option (List EdgeProjection)
unfolding segment_rows
group_rows b [] = some []
group_rows b (g ∷ gs) =
    append_both (rows_of_intervals b g.key (intervals g.claims)) (group_rows b gs)

-- The join of the records with their sources.
abbrev pub source_of : ℕ → List Source → Option Source
source_of source [] = none
source_of source (s ∷ ss) = if s.source_id == source then some s else source_of source ss

abbrev pub add_reliability : ℕ → Option Source → Dict (Option String) → Dict (Option String)
add_reliability record_id none d = d
add_reliability record_id (some s) d = insert record_id s.reliability_normalized d

unfoldable pub reliability_dict :
    List Source → List SourceRecord → Dict (Option String) → Dict (Option String)
reliability_dict sources [] d = d
reliability_dict sources (r ∷ rs) d =
    reliability_dict sources rs (add_reliability r.record_id (source_of r.source_id sources) d)

pub record EdgeProjectionReport : Type 0 where
  pub edges : ℕ
  pub segments : ℕ
  pub claims_considered : ℕ
  pub collapsed_endpoints : ℕ
  pub anchor_resolved : ℕ
  pub map_resolved : ℕ
  pub built_at_revision_id : ℕ
  pub ontology_version : String
  pub builder_version : String

abbrev pub ordered_claims : Database → List Claim
ordered_claims db = sort_by (λ c. c.claim_id) db.claims

abbrev pub is_edge_claim : Claim → Bool
is_edge_claim c = (elim c.object_id [ none ↦ false | some _ ↦ true ]) && is_none c.retracted_at

abbrev pub resolver_of : Ontology → Database → Resolver
resolver_of ontology db = record {
  anchors = anchor_dict db.memberships [];
  canonical = canonical_dict db.canonical_map [];
  ontology = ontology;
}

abbrev pub grouping_of : Ontology → Database → Grouping
grouping_of ontology db = group_claims (resolver_of ontology db) (ordered_claims db) no_groups

abbrev pub builder_of : (Key → Option ℕ → Option ℕ → ℕ) → Ontology → Database → ℕ → Builder
builder_of digest ontology db revision = record {
  digest = digest;
  by_claim = claim_dict (select is_edge_claim (ordered_claims db)) [];
  reliability = reliability_dict db.sources db.records [];
  relations = relation_index none db.relations;
  revision_id = revision;
  ontology_version = ontology.version;
}

abbrev pub report_of : Ontology → ℕ → Grouping → List EdgeProjection → EdgeProjectionReport
report_of ontology revision g rows = record {
  edges = length g.groups;
  segments = length rows;
  claims_considered = g.claims_considered;
  collapsed_endpoints = g.collapsed_endpoints;
  anchor_resolved = g.anchor_resolved;
  map_resolved = g.map_resolved;
  built_at_revision_id = revision;
  ontology_version = ontology.version;
  builder_version = builder_version;
}

-- The insertion raises if two rows have one `edge_id`, the primary key.
abbrev pub collides : List EdgeProjection → Bool
collides [] = false
collides (e ∷ es) = any (λ f. f.edge_id == e.edge_id) es || collides es

abbrev pub store_rows :
    Ontology
    → ℕ
    → Grouping
    → Option (List EdgeProjection)
    → Database
    → Option (EdgeProjectionReport × Database)
store_rows ontology revision g none db = none
store_rows ontology revision g (some rows) db =
    if collides rows
    then none
    else some (report_of ontology revision g rows, record db { edges = rows })

abbrev pub rebuild_at :
    (Key → Option ℕ → Option ℕ → ℕ)
    → Ontology
    → Option ℕ
    → Database
    → Option (EdgeProjectionReport × Database)
rebuild_at digest ontology none db = none
rebuild_at digest ontology (some revision) db =
    store_rows ontology revision (grouping_of ontology db)
      (group_rows (builder_of digest ontology db revision)
        (sort_groups (grouping_of ontology db).groups))
      db

-- The digest of `_edge_id` is a parameter.
unfoldable pub rebuild_edge_projection :
    (Key → Option ℕ → Option ℕ → ℕ) → Ontology → Database → Option (EdgeProjectionReport × Database)
unfolding max_revision group_rows group_claims
rebuild_edge_projection digest ontology db =
    rebuild_at digest ontology (max_revision db.revisions) db

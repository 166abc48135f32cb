-- ===== src/Projection/Tests.antt =====
-- Runs of the edge projection on a small database.
use criminal_networks_analys.Common.{
  false, ℕ, zero, suc, ◌+◌, ◌*◌, ap, length, ◌≡◌, refl, true, Option, none, some, List, [], ◌∷◌,
  arith, select,
}
use criminal_networks_analys.Identity.Store.{Session, IdentityDecision, unresolved}
use criminal_networks_analys.Identity.Ledger.{opened, max_revision}
use criminal_networks_analys.Identity.Moves.{revision_row}
use criminal_networks_analys.Identity.Adjudication.{plain_result, mark_unresolved}
use criminal_networks_analys.Identity.Steps.{IsSound, Adjudicates, leaves}
use criminal_networks_analys.Projection.Store.{
  Claim, contradicts, Ontology, Database, EdgeProjection,
}
use criminal_networks_analys.Projection.Support.{touches, relation_index, is_visible}
use criminal_networks_analys.Projection.Segments.{Interval, covering, segment, pos_inf}
use criminal_networks_analys.Projection.Segments.Merging.{claims_at, IsMaximal}
use criminal_networks_analys.Projection.Segments.Dates.{segment-claims_at, segment-IsMaximal}
use criminal_networks_analys.Projection.Groups.{Key, anchor_dict, canonical_dict, resolve_end}
use criminal_networks_analys.Projection.Stamps.{is_stale}
use criminal_networks_analys.Projection.Build.{
  EdgeProjectionReport, rebuild_edge_projection, intervals, claim_dict, claims_of, edge_row,
  resolver_of, ordered_claims,
}
use criminal_networks_analys.Projection.Edges.{edge_claims_at, valid_claims, supports}
use criminal_networks_analys.Projection.Edges.Built.{rebuild-edge_claims_at}
use criminal_networks_analys.Projection.Edges.Apart.{IsCollisionFree}
use criminal_networks_analys.Projection.Edges.Succeeds.{rebuild_edge_projection-succeeds}
use criminal_networks_analys.Projection.Edges.Overflows.{rebuild-overflows}
use criminal_networks_analys.Projection.Relations.{ends_at, touches-relation_index}
use criminal_networks_analys.Projection.Staleness.{rebuild-is_fresh, Adjudicates-makes_stale}

abbrev claim : ℕ → Option ℕ → Option ℕ → Claim
claim i from to = record {
  claim_id = i;
  subject_id = 1;
  predicate = 5;
  object_id = some 2;
  subject_mention_id = none;
  object_mention_id = some 11;
  assertion_type = "reported";
  record_id = 9;
  credibility_normalized = "cannot_judge";
  verification_status = "unverified";
  analytic_confidence = none;
  valid_from = from;
  valid_to = to;
  retracted_at = none;
  handling_code = "open";
}

abbrev knows : Key
knows = record { subject = 1; object = 2; predicate = 5 }

abbrev ontology : Ontology
ontology = record { version = "1"; predicates = [] }

abbrev database : List Claim → Database
database cs = record {
  revisions = revision_row 0 none ∷ [];
  memberships = opened 1 11 2 0 ∷ [];
  canonical_map = [];
  sources = [];
  records = [];
  claims = cs;
  relations = record { from_claim = 70; to_claim = 71; relation = contradicts } ∷ [];
  edges = [];
}

-- Two claims with a gap between them.
abbrev gap : Database
gap = database (claim 70 (some 100) (some 120) ∷ claim 71 (some 200) none ∷ [])

-- A digest without collisions: powers of two and odd numbers make a pair.
abbrev pair : ℕ → ℕ → ℕ
pair zero y = 2 * y + 1
pair (suc x) y = 2 * pair x y

pair-injective : (x y z w : ℕ) → pair x y ≡ pair z w → (x ≡ z) × (y ≡ w)
pair-injective zero y zero w h = (refl, omega (arith, h))
pair-injective zero y (suc z) w h = absurd (omega (arith, h))
pair-injective (suc x) y zero w h = absurd (omega (arith, h))
pair-injective (suc x) y (suc z) w h =
    let (a, b) = pair-injective x y z w (omega (arith, h)) in (omega (arith, a), b)

abbrev number : Option ℕ → ℕ
number none = 0
number (some n) = suc n

number-injective : (a b : Option ℕ) → number a ≡ number b → a ≡ b
number-injective none none h = refl
number-injective none (some b) h = absurd (omega (arith, h))
number-injective (some a) none h = absurd (omega (arith, h))
number-injective (some a) (some b) h = ap (λ n. some n) (omega (arith, h))

abbrev digest : Key → Option ℕ → Option ℕ → ℕ
digest k from to =
    pair k.subject (pair k.object (pair k.predicate (pair (number from) (number to))))

digest-IsCollisionFree : IsCollisionFree digest
digest-IsCollisionFree j k a b c d h =
    let (s, h1) = pair-injective j.subject _ k.subject _ h in
    let (o, h2) = pair-injective j.object _ k.object _ h1 in
    let (p, h3) = pair-injective j.predicate _ k.predicate _ h2 in
    let (f, t) = pair-injective (number a) _ (number b) _ h3 in
    (ground (arith, s, o, p), number-injective a b f, number-injective c d t)

abbrev no_report : EdgeProjectionReport
no_report = record {
  edges = 0;
  segments = 0;
  claims_considered = 0;
  collapsed_endpoints = 0;
  anchor_resolved = 0;
  map_resolved = 0;
  built_at_revision_id = 0;
  ontology_version = "";
  builder_version = "";
}

abbrev value : Option (EdgeProjectionReport × Database) → EdgeProjectionReport × Database
value none = (no_report, gap)
value (some r) = r

abbrev built : Database
built = (value (rebuild_edge_projection digest ontology gap)).1

abbrev report : EdgeProjectionReport
report = (value (rebuild_edge_projection digest ontology gap)).0

build_runs : rebuild_edge_projection digest ontology gap ≡ some (report, built)
unfolding rebuild_edge_projection resolve_end canonical_dict anchor_dict intervals segment covering
    claims_of claim_dict edge_row
build_runs = refl

rebuild-edge_claims_at_example :
    edge_claims_at knows 110 built.edges
    ≡ valid_claims 110 (select (supports (resolver_of ontology gap) knows) (ordered_claims gap))
rebuild-edge_claims_at_example =
    rebuild-edge_claims_at digest ontology gap knows 110 build_runs (omega arith) (omega arith)

rebuild_edge_projection-succeeds_example :
    (report : EdgeProjectionReport) × (rows : List EdgeProjection) × (rebuild_edge_projection digest
        ontology gap
      ≡ some (report, record gap { edges = rows }))
unfolding max_revision
rebuild_edge_projection-succeeds_example =
    rebuild_edge_projection-succeeds digest ontology gap 0 digest-IsCollisionFree refl refl

abbrev endless : Database
endless = database (claim 70 none (some pos_inf) ∷ [])

rebuild-overflows_example : rebuild_edge_projection digest ontology endless ≡ none
unfolding anchor_dict canonical_dict resolve_end
rebuild-overflows_example = rebuild-overflows digest ontology endless knows refl

abbrev years : List Interval
years =
    record { start = 100; end = 121; claim_id = 70 }
    ∷ record { start = 110; end = pos_inf; claim_id = 71 }
    ∷ []

segment-claims_at_example :
    claims_at 115 (segment years)
    ≡ (elim (covering years 115) [ [] ↦ none | c ∷ cs ↦ some (c ∷ cs) ])
segment-claims_at_example = segment-claims_at years 115

segment-IsMaximal_example : IsMaximal (segment years)
segment-IsMaximal_example = segment-IsMaximal years

touches-relation_index_example :
    touches 71 (relation_index (some (70 ∷ 71 ∷ [])) gap.relations)
    ≡ ends_at 71 (select (is_visible (some (70 ∷ 71 ∷ []))) gap.relations)
touches-relation_index_example = touches-relation_index 71 (some (70 ∷ 71 ∷ [])) gap.relations

abbrev before : Session
before = record {
  revisions = revision_row 0 none ∷ [];
  next_revision = 1;
  decisions = [];
  memberships = opened 1 10 1 0 ∷ opened 2 11 2 0 ∷ [];
  mentions = [];
  entities = [];
  candidates = [];
  constraints = [];
  canonical_map = [];
  claims = [];
  now = 7;
  ids = λ n. 100 + n;
  drawn = 0;
}

before-IsSound : IsSound before
before-IsSound = record {
  one_active = λ x. ground arith;
  within = ground arith;
  revisions = ground arith;
  decisions = tt;
}

abbrev decision : IdentityDecision
decision = record {
  decision_id = 100;
  kind = unresolved;
  decided_by = "alice";
  decision_note = "cannot tell";
  candidate_id = none;
  input_mentions = 10 ∷ 11 ∷ [];
  parent_revision_id = 0;
  result_revision_id = 1;
}

abbrev after : Session
after = record before {
  revisions = revision_row 0 none ∷ revision_row 1 (some 100) ∷ [];
  next_revision = 2;
  decisions = decision ∷ [];
  drawn = 1;
}

decided : Adjudicates before after
unfolding mark_unresolved
decided = leaves "alice" "cannot tell" 0 10 11 none (plain_result decision) refl

has_rows : length built.edges ≡ 2
unfolding rebuild_edge_projection resolve_end canonical_dict anchor_dict intervals segment covering
    claims_of claim_dict edge_row
has_rows = refl

Adjudicates-makes_stale_example :
    is_stale (record built { revisions = after.revisions }) ≡ some true
Adjudicates-makes_stale_example =
    Adjudicates-makes_stale digest ontology gap build_runs refl
      (λ e. ground (arith, has_rows, ap length e)) before-IsSound decided

rebuild-is_fresh_example : is_stale built ≡ some false
rebuild-is_fresh_example = rebuild-is_fresh digest ontology gap build_runs

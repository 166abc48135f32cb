-- ===== src/Projection/Store.antt =====
-- aegis/store/models.py and aegis/ontology/loader.py: what the edge projection reads and writes, with
-- the columns that its code uses.
use criminal_networks_analys.Common.{ℕ, String, Bool, Option, List}
use criminal_networks_analys.Common.Dict.{Dict}
use criminal_networks_analys.Identity.Store.{
  IdentityRevision, IdentityMembership, EntityCanonicalMap,
}

pub record Claim : Type 0 where
  pub claim_id : ℕ
  pub subject_id : ℕ
  pub predicate : ℕ
  pub object_id : Option ℕ
  pub subject_mention_id : Option ℕ
  pub object_mention_id : Option ℕ
  pub assertion_type : String
  pub record_id : ℕ
  pub credibility_normalized : String
  pub verification_status : String
  pub analytic_confidence : Option String
  pub valid_from : Option ℕ
  pub valid_to : Option ℕ
  pub retracted_at : Option ℕ
  pub handling_code : String

pub data Relation : Type 0 where
  corroborates contradicts : Relation

pub record ClaimRelation : Type 0 where
  pub from_claim : ℕ
  pub to_claim : ℕ
  pub relation : Relation

pub record Source : Type 0 where
  pub source_id : ℕ
  pub reliability_normalized : Option String

pub record SourceRecord : Type 0 where
  pub record_id : ℕ
  pub source_id : ℕ

pub record PredicateSpec : Type 0 where
  pub symmetric : Bool

pub record Ontology : Type 0 where
  pub version : String
  pub predicates : Dict PredicateSpec

-- One claim of a support summary: its grades are kept apart.
pub record SupportEntry : Type 0 where
  pub claim_id : ℕ
  pub record_id : ℕ
  pub reliability : Option String
  pub credibility : String
  pub verification : String
  pub analytic_confidence : Option String
  pub assertion_type : String
  pub handling_code : String
  pub corroborated_by : ℕ
  pub contradicted_by : ℕ

pub record SupportSummary : Type 0 where
  pub method : String
  pub method_version : ℕ
  pub claims : List SupportEntry
  pub corroboration_count : ℕ
  pub contradiction_count : ℕ
  pub record_count : ℕ

pub record EdgeProjection : Type 0 where
  pub edge_id : ℕ
  pub subject_id : ℕ
  pub object_id : ℕ
  pub predicate : ℕ
  pub segment_from : Option ℕ
  pub segment_to : Option ℕ
  pub claim_ids : List ℕ
  pub record_count : ℕ
  pub support : SupportSummary
  pub handling_rank : ℕ
  pub built_at_revision_id : ℕ
  pub ontology_version : String
  pub builder_version : String

pub record Database : Type 0 where
  pub revisions : List IdentityRevision
  pub memberships : List IdentityMembership
  pub canonical_map : List EntityCanonicalMap
  pub sources : List Source
  pub records : List SourceRecord
  pub claims : List Claim
  pub relations : List ClaimRelation
  pub edges : List EdgeProjection

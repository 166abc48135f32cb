-- ===== src/Identity/Store.antt =====
-- aegis/store/models.py: the tables that identity work reads and writes, one record for each
-- class, with the columns that the identity code uses. A table is the list of its rows in
-- insertion order. Identifiers are only compared and ordered, so they are numbers.
use criminal_networks_analys.Common.{ℕ, String, Bool, Option, List}

pub record Entity : Type 0 where
  pub entity_id : ℕ
  pub entity_type : String
  pub label : String
  pub tombstoned_at : Option ℕ

pub record Mention : Type 0 where
  pub mention_id : ℕ
  pub record_id : ℕ
  pub raw_text : String
  pub norm_key : String

pub record IdentityRevision : Type 0 where
  pub revision_id : ℕ
  pub decision_id : Option ℕ

pub data Kind : Type 0 where
  confirm reject merge split unresolved : Kind

pub record IdentityDecision : Type 0 where
  pub decision_id : ℕ
  pub kind : Kind
  pub decided_by : String
  pub decision_note : String
  pub candidate_id : Option ℕ
  pub input_mentions : List ℕ
  pub parent_revision_id : ℕ
  pub result_revision_id : ℕ

pub record IdentityMembership : Type 0 where
  pub membership_id : ℕ
  pub mention_id : ℕ
  pub entity_id : ℕ
  pub opened_revision_id : ℕ
  pub closed_revision_id : Option ℕ

pub data Disposition : Type 0 where
  is_open confirmed rejected undecided superseded : Disposition

pub record ErCandidate : Type 0 where
  pub candidate_id : ℕ
  pub mention_a : ℕ
  pub mention_b : ℕ
  pub producer : String
  pub pre_verified : Bool
  pub disposition : Disposition
  pub decision_id : Option ℕ

pub record NegativeConstraint : Type 0 where
  pub constraint_id : ℕ
  pub mention_a : ℕ
  pub mention_b : ℕ
  pub version : ℕ
  pub decision_id : ℕ
  pub evidence_basis : String
  pub superseded_by : Option ℕ

pub record EntityCanonicalMap : Type 0 where
  pub entity_id : ℕ
  pub canonical_entity_id : ℕ
  pub at_revision_id : ℕ

-- The arguments of a claim and their anchors: what a split reads of it.
pub record ClaimArguments : Type 0 where
  pub claim_id : ℕ
  pub subject_id : ℕ
  pub object_id : Option ℕ
  pub subject_mention_id : Option ℕ
  pub object_mention_id : Option ℕ
  pub retracted_at : Option ℕ

-- The session: the tables, the BIGSERIAL sequence of revisions, the clock, and the identifiers
-- that `new_id` will mint, of which `drawn` are used up.
pub record Session : Type 0 where
  pub revisions : List IdentityRevision
  pub next_revision : ℕ
  pub decisions : List IdentityDecision
  pub memberships : List IdentityMembership
  pub mentions : List Mention
  pub entities : List Entity
  pub candidates : List ErCandidate
  pub constraints : List NegativeConstraint
  pub canonical_map : List EntityCanonicalMap
  pub claims : List ClaimArguments
  pub now : ℕ
  pub ids : ℕ → ℕ
  pub drawn : ℕ

-- ===== src/Actions/Claims/Draft.antt =====
-- aegis/actions/service.py: the arguments of `_create_claim`, and the row that they make.
use Prim.Native.String.{◌++◌ as append_text}
use criminal_networks_analys.Common.{
  ℕ, String, Bool, false, ◌&&◌, Option, none, some, List, [], ◌∷◌, any, ltb, ◌==◌, if◌then◌else◌,
}
use criminal_networks_analys.Identity.Store.{Entity, ClaimArguments}
use criminal_networks_analys.Actions.Store.{Db, Value, Claim}

-- The keyword arguments of `_create_claim`.
pub record ClaimDraft : Type 0 where
  pub predicate : String
  pub record_id : ℕ
  pub assertion_type : String
  pub subject_id : Option ℕ
  pub object_id : Option ℕ
  pub object_value : Option Value
  pub claim_id : Option ℕ
  pub excerpt : Option String
  pub collection_method : Option String
  pub credibility_scheme : Option String
  pub credibility_original : Option String
  pub credibility_normalized : String
  pub verification_status : String
  pub analytic_confidence : Option String
  pub event_time_earliest : Option ℕ
  pub event_time_latest : Option ℕ
  pub valid_from : Option ℕ
  pub valid_to : Option ℕ
  pub handling_code : String
  pub case_id : Option String
  pub jurisdiction : Option String
  pub location_text : Option String
  pub supersedes : Option ℕ
  pub subject_mention_id : Option ℕ
  pub object_mention_id : Option ℕ
  pub subject_entity_type : Option String
  pub object_entity_type : Option String

-- The arguments of the claim once they are resolved and ordered, with the anchors that travel with them.
pub record Sides : Type 0 where
  pub subject : ℕ
  pub object : Option ℕ
  pub subject_mention : Option ℕ
  pub object_mention : Option ℕ

abbrev pub assertion_types : List String
assertion_types = "observed" ∷ "reported" ∷ "inferred" ∷ "assessed" ∷ []

abbrev pub get_entity : ℕ → List Entity → Option Entity
get_entity id [] = none
get_entity id (e ∷ es) = if e.entity_id == id then some e else get_entity id es

-- Both are given, and the second lies before the first.
abbrev pub out_of_order : Option ℕ → Option ℕ → Bool
out_of_order none b = false
out_of_order (some a) none = false
out_of_order (some a) (some b) = ltb b a

abbrev pub claim_exists : {H : Type 0} → ℕ → Db H → Bool
claim_exists id db = any (λ c. c.claim_id == id) db.claims

-- The arguments of a symmetric predicate are put in order, and their anchors with them.
abbrev pub ordered : Bool → ℕ → ℕ → Option ℕ → Option ℕ → Sides
ordered symmetric subject object subject_mention object_mention =
    if symmetric && ltb object subject
    then record {
      subject = object;
      object = some subject;
      subject_mention = object_mention;
      object_mention = subject_mention;
    }
    else record {
      subject = subject;
      object = some object;
      subject_mention = subject_mention;
      object_mention = object_mention;
    }

abbrev pub subject_path : String → String
subject_path name = append_text "predicates." (append_text name ".subject")

abbrev pub object_path : String → String
object_path name = append_text "predicates." (append_text name ".object")

-- What the identity code reads of a claim.
abbrev pub arguments : Claim → ClaimArguments
arguments c = record {
  claim_id = c.claim_id;
  subject_id = c.subject_id;
  object_id = c.object_id;
  subject_mention_id = c.subject_mention_id;
  object_mention_id = c.object_mention_id;
  retracted_at = c.retracted_at;
}

abbrev pub claim_row : String → ClaimDraft → Sides → ℕ → ℕ → ℕ → Claim
claim_row version d s id revision now = record {
  claim_id = id;
  subject_id = s.subject;
  predicate = d.predicate;
  object_id = s.object;
  object_value = d.object_value;
  subject_mention_id = s.subject_mention;
  object_mention_id = s.object_mention;
  identity_revision_id = revision;
  assertion_type = d.assertion_type;
  record_id = d.record_id;
  excerpt = d.excerpt;
  collection_method = d.collection_method;
  credibility_scheme = d.credibility_scheme;
  credibility_original = d.credibility_original;
  credibility_normalized = d.credibility_normalized;
  verification_status = d.verification_status;
  analytic_confidence = d.analytic_confidence;
  event_time_earliest = d.event_time_earliest;
  event_time_latest = d.event_time_latest;
  valid_from = d.valid_from;
  valid_to = d.valid_to;
  recorded_at = now;
  retracted_at = none;
  retraction_reason = none;
  handling_code = d.handling_code;
  case_id = d.case_id;
  jurisdiction = d.jurisdiction;
  location_text = d.location_text;
  supersedes = d.supersedes;
  ontology_version = version;
}

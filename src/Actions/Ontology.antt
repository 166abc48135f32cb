-- ===== src/Actions/Ontology.antt =====
-- aegis/ontology/loader.py: the parts of the registry that the actions ask. A Python dict with names as
-- keys is an association list.
use text.Mathlib.Text.{◌==◌ as str_eq}
use criminal_networks_analys.Common.{
  String, Bool, true, false, ◌||◌, not, Option, none, some, List, [], ◌∷◌, if◌then◌else◌, select,
}

-- `text in texts`
abbrev pub contains : String → List String → Bool
contains t [] = false
contains t (u ∷ us) = str_eq t u || contains t us

abbrev pub is_empty {ℓ} : {A : Type ℓ} → List A → Bool
is_empty [] = true
is_empty (_ ∷ _) = false

abbrev pub find {ℓ} : {A : Type ℓ} → String → List (String × A) → Option A
find k [] = none
find k ((j, a) ∷ d) = if str_eq j k then some a else find k d

-- Either the word "literal", or the list of what the object may be.
pub data ObjectSpec : Type 0 where
  literal : ObjectSpec
  types : List String → ObjectSpec

pub record PredicateSpec : Type 0 where
  pub subject : List String
  pub object : ObjectSpec
  pub symmetric : Bool

abbrev pub allows_literal : ObjectSpec → Bool
allows_literal literal = true
allows_literal (types names) = contains "literal" names

abbrev pub entity_object_types : ObjectSpec → List String
entity_object_types literal = []
entity_object_types (types names) = select (λ name. not (str_eq name "literal")) names

abbrev pub allows_entity : ObjectSpec → Bool
allows_entity o = not (is_empty (entity_object_types o))

pub record ActionSpec : Type 0 where
  pub roles : List String
  pub audit : Bool
  pub dual_control_for : List String

-- The scales of the grading dimensions that claims carry.
pub data Dimension : Type 0 where
  reliability credibility verification analytic_confidence : Dimension

pub record GradingSpec : Type 0 where
  pub reliability_scale : List String
  pub credibility_scale : List String
  pub verification_scale : List String
  pub confidence_scale : List String

abbrev pub values_for : GradingSpec → Dimension → List String
values_for g reliability = g.reliability_scale
values_for g credibility = g.credibility_scale
values_for g verification = g.verification_scale
values_for g analytic_confidence = g.confidence_scale

pub record Ontology : Type 0 where
  pub version : String
  pub handling_codes : List String
  pub grading : GradingSpec
  pub object_types : List String
  pub predicates : List (String × PredicateSpec)
  pub actions : List (String × ActionSpec)

abbrev pub known_roles : List String
known_roles =
    "admin" ∷ "supervisor" ∷ "analyst" ∷ "investigator" ∷ "evidence_officer" ∷ "auditor" ∷ []

-- `Ontology.action` and `Ontology.predicate`, where no entry is the `OntologyError`.
unfoldable pub action : Ontology → String → Option ActionSpec
action o name = find name o.actions

unfoldable pub predicate : Ontology → String → Option PredicateSpec
predicate o name = find name o.predicates

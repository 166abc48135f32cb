-- ===== src/Actions/Relating.antt =====
-- aegis/actions/service.py: `retract_claim` and `link_claims`.
use Prim.Native.String.{◌++◌ as append_text}
use text.Mathlib.Text.{◌==◌ as str_eq}
use criminal_networks_analys.Common.{
  ℕ, String, Bool, ◌&&◌, not, Option, none, some, List, [], ◌∷◌, ◌++◌, is_none, any, ◌==◌,
  if◌then◌else◌,
}
use criminal_networks_analys.Audit.Log.{is_blank}
use criminal_networks_analys.Identity.Store.{ClaimArguments}
use criminal_networks_analys.Actions.Ontology.{Ontology, contains}
use criminal_networks_analys.Actions.Store.{Db, Runtime, ActionContext, str, Claim, ClaimRelation}
use criminal_networks_analys.Actions.Monad.{
  Act, validation, integrity, pure, gets, modify, raise_if, or_raise, ◌>>=◌, ◌>>◌,
}
use criminal_networks_analys.Actions.Gate.{require_action, audit}
use criminal_networks_analys.Actions.Cases.{given}

-- `session.get(Claim, id)`
abbrev pub get_claim : ℕ → List Claim → Option Claim
get_claim id [] = none
get_claim id (c ∷ cs) = if c.claim_id == id then some c else get_claim id cs

abbrev pub retracted : ℕ → String → Claim → Claim
retracted now reason c = record c { retracted_at = some now; retraction_reason = some reason }

abbrev pub retract_row : ℕ → ℕ → String → List Claim → List Claim
retract_row id now reason [] = []
retract_row id now reason (c ∷ cs) =
    if c.claim_id == id then retracted now reason c ∷ cs else c ∷ retract_row id now reason cs

-- The same, in what the identity code reads of the table.
abbrev pub retract_arguments : ℕ → ℕ → List ClaimArguments → List ClaimArguments
retract_arguments id now [] = []
retract_arguments id now (c ∷ cs) =
    if c.claim_id == id
    then record c { retracted_at = some now } ∷ cs
    else c ∷ retract_arguments id now cs

abbrev pub claim_relations : List String
claim_relations = "corroborates" ∷ "contradicts" ∷ []

abbrev pub is_relation : ℕ → ℕ → String → ClaimRelation → Bool
is_relation a b relation r = r.from_claim == a && r.to_claim == b && str_eq r.relation relation

module _ {H : Type 0} where
  abbrev pub retract : ℕ → String → Db H → Db H
  retract id reason db = record db {
    claims = retract_row id db.identity.now reason db.claims;
    identity = record db.identity {
      claims = retract_arguments id db.identity.now db.identity.claims;
    };
  }

  abbrev pub relation_exists : ℕ → ℕ → String → Db H → Bool
  relation_exists a b relation db = any (is_relation a b relation) db.relations

  abbrev pub relation_row : ℕ → ℕ → String → String → Db H → ClaimRelation
  relation_row a b relation actor db = record {
    from_claim = a;
    to_claim = b;
    relation = relation;
    created_by = actor;
    created_at = db.identity.now;
  }

  abbrev pub add_relation : ClaimRelation → Db H → Db H
  add_relation r db = record db { relations = db.relations ++ r ∷ [] }

-- `left.case_id or right.case_id`
abbrev pub either_case : Option String → Option String → Option String
either_case none right = right
either_case (some c) right = some c

module _ {H : Type 0} (rt : Runtime H) (ontology : Ontology) where
  unfoldable pub retract_claim : ActionContext → ℕ → String → Act H Claim
  unfolding require_action
  retract_claim context claim_id reason = do
    require_action ontology "retract_claim" none []
    raise_if (is_blank reason) (validation "claim.retraction_reason")
    found ← gets (λ db. get_claim claim_id db.claims)
    row ← or_raise found (validation "claim.claim_id")
    raise_if (not (is_none row.retracted_at)) (validation "claim.retracted_at")
    now ← gets (λ db. db.identity.now)
    modify (retract claim_id reason)
    audit rt context "retract_claim" "claim" (rt.spell claim_id) row.case_id
        (("reason", str reason) ∷ [])
    pure (retracted now reason row)

  abbrev pub relation_id : ℕ → String → ℕ → String
  relation_id a relation b =
      append_text (rt.spell a)
        (append_text ":" (append_text relation (append_text ":" (rt.spell b))))

  unfoldable pub link_claims : ActionContext → ℕ → ℕ → String → Act H ClaimRelation
  unfolding require_action
  link_claims context from_claim to_claim relation = do
    require_action ontology "link_claims" none []
    raise_if (not (contains relation claim_relations))
        (validation (append_text "claim_relation.relation." relation))
    raise_if (from_claim == to_claim) (validation "claim_relation.to_claim")
    found ← gets (λ db. get_claim from_claim db.claims)
    left ← or_raise found (validation "claim_relation.from_claim")
    found' ← gets (λ db. get_claim to_claim db.claims)
    right ← or_raise found' (validation "claim_relation.to_claim")
    taken ← gets (relation_exists from_claim to_claim relation)
    raise_if taken (integrity "claim_relation_pkey")
    row ← gets (relation_row from_claim to_claim relation context.actor)
    modify (add_relation row)
    audit rt context "link_claims" "claim_relation" (relation_id from_claim relation to_claim)
        (either_case (given left.case_id) right.case_id)
        (("from_claim", str (rt.spell from_claim))
          ∷ ("to_claim", str (rt.spell to_claim))
          ∷ ("relation", str relation)
          ∷ [])
    pure row

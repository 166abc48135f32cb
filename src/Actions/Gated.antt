-- ===== src/Actions/Gated.antt =====
-- Exactly when the gate lets an action through.
use criminal_networks_analys.Common.{
  ◌≡◌, ◌↔◌, refl, String, Bool, true, ◌&&◌, ◌||◌, not, some, List, [], ◌∷◌, arith, inl, inr,
  is_none, Option-cases, any,
}
use criminal_networks_analys.Actions.Ontology.{Ontology, ActionSpec, action, contains, is_empty}
use criminal_networks_analys.Actions.Store.{Db, ActionContext}
use criminal_networks_analys.Actions.Gate.{require_action, overlap, is_text}

-- The two lists have an element in common.
abbrev pub meets : List String → List String → Bool
meets xs ys = any (λ x. contains x ys) xs

-- What the declaration asks of the caller: one of its roles, and for a flag under dual control a second
-- approver, who is someone else.
abbrev pub satisfies : ActionSpec → ActionContext → List String → Bool
satisfies spec c flags =
    spec.audit
    && (is_empty spec.roles || meets spec.roles c.roles)
    && (not (meets spec.dual_control_for flags)
        || (not (is_none c.second_actor) && not (is_text c.second_actor c.actor)))

is_empty-overlap : (xs ys : List String) → is_empty (overlap xs ys) ≡ not (meets xs ys)
is_empty-overlap [] ys = refl
is_empty-overlap (x ∷ xs) ys = ground (arith, is_empty-overlap xs ys)

-- For a caller with a context, the gate lets an action through exactly if the ontology declares it, has it
-- audited, and gives it to no role in particular or to one that the caller holds, and if, where a flag of
-- this call is under dual control, there is a second approver other than the actor. It writes nothing.
pub require_action-exact :
    {H : Type 0} (o : Ontology) (name : String) (c : ActionContext) (flags : List String)
    (db : Db H)
    → (require_action o name (some c) flags db ≡ inr (tt, db))
      ↔ ((spec : ActionSpec) × (action o name ≡ some spec) × (satisfies spec c flags ≡ true))
unfolding require_action
require_action-exact o name c flags db = elim (Option-cases (action o name)) [
  | inl e ↦ (λ h. ground (arith, e, h), λ (spec, there, fine). ground (arith, e, there))
  | inr (spec, e) ↦ (
    λ h. (
      spec,
      e,
      ground (
        arith,
        h,
        e,
        is_empty-overlap spec.roles c.roles,
        is_empty-overlap spec.dual_control_for flags,
      ),
    ),
    λ (spec', there, fine). ground (
      arith,
      e,
      there,
      fine,
      is_empty-overlap spec'.roles c.roles,
      is_empty-overlap spec'.dual_control_for flags,
    ),
  )
]

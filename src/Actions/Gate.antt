-- ===== src/Actions/Gate.antt =====
-- aegis/actions/service.py: what an action asks before it writes, and the audit row that it leaves.
use Prim.Native.String.{◌++◌ as append_text}
use text.Mathlib.Text.{◌==◌ as str_eq}
use criminal_networks_analys.Common.{
  String, Bool, false, ◌&&◌, not, Option, none, some, List, is_none, select,
}
use criminal_networks_analys.Audit.Log.{append, Entry, allow}
use criminal_networks_analys.Actions.Ontology.{
  Ontology, ActionSpec, Dimension, action, contains, is_empty, values_for,
}
use criminal_networks_analys.Actions.Store.{Runtime, ActionContext, Value}
use criminal_networks_analys.Actions.Monad.{
  Act, validation, raise, pure, raise_if, audit_result, ◌>>◌,
}

-- `set(xs) & set(ys)`
abbrev pub overlap : List String → List String → List String
overlap xs ys = select (λ x. contains x ys) xs

-- Two optional texts are equal.
abbrev pub is_text : Option String → String → Bool
is_text none t = false
is_text (some u) t = str_eq u t

abbrev pub action_path : String → String → String
action_path name column = append_text "actions." (append_text name column)

-- The test of the roles: nothing is asked of a caller without a context, nor by an empty list.
abbrev pub lacks_role : ActionSpec → Option ActionContext → Bool
lacks_role spec none = false
lacks_role spec (some c) = not (is_empty spec.roles) && is_empty (overlap spec.roles c.roles)

abbrev pub required_flags : ActionSpec → List String → List String
required_flags spec flags = overlap spec.dual_control_for flags

abbrev pub lacks_second : List String → Option ActionContext → Bool
lacks_second required none = false
lacks_second required (some c) = not (is_empty required) && is_none c.second_actor

abbrev pub second_is_actor : List String → Option ActionContext → Bool
second_is_actor required none = false
second_is_actor required (some c) = not (is_empty required) && is_text c.second_actor c.actor

abbrev pub or_context : Option String → Option String → Option String
or_context none c = c
or_context (some case_id) c = some case_id

module _ {H : Type 0} where
  abbrev pub check_action :
      Option ActionSpec → String → Option ActionContext → List String → Act H (Unit {0})
  check_action none name context flags = raise (validation (append_text "actions." name))
  check_action (some spec) name context flags = do
    raise_if (not spec.audit) (validation (action_path name ".audit"))
    raise_if (lacks_role spec context) (validation (action_path name ".roles"))
    raise_if (lacks_second (required_flags spec flags) context)
        (validation (action_path name ".dual_control_for"))
    raise_if (second_is_actor (required_flags spec flags) context)
        (validation (action_path name ".dual_control_for"))

  -- `_require_action`
  unfoldable pub require_action :
      Ontology → String → Option ActionContext → List String → Act H (Unit {0})
  unfolding action
  require_action o name context flags = check_action (action o name) name context flags

  -- `_handling`
  unfoldable pub handling : Ontology → String → Act H (Unit {0})
  handling o code =
      raise_if (not (contains code o.handling_codes))
        (validation (append_text "handling_codes." code))

  -- `_grade`
  unfoldable pub grade : Ontology → Dimension → String → Option String → Act H (Unit {0})
  grade o dimension path none = pure tt
  grade o dimension path (some value) =
      raise_if (not (contains value (values_for o.grading dimension)))
        (validation (append_text path value))

  abbrev pub audit_entry :
      Runtime H
      → ActionContext
      → String
      → String
      → String
      → Option String
      → List (String × Value)
      → Entry
  audit_entry rt c name resource_type resource_id case_id detail = record {
    actor = c.actor;
    action = name;
    decision = allow;
    session_id = c.session_id;
    purpose = c.purpose;
    case_id = or_context case_id c.case_id;
    resource_type = some resource_type;
    resource_id = some resource_id;
    detail = some (rt.dumps detail);
    at = none;
  }

  -- `_audit`
  abbrev pub audit :
      Runtime H
      → ActionContext
      → String
      → String
      → String
      → Option String
      → List (String × Value)
      → Act H (Unit {0})
  audit rt c name resource_type resource_id case_id detail db = audit_result db (
      append rt.digest rt.genesis (audit_entry rt c name resource_type resource_id case_id detail)
        db.audit)

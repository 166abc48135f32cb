-- ===== src/Actions/Cases.antt =====
-- aegis/actions/service.py: `open_case`, `assign_case_member` and `remove_case_member`.
use Prim.Native.String.{◌++◌ as append_text}
use text.Mathlib.Text.{◌==◌ as str_eq}
use criminal_networks_analys.Common.{
  String, Bool, false, ◌&&◌, not, Option, none, some, List, [], ◌∷◌, ◌++◌, is_none, select, any,
  if◌then◌else◌,
}
use criminal_networks_analys.Audit.Log.{is_blank}
use criminal_networks_analys.Authz.Tuples.{CaseMember, Tuple3}
use criminal_networks_analys.Authz.Outbox.{write, delete}
use criminal_networks_analys.Identity.Monad.{new_id}
use criminal_networks_analys.Actions.Ontology.{Ontology, contains, known_roles}
use criminal_networks_analys.Actions.Store.{Db, Runtime, ActionContext, Value, null, str, CaseFile}
use criminal_networks_analys.Actions.Monad.{
  Act, validation, integrity, key_error, pure, gets, modify, raise_if, or_raise, queue, on_identity,
  ◌>>=◌, ◌>>◌,
}
use criminal_networks_analys.Actions.Gate.{require_action, handling, audit}

-- `CASE_MEMBER_RELATIONS.get(role)`
unfoldable pub member_relation : String → Option String
member_relation role =
    if str_eq role "analyst"
    then some "analyst"
    else if str_eq role "investigator"
    then some "investigator"
    else if str_eq role "supervisor"
    then some "supervisor"
    else if str_eq role "auditor"
    then some "auditor_grant"
    else none

abbrev pub is_member : String → String → CaseMember → Bool
is_member case_id user_id m = str_eq m.case_id case_id && str_eq m.user_id user_id

-- `session.get(CaseMember, (case_id, user_id))`, of which the role is read
abbrev pub member_role : String → String → List CaseMember → Option String
member_role case_id user_id [] = none
member_role case_id user_id (m ∷ ms) =
    if is_member case_id user_id m then some m.role else member_role case_id user_id ms

abbrev pub case_exists : {H : Type 0} → String → Db H → Bool
case_exists case_id db = any (λ c. str_eq c.case_id case_id) db.cases

-- `row.role = role`
abbrev pub set_role : String → String → String → List CaseMember → List CaseMember
set_role case_id user_id role [] = []
set_role case_id user_id role (m ∷ ms) =
    (if is_member case_id user_id m then record m { role = role } else m)
    ∷ set_role case_id user_id role ms

-- `session.delete(row)`
abbrev pub drop_member : String → String → List CaseMember → List CaseMember
drop_member case_id user_id ms = select (λ m. not (is_member case_id user_id m)) ms

abbrev pub member_tuple : String → String → String → Tuple3
member_tuple case_id user_id relation = record {
  user = append_text "user:" user_id;
  relation = relation;
  object = append_text "case:" case_id;
}

abbrev pub member_id : String → String → String
member_id case_id user_id = append_text case_id (append_text ":" user_id)

abbrev pub member_row : String → String → String → CaseMember
member_row case_id user_id role = record { case_id = case_id; user_id = user_id; role = role }

-- `null`, or the text
abbrev pub optional : Option String → Value
optional none = null
optional (some t) = str t

-- `value or default`: an empty text is no value.
abbrev pub given : Option String → Option String
given none = none
given (some t) = if str_eq t "" then none else some t

module _ {H : Type 0} (rt : Runtime H) (ontology : Ontology) where
  -- `value or new_id(…)`
  abbrev pub text_or_new_id : Option String → Act H String
  text_or_new_id none = do id ← on_identity new_id; pure (rt.spell id)
  text_or_new_id (some t) = pure t

  abbrev pub case_row : String → String → String → String → String → Db H → CaseFile
  case_row id title purpose code actor db = record {
    case_id = id;
    title = title;
    status = "open";
    purpose = purpose;
    handling_code = code;
    opened_by = actor;
    opened_at = db.identity.now;
  }

  abbrev pub add_case : CaseFile → Db H → Db H
  add_case row db = record db { cases = db.cases ++ row ∷ [] }

  unfoldable pub open_case :
      ActionContext → String → String → String → Option String → Act H CaseFile
  unfolding require_action handling
  open_case context title purpose code case_id = do
    require_action ontology "open_case" none []
    handling ontology code
    raise_if (is_blank title) (validation "case_file.title")
    raise_if (is_blank purpose) (validation "case_file.purpose")
    id ← text_or_new_id (given case_id)
    taken ← gets (case_exists id)
    raise_if taken (integrity "case_file_pkey")
    row ← gets (case_row id title purpose code context.actor)
    modify (add_case row)
    audit rt context "open_case" "case_file" id (some id)
        (("title", str title) ∷ ("handling_code", str code) ∷ [])
    pure row

  abbrev pub add_member : CaseMember → Db H → Db H
  add_member row db = record db { members = db.members ++ row ∷ [] }

  abbrev pub change_role : String → String → String → Db H → Db H
  change_role case_id user_id role db = record db {
    members = set_role case_id user_id role db.members;
  }

  -- The two branches on the row that is there, or not.
  abbrev pub settle_member : String → String → String → Option String → Act H (Unit {0})
  settle_member case_id user_id role none = modify (add_member (member_row case_id user_id role))
  settle_member case_id user_id role (some old) = do
    relation ← or_raise (member_relation old) (key_error old)
    modify (queue delete (member_tuple case_id user_id relation))
    modify (change_role case_id user_id role)

  abbrev pub same_role : String → Option String → Bool
  same_role role none = false
  same_role role (some old) = str_eq old role

  unfoldable pub assign_case_member : ActionContext → String → String → String → Act H CaseMember
  unfolding require_action member_relation
  assign_case_member context case_id user_id role = do
    require_action ontology "assign_case_member" none []
    raise_if (not (contains role known_roles)) (validation (append_text "roles." role))
    raise_if (is_none (member_relation role)) (validation (append_text "case_member.role." role))
    raise_if (is_blank user_id) (validation "case_member.user_id")
    exists ← gets (case_exists case_id)
    raise_if (not exists) (validation "case_member.case_id")
    old_role ← gets (λ db. member_role case_id user_id db.members)
    raise_if (same_role role old_role) (validation "case_member.role")
    settle_member case_id user_id role old_role
    relation ← or_raise (member_relation role) (key_error role)
    modify (queue write (member_tuple case_id user_id relation))
    audit rt context "assign_case_member" "case_member" (member_id case_id user_id) (some case_id)
        (("old_role", optional old_role) ∷ ("role", str role) ∷ ("user_id", str user_id) ∷ [])
    pure (member_row case_id user_id role)

  abbrev pub delete_member : String → String → Db H → Db H
  delete_member case_id user_id db = record db { members = drop_member case_id user_id db.members }

  unfoldable pub remove_case_member : ActionContext → String → String → Act H CaseMember
  unfolding require_action member_relation
  remove_case_member context case_id user_id = do
    require_action ontology "remove_case_member" none []
    raise_if (is_blank user_id) (validation "case_member.user_id")
    row ← gets (λ db. member_role case_id user_id db.members)
    role ← or_raise row (validation "case_member")
    relation ← or_raise (member_relation role) (validation (append_text "case_member.role." role))
    modify (queue delete (member_tuple case_id user_id relation))
    modify (delete_member case_id user_id)
    audit rt context "remove_case_member" "case_member" (member_id case_id user_id) (some case_id)
        (("old_role", str role) ∷ ("user_id", str user_id) ∷ [])
    pure (member_row case_id user_id role)

-- ===== src/Actions/Effects/Members.antt =====
-- `assign_case_member` and `remove_case_member` when they succeed.
use text.Mathlib.Text.{◌==◌ as str_eq}
use criminal_networks_analys.Common.{
  String, ◌≡◌, false, Option, none, some, [], ◌∷◌, arith, inl, inr, ◌⊎◌, Option-cases,
}
use criminal_networks_analys.Audit.Log.{Entry}
use criminal_networks_analys.Authz.Tuples.{CaseMember}
use criminal_networks_analys.Authz.Outbox.{write, delete}
use criminal_networks_analys.Actions.Ontology.{Ontology}
use criminal_networks_analys.Actions.Store.{Db, Runtime, ActionContext, str}
use criminal_networks_analys.Actions.Monad.{queue}
use criminal_networks_analys.Actions.Gate.{audit_entry}
use criminal_networks_analys.Actions.Cases.{
  assign_case_member, remove_case_member, member_relation, member_role, member_tuple, member_row,
  member_id, optional, change_role, add_member, delete_member,
}
use criminal_networks_analys.Actions.Effects.{Audits, finish-Audits}

module _ {H : Type 0} (rt : Runtime H) (ontology : Ontology) where
  abbrev pub assigns : ActionContext → String → String → String → Option String → Entry
  assigns c case_id user_id role old =
      audit_entry rt c "assign_case_member" "case_member" (member_id case_id user_id) (some case_id)
        (("old_role", optional old) ∷ ("role", str role) ∷ ("user_id", str user_id) ∷ [])

  abbrev pub joined : String → String → String → String → Db H → Db H
  joined case_id user_id role s db =
      queue write (member_tuple case_id user_id s)
        (add_member rt ontology (member_row case_id user_id role) db)

  abbrev pub moved : String → String → String → String → String → Db H → Db H
  moved case_id user_id role r s db = queue write (member_tuple case_id user_id s) (
      change_role rt ontology case_id user_id role
        (queue delete (member_tuple case_id user_id r) db))

  -- A new member was added, or the role of one was changed.
  abbrev pub Assigned : ActionContext → String → String → String → Db H → Db H → Type 0
  Assigned c case_id user_id role db db' =
      (s : String) × (member_relation role ≡ some s)
      × (((member_role case_id user_id db.members ≡ none)
            × Audits rt (assigns c case_id user_id role none) (joined case_id user_id role s db)
                db')
          ⊎ ((old : String) × (r : String) × (member_role case_id user_id db.members ≡ some old)
              × (str_eq old role ≡ false)
              × (member_relation old ≡ some r)
              × Audits rt (assigns c case_id user_id role (some old))
                  (moved case_id user_id role r s db) db'))

  assigned_old :
      (c : ActionContext) (case_id user_id role s old : String) (db db' : Db H) (row : CaseMember)
      → assign_case_member rt ontology c case_id user_id role db ≡ inr (row, db')
      → member_relation role ≡ some s
      → member_role case_id user_id db.members ≡ some old
      → (r : String) × (str_eq old role ≡ false)
        × (member_relation old ≡ some r)
        × Audits rt
            (assigns c case_id user_id role (some old))
            (moved case_id user_id role r s db)
            db'
  unfolding assign_case_member
  assigned_old c case_id user_id role s old db db' row h e there =
      elim (Option-cases (member_relation old)) [
        | inl lost ↦ ground (arith, h, e, there, lost)
        | inr (r, f) ↦ (
          r,
          ground (arith, h, e, there, f),
          f,
          finish-Audits rt (assigns c case_id user_id role (some old))
              (moved case_id user_id role r s db) db' (member_row case_id user_id role) row
              (ground (arith, h, e, there, f)),
        )
      ]

  pub assign-Assigned :
      (c : ActionContext) (case_id user_id role : String) (db db' : Db H) (row : CaseMember)
      → assign_case_member rt ontology c case_id user_id role db ≡ inr (row, db')
      → Assigned c case_id user_id role db db'
  unfolding assign_case_member
  assign-Assigned c case_id user_id role db db' row h = elim (Option-cases (member_relation role)) [
    | inl e ↦ ground (arith, h, e)
    | inr (s, e) ↦ elim (Option-cases (member_role case_id user_id db.members)) [
      | inl new ↦ (
        s,
        e,
        inl (
          new,
          finish-Audits rt (assigns c case_id user_id role none) (joined case_id user_id role s db)
              db' (member_row case_id user_id role) row (ground (arith, h, e, new)),
        ),
      )
      | inr (old, there) ↦
          let (r, other, f, audited) =
            assigned_old c case_id user_id role s old db db' row h e there in
          (s, e, inr (old, r, there, other, f, audited))
    ]
  ]

  abbrev removes : ActionContext → String → String → String → Entry
  removes c case_id user_id old =
      audit_entry rt c "remove_case_member" "case_member" (member_id case_id user_id) (some case_id)
        (("old_role", str old) ∷ ("user_id", str user_id) ∷ [])

  abbrev pub removed : String → String → String → Db H → Db H
  removed case_id user_id r db =
      delete_member rt ontology case_id user_id (queue delete (member_tuple case_id user_id r) db)

  -- The member of the key was removed.
  abbrev pub Removed : ActionContext → String → String → Db H → Db H → Type 0
  Removed c case_id user_id db db' =
      (old : String) × (r : String) × (member_role case_id user_id db.members ≡ some old)
      × (member_relation old ≡ some r)
      × Audits rt (removes c case_id user_id old) (removed case_id user_id r db) db'

  pub remove-Removed :
      (c : ActionContext) (case_id user_id : String) (db db' : Db H) (row : CaseMember)
      → remove_case_member rt ontology c case_id user_id db ≡ inr (row, db')
      → Removed c case_id user_id db db'
  unfolding remove_case_member
  remove-Removed c case_id user_id db db' row h =
      elim (Option-cases (member_role case_id user_id db.members)) [
        | inl e ↦ ground (arith, h, e)
        | inr (old, e) ↦ elim (Option-cases (member_relation old)) [
          | inl lost ↦ ground (arith, h, e, lost)
          | inr (r, f) ↦ (
            old,
            r,
            e,
            f,
            finish-Audits rt (removes c case_id user_id old) (removed case_id user_id r db) db'
                (member_row case_id user_id old) row (ground (arith, h, e, f)),
          )
        ]
      ]

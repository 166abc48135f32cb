-- ===== src/Actions/Access/Granting.antt =====
-- Each action keeps the store, once it is brought up to date, at what the tables imply.
use text.Mathlib.Text.{◌==◌ as str_eq}
use criminal_networks_analys.Common.{
  String, ◌≡◌, ap, sym, ◌∙◌, Bool, false, ◌&&◌, ◌||◌, not, none, some, [], arith, inl, inr, map,
  Bool-cases,
}
use criminal_networks_analys.Common.Texts.{str_eq_sym, str_eq_refl}
use criminal_networks_analys.Authz.Tuples.{
  Tuple3, same_tuple, member, desired_tuples, case_relation, member_tuples, latest_events,
}
use criminal_networks_analys.Authz.Sets.{same_tuple-eq}
use criminal_networks_analys.Authz.Outbox.{Server, delete}
use criminal_networks_analys.Authz.Rebuilt.{IsStore}
use criminal_networks_analys.Actions.Ontology.{Ontology}
use criminal_networks_analys.Actions.Store.{Db, Runtime, tables, evidence_view, custody_view}
use criminal_networks_analys.Actions.Monad.{queue}
use criminal_networks_analys.Actions.Cases.{
  member_relation, member_role, member_tuple, member_row, add_member, change_role,
}
use criminal_networks_analys.Actions.Effects.Members.{joined, moved, removed}
use criminal_networks_analys.Actions.Access.Members.{
  IsKeyed, HasNo-absent, member_role-HasNo, member_tuples-append, member_relation-case_relation,
  case_relation_injective,
}
use criminal_networks_analys.Actions.Access.Changed.{
  wanted-key, set_role-wanted, drop_member-wanted, set_role-IsKeyed, drop_member-IsKeyed,
  append-IsKeyed,
}
use criminal_networks_analys.Actions.Access.Wanted.{
  filed, desired-parts, case_relation-not_case, case_relation-not_custodian, filed-relation,
  kept-relation,
}
use criminal_networks_analys.Actions.Access.Custodians.{kept}
use criminal_networks_analys.Actions.Access.Queue.{LeadsTo, queue-write, queue-delete}

abbrev pub desired : {H : Type 0} → Db H → Tuple3 → Bool
desired db t = member t (desired_tuples (tables db))

-- A membership's tuple is wanted as far as the memberships say.
member-desired :
    {H : Type 0} (case_id user_id role s : String) (db : Db H)
    → case_relation role ≡ some s
    → desired db (member_tuple case_id user_id s)
      ≡ member (member_tuple case_id user_id s) (member_tuples db.members)
member-desired case_id user_id role s db e = ground (
  arith,
  desired-parts (member_tuple case_id user_id s) (tables db),
  filed-relation (member_tuple case_id user_id s) (map evidence_view db.evidence)
      (case_relation-not_case role s e),
  kept-relation (member_tuple case_id user_id s) (latest_events (map custody_view db.custody) [])
      (case_relation-not_custodian role s e),
)

-- A membership's tuple is of no other kind.
only-member :
    {H : Type 0} (u : Tuple3) (case_id user_id role r : String) (db : Db H)
    → case_relation role ≡ some r
    → (same_tuple u (member_tuple case_id user_id r)
        && (filed u (map evidence_view db.evidence)
            || kept u (latest_events (map custody_view db.custody) [])))
      ≡ false
only-member u case_id user_id role r db e =
    elim (Bool-cases (same_tuple u (member_tuple case_id user_id r))) [
      | inl same ↦
          let is = ap (λ t. t.relation) (same_tuple-eq u (member_tuple case_id user_id r) same) in
          ground (
            arith,
            filed-relation u (map evidence_view db.evidence)
                (ap (λ x. str_eq x "case") is ∙ case_relation-not_case role r e),
            kept-relation u (latest_events (map custody_view db.custody) [])
                (ap (λ x. str_eq x "custodian") is ∙ case_relation-not_custodian role r e),
          )
      | inr other ↦ ground (arith, other)
    ]

module _ {H F : Type 0} where
  -- No user is twice a member of a case, and the store, once the pending rows of the outbox are applied to
  -- it, holds exactly the tuples that the tables imply.
  pub record IsGranted (server : Server F) (f : F) (db : Db H) : Type 0 where
    pub keyed : IsKeyed db.members
    pub leads : LeadsTo server f (desired db) db

  pub LeadsTo-same :
      (server : Server F) (f : F) (db : Db H) (w v : Tuple3 → Bool)
      → ((t : Tuple3) → w t ≡ v t)
      → LeadsTo server f w db
      → LeadsTo server f v db
  LeadsTo-same server f db w v same (g, queued, applied, all) =
      (g, queued, applied, λ t. all t ∙ same t)

  module _ (rt : Runtime H) (ontology : Ontology) where
    pub joined-IsGranted :
        (server : Server F) (f : F) (case_id user_id role s : String) (db : Db H)
        → IsStore server
        → member_relation role ≡ some s
        → member_role case_id user_id db.members ≡ none
        → IsGranted server f db
        → IsGranted server f (joined rt ontology case_id user_id role s db)
    joined-IsGranted server f case_id user_id role s db store e new granted =
        let t = member_tuple case_id user_id s in
        let rel = sym (member_relation-case_relation role) ∙ e in
        let free = member_role-HasNo case_id user_id db.members new in
        let absent =
          member-desired case_id user_id role s db rel
          ∙ HasNo-absent case_id user_id s db.members free in
        record {
          keyed = append-IsKeyed db.members (member_row case_id user_id role) granted.keyed free;
          leads =
              LeadsTo-same server f (joined rt ontology case_id user_id role s db) _ _
                (λ u. ground (
                  arith,
                  rel,
                  desired-parts u (tables db),
                  desired-parts u (tables (joined rt ontology case_id user_id role s db)),
                  member_tuples-append u db.members (member_row case_id user_id role),
                ))
                (queue-write server store f (desired db) t
                  (add_member rt ontology (member_row case_id user_id role) db) absent
                  granted.leads);
        }

    pub moved-IsGranted :
        (server : Server F) (f : F) (case_id user_id role old r s : String) (db : Db H)
        → IsStore server
        → member_relation role ≡ some s
        → member_relation old ≡ some r
        → str_eq old role ≡ false
        → member_role case_id user_id db.members ≡ some old
        → IsGranted server f db
        → IsGranted server f (moved rt ontology case_id user_id role r s db)
    moved-IsGranted server f case_id user_id role old r s db store e k other there granted =
        let rel = sym (member_relation-case_relation role) ∙ e in
        let rel_old = sym (member_relation-case_relation old) ∙ k in
        let t_old = member_tuple case_id user_id r in
        let deleted = queue delete t_old db in
        let without : Tuple3 → Bool = λ u. not (same_tuple u t_old) && desired db u in
        let present =
          member-desired case_id user_id old r db rel_old
          ∙ wanted-key case_id user_id old r r db.members granted.keyed there rel_old
          ∙ str_eq_refl r in
        let absent =
          member-desired case_id user_id role s db rel
          ∙ wanted-key case_id user_id old r s db.members granted.keyed there rel_old
          ∙ case_relation_injective role old s r rel rel_old (str_eq_sym role old ∙ other) in
        record {
          keyed = set_role-IsKeyed case_id user_id role db.members granted.keyed;
          leads =
              LeadsTo-same server f (moved rt ontology case_id user_id role r s db) _ _
                (λ u. ground (
                  arith,
                  desired-parts u (tables db),
                  desired-parts u (tables (moved rt ontology case_id user_id role r s db)),
                  set_role-wanted u case_id user_id old role r s db.members granted.keyed there
                      rel_old rel,
                  only-member u case_id user_id old r db rel_old,
                ))
                (queue-write server store f without (member_tuple case_id user_id s)
                  (change_role rt ontology case_id user_id role deleted) (ground (arith, absent))
                  (queue-delete server store f (desired db) t_old db present granted.leads));
        }

    pub removed-IsGranted :
        (server : Server F) (f : F) (case_id user_id old r : String) (db : Db H)
        → IsStore server
        → member_relation old ≡ some r
        → member_role case_id user_id db.members ≡ some old
        → IsGranted server f db
        → IsGranted server f (removed rt ontology case_id user_id r db)
    removed-IsGranted server f case_id user_id old r db store k there granted =
        let rel_old = sym (member_relation-case_relation old) ∙ k in
        let t_old = member_tuple case_id user_id r in
        let present =
          member-desired case_id user_id old r db rel_old
          ∙ wanted-key case_id user_id old r r db.members granted.keyed there rel_old
          ∙ str_eq_refl r in
        record {
          keyed = drop_member-IsKeyed case_id user_id db.members granted.keyed;
          leads =
              LeadsTo-same server f (removed rt ontology case_id user_id r db) _ _
                (λ u. ground (
                  arith,
                  desired-parts u (tables db),
                  desired-parts u (tables (removed rt ontology case_id user_id r db)),
                  drop_member-wanted u case_id user_id old r db.members granted.keyed there rel_old,
                  only-member u case_id user_id old r db rel_old,
                ))
                (queue-delete server store f (desired db) t_old db present granted.leads);
        }

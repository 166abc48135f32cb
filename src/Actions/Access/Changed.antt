-- ===== src/Actions/Access/Changed.antt =====
-- The tuples of the case memberships after a role was changed or a member was removed.
use text.Mathlib.Text.{◌==◌ as str_eq}
use criminal_networks_analys.Common.{
  String, ◌≡◌, refl, ap, ◌∙◌, Bool, true, false, ◌&&◌, ◌||◌, not, Option, some, List, [], ◌∷◌, ◌++◌,
  arith, inl, inr, Bool-cases, subst,
}
use criminal_networks_analys.Common.Texts.{str_eq-append, str_eq_refl, str_eq_sym, str_eq→eq}
use criminal_networks_analys.Authz.Tuples.{
  CaseMember, Tuple3, same_tuple, member, grant, member_tuples, case_relation,
}
use criminal_networks_analys.Authz.Sets.{member-same}
use criminal_networks_analys.Actions.Cases.{
  is_member, member_role, set_role, drop_member, member_tuple,
}
use criminal_networks_analys.Actions.Access.Members.{
  HasNo, IsKeyed, HasNo-absent, grant_other, member-append,
}

grant_same :
    (case_id user_id : String) (m : CaseMember) (r : String)
    → is_member case_id user_id m ≡ true
    → grant m (some r) ≡ member_tuple case_id user_id r ∷ []
grant_same case_id user_id m r h =
    let c = str_eq→eq m.case_id case_id (ground (arith, h)) in
    let u = str_eq→eq m.user_id user_id (ground (arith, h)) in λ i. member_tuple (c i) (u i) r ∷ []

HasNo-same :
    (case_id user_id : String) (m : CaseMember) (ms : List CaseMember)
    → is_member case_id user_id m ≡ true
    → HasNo m.case_id m.user_id ms
    → HasNo case_id user_id ms
HasNo-same case_id user_id m ms h free =
    let c = str_eq→eq m.case_id case_id (ground (arith, h)) in
    let u = str_eq→eq m.user_id user_id (ground (arith, h)) in
    subst (λ c. HasNo c user_id ms) c (subst (λ u. HasNo m.case_id u ms) u free)

set_role-HasNo :
    (case_id user_id role : String) (ms : List CaseMember)
    → HasNo case_id user_id ms
    → set_role case_id user_id role ms ≡ ms
set_role-HasNo case_id user_id role [] h = refl
set_role-HasNo case_id user_id role (m ∷ ms) h =
    ground (arith, h.0, set_role-HasNo case_id user_id role ms h.1)

drop_member-HasNo :
    (case_id user_id : String) (ms : List CaseMember)
    → HasNo case_id user_id ms
    → drop_member case_id user_id ms ≡ ms
drop_member-HasNo case_id user_id [] h = refl
drop_member-HasNo case_id user_id (m ∷ ms) h =
    ground (arith, h.0, drop_member-HasNo case_id user_id ms h.1)

abbrev pub wanted : Tuple3 → List CaseMember → Bool
wanted t ms = member t (member_tuples ms)

-- What a member's row grants, and the rest.
wanted-cons :
    (t : Tuple3) (m : CaseMember) (ms : List CaseMember)
    → wanted t (m ∷ ms) ≡ (member t (grant m (case_relation m.role)) || wanted t ms)
unfolding member_tuples
wanted-cons t m ms = member-append t (grant m (case_relation m.role)) (member_tuples ms)

wanted-own :
    (t : Tuple3) (case_id user_id r : String) (m : CaseMember) (ms : List CaseMember)
    → is_member case_id user_id m ≡ true
    → case_relation m.role ≡ some r
    → wanted t (m ∷ ms) ≡ (same_tuple t (member_tuple case_id user_id r) || wanted t ms)
wanted-own t case_id user_id r m ms own role =
    wanted-cons t m ms
    ∙ ap (λ o. member t (grant m o) || wanted t ms) role
    ∙ ap (λ ts. member t ts || wanted t ms) (grant_same case_id user_id m r own)
    ∙ ground (arith)

absent :
    (t : Tuple3) (case_id user_id r : String) (ms : List CaseMember)
    → HasNo case_id user_id ms
    → (same_tuple t (member_tuple case_id user_id r) && wanted t ms) ≡ false
absent t case_id user_id r ms free = ground (
  arith,
  member-same t (member_tuple case_id user_id r) (member_tuples ms),
  HasNo-absent case_id user_id r ms free,
)

grant_other-same :
    (t : Tuple3) (case_id user_id r : String) (m : CaseMember) (o : Option String)
    → is_member case_id user_id m ≡ false
    → (same_tuple t (member_tuple case_id user_id r) && member t (grant m o)) ≡ false
grant_other-same t case_id user_id r m o other = ground (
  arith,
  member-same t (member_tuple case_id user_id r) (grant m o),
  grant_other case_id user_id r m o other,
)

pub drop_member-wanted :
    (t : Tuple3) (case_id user_id old r : String) (ms : List CaseMember)
    → IsKeyed ms
    → member_role case_id user_id ms ≡ some old
    → case_relation old ≡ some r
    → wanted t (drop_member case_id user_id ms)
      ≡ (not (same_tuple t (member_tuple case_id user_id r)) && wanted t ms)
drop_member-wanted t case_id user_id old r [] keyed has rel = ground (arith, has)
drop_member-wanted t case_id user_id old r (m ∷ ms) keyed has rel =
    elim (Bool-cases (is_member case_id user_id m)) [
      | inl own ↦
          let free = HasNo-same case_id user_id m ms own keyed.0 in
          ground (
            arith,
            own,
            wanted-own t case_id user_id r m ms own (ground (arith, has, own, rel)),
            absent t case_id user_id r ms free,
            drop_member-HasNo case_id user_id ms free,
          )
      | inr other ↦ ground (
        arith,
        other,
        has,
        drop_member-wanted t case_id user_id old r ms keyed.1,
        wanted-cons t m ms,
        wanted-cons t m (drop_member case_id user_id ms),
        grant_other-same t case_id user_id r m (case_relation m.role) other,
      )
    ]

pub set_role-wanted :
    (t : Tuple3) (case_id user_id old role r s : String) (ms : List CaseMember)
    → IsKeyed ms
    → member_role case_id user_id ms ≡ some old
    → case_relation old ≡ some r
    → case_relation role ≡ some s
    → wanted t (set_role case_id user_id role ms) ≡ (
        same_tuple t (member_tuple case_id user_id s)
        || (not (same_tuple t (member_tuple case_id user_id r)) && wanted t ms))
set_role-wanted t case_id user_id old role r s [] keyed has rel new = ground (arith, has)
set_role-wanted t case_id user_id old role r s (m ∷ ms) keyed has rel new =
    elim (Bool-cases (is_member case_id user_id m)) [
      | inl own ↦
          let free = HasNo-same case_id user_id m ms own keyed.0 in
          ground (
            arith,
            own,
            wanted-own t case_id user_id r m ms own (ground (arith, has, own, rel)),
            wanted-own t case_id user_id s (record m { role = role }) ms own new,
            absent t case_id user_id r ms free,
            set_role-HasNo case_id user_id role ms free,
          )
      | inr other ↦ ground (
        arith,
        other,
        has,
        set_role-wanted t case_id user_id old role r s ms keyed.1,
        wanted-cons t m ms,
        wanted-cons t m (set_role case_id user_id role ms),
        grant_other-same t case_id user_id r m (case_relation m.role) other,
        grant_other-same t case_id user_id s m (case_relation m.role) other,
      )
    ]

-- A member has the tuple of the role it has, and no other on the case.
pub wanted-key :
    (case_id user_id old r s : String) (ms : List CaseMember)
    → IsKeyed ms
    → member_role case_id user_id ms ≡ some old
    → case_relation old ≡ some r
    → wanted (member_tuple case_id user_id s) ms ≡ str_eq s r
wanted-key case_id user_id old r s [] keyed has rel = ground (arith, has)
wanted-key case_id user_id old r s (m ∷ ms) keyed has rel =
    elim (Bool-cases (is_member case_id user_id m)) [
      | inl own ↦ ground (
        arith,
        wanted-own (member_tuple case_id user_id s) case_id user_id r m ms own
            (ground (arith, has, own, rel)),
        HasNo-absent case_id user_id s ms (HasNo-same case_id user_id m ms own keyed.0),
        str_eq-append "user:" user_id user_id,
        str_eq-append "case:" case_id case_id,
        str_eq_refl user_id,
        str_eq_refl case_id,
      )
      | inr other ↦ ground (
        arith,
        other,
        has,
        wanted-key case_id user_id old r s ms keyed.1,
        wanted-cons (member_tuple case_id user_id s) m ms,
        grant_other case_id user_id s m (case_relation m.role) other,
      )
    ]

HasNo-set_role :
    (c u case_id user_id role : String) (ms : List CaseMember)
    → HasNo c u ms
    → HasNo c u (set_role case_id user_id role ms)
HasNo-set_role c u case_id user_id role [] h = tt
HasNo-set_role c u case_id user_id role (m ∷ ms) h =
    ground (arith, h.0, HasNo-set_role c u case_id user_id role ms h.1)

pub set_role-IsKeyed :
    (case_id user_id role : String) (ms : List CaseMember)
    → IsKeyed ms
    → IsKeyed (set_role case_id user_id role ms)
set_role-IsKeyed case_id user_id role [] h = tt
set_role-IsKeyed case_id user_id role (m ∷ ms) h = elim (Bool-cases (is_member case_id user_id m)) [
  | inl own ↦ ground (
    arith,
    own,
    HasNo-set_role m.case_id m.user_id case_id user_id role ms h.0,
    set_role-IsKeyed case_id user_id role ms h.1,
  )
  | inr other ↦ ground (
    arith,
    other,
    HasNo-set_role m.case_id m.user_id case_id user_id role ms h.0,
    set_role-IsKeyed case_id user_id role ms h.1,
  )
]

HasNo-drop_member :
    (c u case_id user_id : String) (ms : List CaseMember)
    → HasNo c u ms
    → HasNo c u (drop_member case_id user_id ms)
HasNo-drop_member c u case_id user_id [] h = tt
HasNo-drop_member c u case_id user_id (m ∷ ms) h =
    ground (arith, h.0, HasNo-drop_member c u case_id user_id ms h.1)

pub drop_member-IsKeyed :
    (case_id user_id : String) (ms : List CaseMember)
    → IsKeyed ms
    → IsKeyed (drop_member case_id user_id ms)
drop_member-IsKeyed case_id user_id [] h = tt
drop_member-IsKeyed case_id user_id (m ∷ ms) h = ground (
  arith,
  HasNo-drop_member m.case_id m.user_id case_id user_id ms h.0,
  drop_member-IsKeyed case_id user_id ms h.1,
)

HasNo-append :
    (c u : String) (ms : List CaseMember) (m : CaseMember)
    → HasNo c u ms
    → is_member c u m ≡ false
    → HasNo c u (ms ++ m ∷ [])
HasNo-append c u [] m h other = (other, tt)
HasNo-append c u (n ∷ ms) m h other = (h.0, HasNo-append c u ms m h.1 other)

-- A row with a new key can be added.
pub append-IsKeyed :
    (ms : List CaseMember) (m : CaseMember)
    → IsKeyed ms
    → HasNo m.case_id m.user_id ms
    → IsKeyed (ms ++ m ∷ [])
append-IsKeyed [] m keyed free = (tt, tt)
append-IsKeyed (n ∷ ms) m keyed free = (
  HasNo-append n.case_id n.user_id ms m keyed.0
      (ground (arith, free.0, str_eq_sym n.case_id m.case_id, str_eq_sym n.user_id m.user_id)),
  append-IsKeyed ms m keyed.1 free.1,
)

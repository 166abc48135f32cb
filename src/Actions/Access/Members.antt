-- ===== src/Actions/Access/Members.antt =====
-- The tuples of the case memberships, as the actions change the rows.
use text.Mathlib.Text.{◌==◌ as str_eq}
use text.Mathlib.TextEquality.{eq_iff}
use criminal_networks_analys.Common.{
  String, ◌≡◌, refl, ap, sym, ◌∙◌, Bool, true, false, ◌||◌, Option, none, some, List, [], ◌∷◌, ◌++◌,
  arith, inl, inr, if◌then◌else◌, Bool-cases, All,
}
use criminal_networks_analys.Common.Texts.{str_eq-append, str_eq_sym, str_eq→eq}
use criminal_networks_analys.Authz.Tuples.{
  CaseMember, Tuple3, member, grant, member_tuples, case_relation,
}
use criminal_networks_analys.Actions.Cases.{member_relation, is_member, member_role, member_tuple}

-- The two tables of relations, of the service and of the rebuild, say the same.
pub member_relation-case_relation : (role : String) → member_relation role ≡ case_relation role
unfolding member_relation case_relation
member_relation-case_relation role = refl

abbrev pub role_of : String → String
role_of relation = if str_eq relation "auditor_grant" then "auditor" else relation

some_injective : (a b : String) → some a ≡ some b → a ≡ b
some_injective a b e = ground (arith, e)

role_of-literal :
    (a k s r : String)
    → str_eq a k ≡ true
    → case_relation k ≡ some s
    → role_of s ≡ k
    → case_relation a ≡ some r
    → a ≡ role_of r
role_of-literal a k s r e rel back h =
    str_eq→eq a k e
    ∙ sym back
    ∙ ap role_of (some_injective s r (sym rel ∙ ap case_relation (sym (str_eq→eq a k e)) ∙ h))

no_relation :
    (a : String)
    → str_eq a "analyst" ≡ false
    → str_eq a "investigator" ≡ false
    → str_eq a "supervisor" ≡ false
    → str_eq a "auditor" ≡ false
    → case_relation a ≡ none
unfolding case_relation
no_relation a e f g h = rw (e, f, g, h) refl

pub role_of-case_relation : (a r : String) → case_relation a ≡ some r → a ≡ role_of r
unfolding case_relation
role_of-case_relation a r h = elim (Bool-cases (str_eq a "analyst")) [
  | inl e ↦ role_of-literal a "analyst" "analyst" r e refl refl h
  | inr e ↦ elim (Bool-cases (str_eq a "investigator")) [
    | inl f ↦ role_of-literal a "investigator" "investigator" r f refl refl h
    | inr f ↦ elim (Bool-cases (str_eq a "supervisor")) [
      | inl g ↦ role_of-literal a "supervisor" "supervisor" r g refl refl h
      | inr g ↦ elim (Bool-cases (str_eq a "auditor")) [
        | inl k ↦ role_of-literal a "auditor" "auditor_grant" r k refl refl h
        | inr k ↦ ground (arith, sym (no_relation a e f g k) ∙ h)
      ]
    ]
  ]
]

-- Different roles give different relations.
pub case_relation_injective :
    (a b r s : String)
    → case_relation a ≡ some r
    → case_relation b ≡ some s
    → str_eq a b ≡ false
    → str_eq r s ≡ false
case_relation_injective a b r s h k other = ground (
  arith,
  other,
  eq_iff a b,
  eq_iff r s,
  λ (e : r ≡ s). role_of-case_relation a r h ∙ ap role_of e ∙ sym (role_of-case_relation b s k),
)

-- No member has the key.
abbrev pub HasNo : String → String → List CaseMember → Type 0
HasNo case_id user_id ms = All (λ m. is_member case_id user_id m ≡ false) ms

-- No two members have the same key.
abbrev pub IsKeyed : List CaseMember → Type 0
IsKeyed [] = Unit
IsKeyed (m ∷ ms) = HasNo m.case_id m.user_id ms × IsKeyed ms

pub member-append :
    (t : Tuple3) (ts us : List Tuple3) → member t (ts ++ us) ≡ (member t ts || member t us)
member-append t [] us = refl
member-append t (u ∷ ts) us = ground (arith, member-append t ts us)

pub grant_other :
    (case_id user_id relation : String) (m : CaseMember) (r : Option String)
    → is_member case_id user_id m ≡ false
    → member (member_tuple case_id user_id relation) (grant m r) ≡ false
grant_other case_id user_id relation m none h = refl
grant_other case_id user_id relation m (some r) h = ground (
  arith,
  h,
  str_eq-append "user:" user_id m.user_id,
  str_eq-append "case:" case_id m.case_id,
  str_eq_sym user_id m.user_id,
  str_eq_sym case_id m.case_id,
)

pub HasNo-absent :
    (case_id user_id relation : String) (ms : List CaseMember)
    → HasNo case_id user_id ms
    → member (member_tuple case_id user_id relation) (member_tuples ms) ≡ false
unfolding member_tuples
HasNo-absent case_id user_id relation [] h = refl
HasNo-absent case_id user_id relation (m ∷ ms) h = ground (
  arith,
  member-append (member_tuple case_id user_id relation) (grant m (case_relation m.role))
      (member_tuples ms),
  grant_other case_id user_id relation m (case_relation m.role) h.0,
  HasNo-absent case_id user_id relation ms h.1,
)

pub member_role-HasNo :
    (case_id user_id : String) (ms : List CaseMember)
    → member_role case_id user_id ms ≡ none
    → HasNo case_id user_id ms
member_role-HasNo case_id user_id [] h = tt
member_role-HasNo case_id user_id (m ∷ ms) h =
    ground (arith, h, member_role-HasNo case_id user_id ms)

or_false : (a : Bool) → (a || false) ≡ a
or_false true = refl
or_false false = refl

or_assoc : (a b c : Bool) → (a || (b || c)) ≡ ((a || b) || c)
or_assoc true b c = refl
or_assoc false b c = refl

-- One member more.
pub member_tuples-append :
    (t : Tuple3) (ms : List CaseMember) (m : CaseMember)
    → member t (member_tuples (ms ++ m ∷ []))
      ≡ (member t (member_tuples ms) || member t (grant m (case_relation m.role)))
unfolding member_tuples
member_tuples-append t [] m = member-append t (grant m (case_relation m.role)) [] ∙ or_false _
member_tuples-append t (n ∷ ms) m =
    member-append t (grant n (case_relation n.role)) (member_tuples (ms ++ m ∷ []))
    ∙ ap (λ b. member t (grant n (case_relation n.role)) || b) (member_tuples-append t ms m)
    ∙ or_assoc (member t (grant n (case_relation n.role))) (member t (member_tuples ms)) _
    ∙ ap (λ b. b || member t (grant m (case_relation m.role)))
        (sym (member-append t (grant n (case_relation n.role)) (member_tuples ms)))

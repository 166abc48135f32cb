-- ===== src/Actions/Access/Wanted.antt =====
-- The three kinds of tuples that the tables imply, which never meet.
use text.Mathlib.Text.{◌==◌ as str_eq}
use text.Mathlib.TextEquality.{eq_iff}
use criminal_networks_analys.Common.{
  String, ◌≡◌, refl, ap, sym, ◌∙◌, Bool, false, ◌||◌, none, some, List, [], ◌∷◌, ◌++◌, arith, inl,
  inr, map, Option-cases,
}
use criminal_networks_analys.Common.Texts.{str_eq-append, str_eq_sym}
use criminal_networks_analys.Authz.Tuples.{
  CustodyEvent, Tuple3, same_tuple, member, custodian_tuple, latest_events, evidence_tuples,
  evidence_tuple, member_tuples, desired_tuples, case_relation, CaseMember, Tables, grant,
}
use criminal_networks_analys.Authz.Tuples as Tuples
use criminal_networks_analys.Authz.Sets.{member-distinct}
use criminal_networks_analys.Actions.Store.{EvidenceItem, evidence_view}
use criminal_networks_analys.Actions.Evidence.{case_tuple, custody_tuple, get_evidence}
use criminal_networks_analys.Actions.Access.Members.{member-append, role_of, role_of-case_relation}
use criminal_networks_analys.Actions.Access.Changed.{wanted}
use criminal_networks_analys.Actions.Access.Custodians.{kept}

abbrev pub filed : Tuple3 → List Tuples.EvidenceItem → Bool
filed t es = member t (evidence_tuples es)

pub desired-parts :
    (t : Tuple3) (db : Tables)
    → member t (desired_tuples db)
      ≡ (wanted t db.members || (filed t db.evidence || kept t (latest_events db.custody [])))
unfolding desired_tuples
desired-parts t db =
    member-distinct t _
    ∙ member-append t (member_tuples db.members) _
    ∙ ap (λ b. wanted t db.members || b)
        (member-append t (evidence_tuples db.evidence)
          (map custodian_tuple (latest_events db.custody [])))

-- No role has a relation of the other two kinds.
pub case_relation-other :
    (a s k : String)
    → case_relation a ≡ some s
    → case_relation (role_of k) ≡ none
    → str_eq s k ≡ false
case_relation-other a s k h other = ground (
  arith,
  eq_iff s k,
  λ (e : s ≡ k).
      sym other ∙ ap case_relation (sym (role_of-case_relation a s h ∙ ap role_of e)) ∙ h,
)

grant-relation :
    (t : Tuple3) (m : CaseMember)
    → case_relation (role_of t.relation) ≡ none
    → member t (grant m (case_relation m.role)) ≡ false
grant-relation t m other = elim (Option-cases (case_relation m.role)) [
  | inl e ↦ rw e refl
  | inr (s, e) ↦
      ground (arith, e, case_relation-other m.role s t.relation e other, str_eq_sym s t.relation)
]

pub wanted-relation :
    (t : Tuple3) (ms : List CaseMember)
    → case_relation (role_of t.relation) ≡ none
    → wanted t ms ≡ false
unfolding member_tuples
wanted-relation t [] other = refl
wanted-relation t (m ∷ ms) other = ground (
  arith,
  member-append t (grant m (case_relation m.role)) (member_tuples ms),
  grant-relation t m other,
  wanted-relation t ms other,
)

pub filed-relation :
    (t : Tuple3) (es : List Tuples.EvidenceItem)
    → str_eq t.relation "case" ≡ false
    → filed t es ≡ false
unfolding evidence_tuples
filed-relation t [] h = refl
filed-relation t (e ∷ es) h = ground (
  arith,
  h,
  member-append t (evidence_tuple e.evidence_id e.case_id) (evidence_tuples es),
  filed-relation t es h,
)

pub kept-relation :
    (t : Tuple3) (es : List CustodyEvent)
    → str_eq t.relation "custodian" ≡ false
    → kept t es ≡ false
kept-relation t [] h = refl
kept-relation t (e ∷ es) h = ground (arith, h, kept-relation t es h)

-- One item of evidence more.
pub filed-append :
    (t : Tuple3) (es : List EvidenceItem) (e : EvidenceItem)
    → filed t (map evidence_view (es ++ e ∷ []))
      ≡ (member t (evidence_tuple e.evidence_id e.case_id) || filed t (map evidence_view es))
unfolding evidence_tuples
filed-append t [] e = ground (arith, member-append t (evidence_tuple e.evidence_id e.case_id) [])
filed-append t (d ∷ es) e = ground (
  arith,
  member-append t (evidence_tuple d.evidence_id d.case_id)
      (evidence_tuples (map evidence_view (es ++ e ∷ []))),
  member-append t (evidence_tuple d.evidence_id d.case_id) (evidence_tuples (map evidence_view es)),
  filed-append t es e,
)

-- An item that is not registered is filed under no case.
pub filed-none :
    (id case_id : String) (es : List EvidenceItem)
    → get_evidence id es ≡ none
    → filed (case_tuple id case_id) (map evidence_view es) ≡ false
unfolding evidence_tuples
filed-none id case_id [] h = refl
filed-none id case_id (e ∷ es) h = ground (
  arith,
  h,
  member-append (case_tuple id case_id) (evidence_tuple e.evidence_id e.case_id)
      (evidence_tuples (map evidence_view es)),
  str_eq-append "evidence_item:" id e.evidence_id,
  str_eq_sym id e.evidence_id,
  filed-none id case_id es,
)

pub case_relation-not_case : (a s : String) → case_relation a ≡ some s → str_eq s "case" ≡ false
unfolding case_relation
case_relation-not_case a s h = case_relation-other a s "case" h refl

pub case_relation-not_custodian :
    (a s : String) → case_relation a ≡ some s → str_eq s "custodian" ≡ false
unfolding case_relation
case_relation-not_custodian a s h = case_relation-other a s "custodian" h refl

pub wanted-case :
    (id case_id : String) (ms : List CaseMember) → wanted (case_tuple id case_id) ms ≡ false
unfolding case_relation
wanted-case id case_id ms = wanted-relation (case_tuple id case_id) ms refl

pub wanted-custody :
    (id actor : String) (ms : List CaseMember) → wanted (custody_tuple id actor) ms ≡ false
unfolding case_relation
wanted-custody id actor ms = wanted-relation (custody_tuple id actor) ms refl

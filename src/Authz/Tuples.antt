-- ===== src/Authz/Tuples.antt =====
-- aegis/authz/outbox.py: `desired_tuples`, and the operations on sets of tuples that `rebuild` uses. The
-- identifiers are texts here, since a tuple is made of them.
use Prim.Native.String.{◌++◌ as append_text, compare as compare_text}
use Prim.Native.Nat.{Ordering}
use text.Mathlib.Text.{◌==◌ as str_eq}
use criminal_networks_analys.Common.{
  ℕ, String, Bool, true, false, ◌&&◌, ◌||◌, not, Option, none, some, List, [], ◌∷◌, ◌++◌, map, ltb,
  if◌then◌else◌, select,
}

pub record Tuple3 : Type 0 where
  pub user : String
  pub relation : String
  pub object : String

abbrev pub same_tuple : Tuple3 → Tuple3 → Bool
same_tuple t u = str_eq t.user u.user && str_eq t.relation u.relation && str_eq t.object u.object

-- `t in tuples`
abbrev pub member : Tuple3 → List Tuple3 → Bool
member t [] = false
member t (u ∷ us) = same_tuple t u || member t us

abbrev pub distinct : List Tuple3 → List Tuple3
distinct [] = []
distinct (t ∷ ts) = let rest = distinct ts in if member t rest then rest else t ∷ rest

-- `<` on tuples of texts
abbrev pub then_lt : Ordering → Bool → Bool
then_lt Ordering.lt next = true
then_lt Ordering.eq next = next
then_lt Ordering.gt next = false

abbrev pub tuple_lt : Tuple3 → Tuple3 → Bool
tuple_lt t u =
    then_lt (compare_text t.user u.user) (
      then_lt (compare_text t.relation u.relation) (then_lt (compare_text t.object u.object) false))

abbrev pub insert_tuple : Tuple3 → List Tuple3 → List Tuple3
insert_tuple t [] = t ∷ []
insert_tuple t (u ∷ us) = if tuple_lt u t then u ∷ insert_tuple t us else t ∷ u ∷ us

-- `sorted(tuples)`
abbrev pub sorted : List Tuple3 → List Tuple3
sorted [] = []
sorted (t ∷ ts) = insert_tuple t (sorted ts)

-- `ts - us`
abbrev pub minus : List Tuple3 → List Tuple3 → List Tuple3
minus ts us = select (λ t. not (member t us)) ts

pub record CaseMember : Type 0 where
  pub case_id : String
  pub user_id : String
  pub role : String

pub record EvidenceItem : Type 0 where
  pub evidence_id : String
  pub case_id : Option String

pub record CustodyEvent : Type 0 where
  pub evidence_id : String
  pub seq : ℕ
  pub to_actor : String

-- `_CASE_RELATIONS.get(role)`
unfoldable pub case_relation : String → Option String
case_relation role =
    if str_eq role "analyst"
    then some "analyst"
    else if str_eq role "investigator"
    then some "investigator"
    else if str_eq role "supervisor"
    then some "supervisor"
    else if str_eq role "auditor"
    then some "auditor_grant"
    else none

abbrev pub grant : CaseMember → Option String → List Tuple3
grant m none = []
grant m (some relation) =
    record {
      user = append_text "user:" m.user_id;
      relation = relation;
      object = append_text "case:" m.case_id;
    }
    ∷ []

unfoldable pub member_tuples : List CaseMember → List Tuple3
unfolding case_relation
member_tuples [] = []
member_tuples (m ∷ ms) = grant m (case_relation m.role) ++ member_tuples ms

abbrev pub evidence_tuple : String → Option String → List Tuple3
evidence_tuple evidence none = []
evidence_tuple evidence (some case_id) =
    record {
      user = append_text "case:" case_id;
      relation = "case";
      object = append_text "evidence_item:" evidence;
    }
    ∷ []

unfoldable pub evidence_tuples : List EvidenceItem → List Tuple3
evidence_tuples [] = []
evidence_tuples (i ∷ is) = evidence_tuple i.evidence_id i.case_id ++ evidence_tuples is

-- One turn of the loop that keeps the latest custody event of each item.
abbrev pub keep_latest : CustodyEvent → List CustodyEvent → List CustodyEvent
keep_latest e [] = e ∷ []
keep_latest e (c ∷ cs) =
    if str_eq c.evidence_id e.evidence_id
    then (if ltb c.seq e.seq then e ∷ cs else c ∷ cs)
    else c ∷ keep_latest e cs

unfoldable pub latest_events : List CustodyEvent → List CustodyEvent → List CustodyEvent
latest_events [] latest = latest
latest_events (e ∷ es) latest = latest_events es (keep_latest e latest)

abbrev pub custodian_tuple : CustodyEvent → Tuple3
custodian_tuple e = record {
  user = append_text "user:" e.to_actor;
  relation = "custodian";
  object = append_text "evidence_item:" e.evidence_id;
}

pub record Tables : Type 0 where
  pub members : List CaseMember
  pub evidence : List EvidenceItem
  pub custody : List CustodyEvent

-- `desired_tuples`; a Python set holds each tuple once.
unfoldable pub desired_tuples : Tables → List Tuple3
unfolding member_tuples evidence_tuples latest_events
desired_tuples db = distinct (
    member_tuples db.members
    ++ (evidence_tuples db.evidence ++ map custodian_tuple (latest_events db.custody [])))

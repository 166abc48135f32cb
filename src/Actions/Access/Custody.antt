-- ===== src/Actions/Access/Custody.antt =====
-- The custodian's tuple of each item, as custody events are added.
use text.Mathlib.Text.{◌==◌ as str_eq}
use criminal_networks_analys.Common.{
  String, ◌≡◌, refl, ap, ◌∙◌, false, Option, none, some, List, [], ◌∷◌, ◌++◌, arith, inl, inr,
  Bool-cases, All, subst, map, ltb, if◌then◌else◌,
}
use criminal_networks_analys.Common.Texts.{str_eq_sym, str_eq→eq}
use criminal_networks_analys.Authz.Tuples.{CustodyEvent, keep_latest, latest_events}
use criminal_networks_analys.Actions.Store as Store
use criminal_networks_analys.Actions.Store.{custody_view}
use criminal_networks_analys.Actions.Evidence.{current_event}

-- The event that the loop holds of an item.
abbrev pub held : String → List CustodyEvent → Option CustodyEvent
held id [] = none
held id (e ∷ es) = if str_eq e.evidence_id id then some e else held id es

abbrev pub FreeOf : String → List CustodyEvent → Type 0
FreeOf id es = All (λ e. str_eq e.evidence_id id ≡ false) es

-- Each item is held once.
abbrev pub IsPerItem : List CustodyEvent → Type 0
IsPerItem [] = Unit
IsPerItem (e ∷ es) = FreeOf e.evidence_id es × IsPerItem es

abbrev pub newer : CustodyEvent → Option CustodyEvent → CustodyEvent
newer e none = e
newer e (some c) = if ltb c.seq e.seq then e else c

held-keep_latest :
    (id : String) (e : CustodyEvent) (cs : List CustodyEvent)
    → held id (keep_latest e cs)
      ≡ (if str_eq e.evidence_id id then some (newer e (held id cs)) else held id cs)
held-keep_latest id e [] = refl
held-keep_latest id e (c ∷ cs) = elim (Bool-cases (str_eq c.evidence_id e.evidence_id)) [
  | inl same ↦
      let p = ap (λ x. str_eq x id) (str_eq→eq c.evidence_id e.evidence_id same) in
      ground (arith, same, p)
  | inr other ↦ elim (Bool-cases (str_eq e.evidence_id id)) [
    | inl here ↦ ground (
      arith,
      other,
      here,
      ap (λ x. str_eq c.evidence_id x) (str_eq→eq e.evidence_id id here),
      held-keep_latest id e cs,
    )
    | inr there ↦ ground (arith, other, there, held-keep_latest id e cs)
  ]
]

FreeOf-keep_latest :
    (id : String) (e : CustodyEvent) (cs : List CustodyEvent)
    → FreeOf id cs
    → str_eq e.evidence_id id ≡ false
    → FreeOf id (keep_latest e cs)
FreeOf-keep_latest id e [] h other = (other, tt)
FreeOf-keep_latest id e (c ∷ cs) h other =
    ground (arith, h, other, FreeOf-keep_latest id e cs h.1 other)

keep_latest-IsPerItem :
    (e : CustodyEvent) (cs : List CustodyEvent) → IsPerItem cs → IsPerItem (keep_latest e cs)
keep_latest-IsPerItem e [] h = (tt, tt)
keep_latest-IsPerItem e (c ∷ cs) h = elim (Bool-cases (str_eq c.evidence_id e.evidence_id)) [
  | inl same ↦
      ground
        (arith, same, h, subst (λ x. FreeOf x cs) (str_eq→eq c.evidence_id e.evidence_id same) h.0)
  | inr other ↦ ground (
    arith,
    other,
    h,
    FreeOf-keep_latest c.evidence_id e cs h.0 (str_eq_sym e.evidence_id c.evidence_id ∙ other),
    keep_latest-IsPerItem e cs h.1,
  )
]

pub latest_events-IsPerItem :
    (es cs : List CustodyEvent) → IsPerItem cs → IsPerItem (latest_events es cs)
unfolding latest_events
latest_events-IsPerItem [] cs h = h
latest_events-IsPerItem (e ∷ es) cs h =
    latest_events-IsPerItem es (keep_latest e cs) (keep_latest-IsPerItem e cs h)

pub latest_events-append :
    (es cs : List CustodyEvent) (e : CustodyEvent)
    → latest_events (es ++ e ∷ []) cs ≡ keep_latest e (latest_events es cs)
unfolding latest_events
latest_events-append [] cs e = refl
latest_events-append (d ∷ es) cs e = latest_events-append es (keep_latest d cs) e

-- The later of what the loop holds and what is to come; the earlier one if they have the same number.
abbrev joined : Option CustodyEvent → Option Store.CustodyEvent → Option CustodyEvent
joined o none = o
joined o (some e) = some (newer (custody_view e) o)

held-latest_from :
    (id : String) (es : List Store.CustodyEvent) (cs : List CustodyEvent)
    → held id (latest_events (map custody_view es) cs) ≡ joined (held id cs) (current_event id es)
unfolding latest_events
held-latest_from id [] cs = refl
held-latest_from id (e ∷ es) cs = ground (
  arith,
  held-latest_from id es (keep_latest (custody_view e) cs),
  held-keep_latest id (custody_view e) cs,
)

abbrev viewed : Option Store.CustodyEvent → Option CustodyEvent
viewed none = none
viewed (some e) = some (custody_view e)

-- The rebuild and the service mean the same event.
pub held-latest_events :
    (id : String) (es : List Store.CustodyEvent)
    → held id (latest_events (map custody_view es) []) ≡ viewed (current_event id es)
held-latest_events id es = ground (arith, held-latest_from id es [])

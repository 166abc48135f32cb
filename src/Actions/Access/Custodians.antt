-- ===== src/Actions/Access/Custodians.antt =====
-- The custodians' tuples, as the loop of `desired_tuples` takes one event more.
use text.Mathlib.Text.{◌==◌ as str_eq}
use criminal_networks_analys.Common.{
  String, ◌≡◌, ◌<◌, refl, ap, ◌∙◌, Bool, true, false, ◌&&◌, ◌||◌, not, none, some, List, [], ◌∷◌,
  arith, inl, inr, Bool-cases, subst, map,
}
use criminal_networks_analys.Common.Texts.{str_eq-append, str_eq_sym, str_eq→eq}
use criminal_networks_analys.Authz.Tuples.{
  CustodyEvent, Tuple3, same_tuple, member, custodian_tuple, keep_latest,
}
use criminal_networks_analys.Authz.Sets.{member-same}
use criminal_networks_analys.Actions.Evidence.{custody_tuple}
use criminal_networks_analys.Actions.Access.Custody.{held, FreeOf, IsPerItem}

abbrev pub kept : Tuple3 → List CustodyEvent → Bool
kept t cs = member t (map custodian_tuple cs)

other_item :
    (id actor : String) (c : CustodyEvent)
    → str_eq c.evidence_id id ≡ false
    → same_tuple (custody_tuple id actor) (custodian_tuple c) ≡ false
other_item id actor c h =
    ground (arith, h, str_eq-append "evidence_item:" id c.evidence_id, str_eq_sym id c.evidence_id)

FreeOf-kept :
    (id actor : String) (cs : List CustodyEvent)
    → FreeOf id cs
    → kept (custody_tuple id actor) cs ≡ false
FreeOf-kept id actor [] h = refl
FreeOf-kept id actor (c ∷ cs) h =
    ground (arith, other_item id actor c h.0, FreeOf-kept id actor cs h.1)

-- An item that has no event has no custodian.
pub kept-none :
    (id actor : String) (cs : List CustodyEvent)
    → held id cs ≡ none
    → kept (custody_tuple id actor) cs ≡ false
kept-none id actor [] h = refl
kept-none id actor (c ∷ cs) h = ground (arith, h, other_item id actor c, kept-none id actor cs)

own_item :
    (id actor : String) (c : CustodyEvent)
    → str_eq c.evidence_id id ≡ true
    → same_tuple (custody_tuple id actor) (custodian_tuple c) ≡ str_eq actor c.to_actor
own_item id actor c h = ground (
  arith,
  h,
  str_eq-append "evidence_item:" id c.evidence_id,
  str_eq-append "user:" actor c.to_actor,
  str_eq_sym id c.evidence_id,
)

-- The actor of the event that is held is the item's only custodian.
pub kept-some :
    (id actor : String) (cs : List CustodyEvent) (c : CustodyEvent)
    → IsPerItem cs
    → held id cs ≡ some c
    → kept (custody_tuple id actor) cs ≡ str_eq actor c.to_actor
kept-some id actor [] c one h = ground (arith, h)
kept-some id actor (d ∷ cs) c one h = elim (Bool-cases (str_eq d.evidence_id id)) [
  | inl own ↦
      let free = subst (λ x. FreeOf x cs) (str_eq→eq d.evidence_id id own) one.0 in
      ground (arith, h, own, own_item id actor d own, FreeOf-kept id actor cs free)
  | inr other ↦ ground (arith, h, other, other_item id actor d other, kept-some id actor cs c one.1)
]

pub keep_latest-first :
    (t : Tuple3) (e : CustodyEvent) (cs : List CustodyEvent)
    → held e.evidence_id cs ≡ none
    → kept t (keep_latest e cs) ≡ (same_tuple t (custodian_tuple e) || kept t cs)
keep_latest-first t e [] h = refl
keep_latest-first t e (c ∷ cs) h = ground (arith, h, keep_latest-first t e cs)

held-id :
    (id : String) (cs : List CustodyEvent) (c : CustodyEvent)
    → held id cs ≡ some c
    → str_eq c.evidence_id id ≡ true
held-id id [] c h = ground (arith, h)
held-id id (d ∷ cs) c h = elim (Bool-cases (str_eq d.evidence_id id)) [
  | inl own ↦ ground (arith, h, own)
  | inr other ↦ ground (arith, h, other, held-id id cs c)
]

apart :
    (t : Tuple3) (id : String) (c d : CustodyEvent)
    → str_eq c.evidence_id id ≡ true
    → str_eq d.evidence_id id ≡ false
    → (same_tuple t (custodian_tuple c) && same_tuple t (custodian_tuple d)) ≡ false
apart t id c d own other = ground (
  arith,
  member-same t (custodian_tuple c) (custodian_tuple d ∷ []),
  other_item c.evidence_id c.to_actor d
      (ap (λ x. str_eq d.evidence_id x) (str_eq→eq c.evidence_id id own) ∙ other),
)

pub keep_latest-next :
    (t : Tuple3) (e : CustodyEvent) (cs : List CustodyEvent) (c : CustodyEvent)
    → IsPerItem cs
    → held e.evidence_id cs ≡ some c
    → c.seq < e.seq
    → kept t (keep_latest e cs)
      ≡ (same_tuple t (custodian_tuple e) || (not (same_tuple t (custodian_tuple c)) && kept t cs))
keep_latest-next t e [] c one h lt = ground (arith, h)
keep_latest-next t e (d ∷ cs) c one h lt = elim (Bool-cases (str_eq d.evidence_id e.evidence_id)) [
  | inl own ↦
      let free : kept (custodian_tuple d) cs ≡ false =
        FreeOf-kept d.evidence_id d.to_actor cs one.0 in
      ground (arith, h, own, lt, free, member-same t (custodian_tuple d) (map custodian_tuple cs))
  | inr other ↦ ground (
    arith,
    h,
    other,
    lt,
    apart t e.evidence_id c d (held-id e.evidence_id cs c (ground (arith, h, other))) other,
    keep_latest-next t e cs c one.1,
  )
]

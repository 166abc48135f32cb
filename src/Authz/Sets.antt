-- ===== src/Authz/Sets.antt =====
-- Sets of tuples as lists: membership and distinctness under the operations of `rebuild`.
use text.Mathlib.TextEquality.{eq_iff}
use criminal_networks_analys.Common.{
  ◌≡◌, refl, ◌∙◌, ap, subst, true, false, ◌&&◌, ◌||◌, not, List, [], ◌∷◌, arith, Bool-cases, inl,
  inr,
}
use criminal_networks_analys.Authz.Tuples.{
  Tuple3, same_tuple, member, distinct, insert_tuple, sorted, minus,
}

pub same_tuple-eq : (t u : Tuple3) → same_tuple t u ≡ true → t ≡ u
same_tuple-eq t u h =
    let e = (eq_iff t.user u.user).0 (ground arith) in
    let f = (eq_iff t.relation u.relation).0 (ground arith) in
    let g = (eq_iff t.object u.object).0 (ground arith) in
    λ i. record { user = e i; relation = f i; object = g i }

pub same_tuple_refl : (t : Tuple3) → same_tuple t t ≡ true
same_tuple_refl t = ground (
  arith,
  (eq_iff t.user t.user).1 refl,
  (eq_iff t.relation t.relation).1 refl,
  (eq_iff t.object t.object).1 refl,
)

pub member-same :
    (t u : Tuple3) (us : List Tuple3) → same_tuple t u ≡ true → member t us ≡ member u us
member-same t u us h = ap (λ v. member v us) (same_tuple-eq t u h)

same_tuple_turns : (t u : Tuple3) → same_tuple t u ≡ true → same_tuple u t ≡ true
same_tuple_turns t u h =
    subst (λ v. same_tuple v t ≡ true) (same_tuple-eq t u h) (same_tuple_refl t)

pub same_tuple_sym : (t u : Tuple3) → same_tuple t u ≡ same_tuple u t
same_tuple_sym t u = ground (arith, same_tuple_turns t u, same_tuple_turns u t)

-- No tuple is held twice.
abbrev pub IsDistinct : List Tuple3 → Type 0
IsDistinct [] = Unit
IsDistinct (t ∷ ts) = (member t ts ≡ false) × IsDistinct ts

pub member-distinct : (t : Tuple3) (ts : List Tuple3) → member t (distinct ts) ≡ member t ts
member-distinct t [] = refl
member-distinct t (u ∷ us) = elim (Bool-cases (same_tuple t u)) [
  | inl same ↦ ground (
    arith,
    member-distinct t us,
    member-distinct u us,
    member-same t u us same,
    member-same t u (distinct us) same,
  )
  | inr other ↦ ground (arith, member-distinct t us)
]

pub distinct-IsDistinct : (ts : List Tuple3) → IsDistinct (distinct ts)
distinct-IsDistinct [] = tt
distinct-IsDistinct (t ∷ ts) = ground (arith, distinct-IsDistinct ts)

pub member-minus :
    (t : Tuple3) (ts us : List Tuple3) → member t (minus ts us) ≡ (member t ts && not (member t us))
member-minus t [] us = refl
member-minus t (u ∷ ts) us = elim (Bool-cases (same_tuple t u)) [
  | inl same ↦ ground (arith, member-minus t ts us, member-same t u us same)
  | inr other ↦ ground (arith, member-minus t ts us)
]

pub minus-IsDistinct : (ts us : List Tuple3) → IsDistinct ts → IsDistinct (minus ts us)
minus-IsDistinct [] us d = tt
minus-IsDistinct (t ∷ ts) us d = ground (arith, d, member-minus t ts us, minus-IsDistinct ts us d.1)

member-insert_tuple :
    (t u : Tuple3) (us : List Tuple3)
    → member t (insert_tuple u us) ≡ (same_tuple t u || member t us)
member-insert_tuple t u [] = refl
member-insert_tuple t u (v ∷ vs) = ground (arith, member-insert_tuple t u vs)

pub member-sorted : (t : Tuple3) (ts : List Tuple3) → member t (sorted ts) ≡ member t ts
member-sorted t [] = refl
member-sorted t (u ∷ us) = ground (arith, member-insert_tuple t u (sorted us), member-sorted t us)

insert_tuple-IsDistinct :
    (t : Tuple3) (us : List Tuple3)
    → member t us ≡ false
    → IsDistinct us
    → IsDistinct (insert_tuple t us)
insert_tuple-IsDistinct t [] new d = ground arith
insert_tuple-IsDistinct t (u ∷ us) new d =
    ground (arith, d, member-insert_tuple u t us, same_tuple_sym t u, insert_tuple-IsDistinct t us)

pub sorted-IsDistinct : (ts : List Tuple3) → IsDistinct ts → IsDistinct (sorted ts)
sorted-IsDistinct [] d = tt
sorted-IsDistinct (t ∷ ts) d =
    insert_tuple-IsDistinct t (sorted ts) (member-sorted t ts ∙ d.0) (sorted-IsDistinct ts d.1)

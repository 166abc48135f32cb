-- ===== src/Projection/Segments/Cuts.antt =====
-- The first loop of `_segment`: the cuts, and the claims of the range between two of them.
use criminal_networks_analys.Common.{
  ℕ, ◌≤◌, ◌<◌, ◌≡◌, refl, sym, ◌∙◌, true, false, Option, none, some, List, [], ◌∷◌, ltb, ◌==◌,
  if◌then◌else◌, arith, All, Bool-cases, inl, inr, ◌⊎◌, select, insert_by, dedup, member, identity,
  sorted_set, member-sorted_set, member-dedup,
}
use criminal_networks_analys.Projection.Segments.{
  Interval, Segment, covers, covering, cons_nonempty, elementary,
}
use criminal_networks_analys.Projection.Segments.Merging.{claims_at, Follows}

-- Each number is below the next.
abbrev pub Ascends : List ℕ → Type 0
Ascends [] = Unit
Ascends (x ∷ []) = Unit
Ascends (x ∷ y ∷ ys) = (x < y) × Ascends (y ∷ ys)

Ascends-insert_by :
    (x : ℕ) (ys : List ℕ) → member x ys ≡ false → Ascends ys → Ascends (insert_by identity x ys)
Ascends-insert_by x [] new a = tt
Ascends-insert_by x (y ∷ []) new a = ground arith
Ascends-insert_by x (y ∷ z ∷ zs) new a = ground (arith, Ascends-insert_by x (z ∷ zs))

pub Ascends-sorted_set : (xs : List ℕ) → Ascends (sorted_set xs)
Ascends-sorted_set [] = tt
Ascends-sorted_set (x ∷ xs) = elim (Bool-cases (member x (dedup xs))) [
  | inl seen ↦ rw seen (Ascends-sorted_set xs)
  | inr new ↦ rw new (
      Ascends-insert_by x (sorted_set xs) (member-sorted_set x xs ∙ sym (member-dedup x xs) ∙ new)
        (Ascends-sorted_set xs))
]

abbrev pub nonempty : List ℕ → Option (List ℕ)
nonempty [] = none
nonempty (c ∷ cs) = some (c ∷ cs)

-- Every bound of an interval is a cut, or is no later than the date.
abbrev pub Bounded : ℕ → List ℕ → Interval → Type 0
Bounded d cs i =
    ((i.start ≤ d) ⊎ (member i.start cs ≡ true)) × ((i.end ≤ d) ⊎ (member i.end cs ≡ true))

pub Follows-mono : (c d : ℕ) (ss : List Segment) → c ≤ d → Follows d ss → Follows c ss
Follows-mono c d [] le f = tt
Follows-mono c d (s ∷ ss) le f = (omega (arith, f.0), f.1, f.2)

Follows-cons_nonempty :
    (c high : ℕ) (ids : List ℕ) (rest : List Segment)
    → c < high
    → Follows high rest
    → Follows c (cons_nonempty c high ids rest)
Follows-cons_nonempty c high [] rest lt f = Follows-mono c high rest (omega arith) f
Follows-cons_nonempty c high (x ∷ xs) rest lt f = (omega arith, lt, f)

pub Follows-elementary :
    (intervals : List Interval) (c : ℕ) (cs : List ℕ)
    → Ascends (c ∷ cs)
    → Follows c (elementary intervals (c ∷ cs))
unfolding elementary
Follows-elementary intervals c [] a = tt
Follows-elementary intervals c (high ∷ cs) a =
    Follows-cons_nonempty c high (covering intervals c) _ a.0
      (Follows-elementary intervals high cs a.1)

pub claims_at-before : (c d : ℕ) (ss : List Segment) → Follows c ss → d < c → claims_at d ss ≡ none
claims_at-before c d [] f lt = refl
claims_at-before c d (s ∷ ss) f lt = ground (arith, f, claims_at-before s.high d ss f.2)

claims_at-cons_nonempty :
    (low high d : ℕ) (ids : List ℕ) (rest : List Segment)
    → low ≤ d
    → Follows high rest
    → claims_at d (cons_nonempty low high ids rest)
      ≡ (if ltb d high then nonempty ids else claims_at d rest)
claims_at-cons_nonempty low high d [] rest le f = ground (arith, claims_at-before high d rest f)
claims_at-cons_nonempty low high d (x ∷ xs) rest le f = ground arith

pub Ascends-member : (c x : ℕ) (cs : List ℕ) → Ascends (c ∷ cs) → member x (c ∷ cs) ≡ true → c ≤ x
Ascends-member c x [] a m = ground arith
Ascends-member c x (d ∷ cs) a m = ground (arith, a, Ascends-member d x cs)

-- Between two cuts no interval starts or ends.
covers-between :
    (c high d : ℕ) (cs : List ℕ) (i : Interval)
    → Ascends (high ∷ cs)
    → Bounded c (high ∷ cs) i
    → c ≤ d
    → d < high
    → covers d i ≡ covers c i
covers-between c high d cs i a b le lt =
    ground (arith, b, Ascends-member high i.start cs a, Ascends-member high i.end cs a)

covering-between :
    (c high d : ℕ) (cs : List ℕ) (intervals : List Interval)
    → Ascends (high ∷ cs)
    → All (Bounded c (high ∷ cs)) intervals
    → c ≤ d
    → d < high
    → select (covers d) intervals ≡ select (covers c) intervals
covering-between c high d cs [] a bs le lt = refl
covering-between c high d cs (i ∷ is) a bs le lt =
    ground (
      arith,
      covers-between c high d cs i a bs.0 le lt,
      covering-between c high d cs is a bs.1 le lt,
    )

ended :
    (c d : ℕ) (intervals : List Interval)
    → All (Bounded c []) intervals
    → c ≤ d
    → select (covers d) intervals ≡ []
ended c d [] bs le = refl
ended c d (i ∷ is) bs le = ground (arith, bs.0, ended c d is bs.1 le)

pub bound_next :
    (c high x : ℕ) (cs : List ℕ)
    → c ≤ high
    → (x ≤ c) ⊎ (member x (high ∷ cs) ≡ true)
    → (x ≤ high) ⊎ (member x cs ≡ true)
bound_next c high x cs lt (inl le) = inl (omega arith)
bound_next c high x cs lt (inr m) = elim (Bool-cases (x == high)) [
  | inl same ↦ inl (ground arith)
  | inr other ↦ inr (ground arith)
]

Bounded-next :
    (c high : ℕ) (cs : List ℕ) (intervals : List Interval)
    → c < high
    → All (Bounded c (high ∷ cs)) intervals
    → All (Bounded high cs) intervals
Bounded-next c high cs [] lt bs = tt
Bounded-next c high cs (i ∷ is) lt bs = (
  (
    bound_next c high i.start cs (omega arith) bs.0.0,
    bound_next c high i.end cs (omega arith) bs.0.1,
  ),
  Bounded-next c high cs is lt bs.1,
)

pub claims_at-elementary :
    (intervals : List Interval) (c : ℕ) (cs : List ℕ) (d : ℕ)
    → Ascends (c ∷ cs)
    → All (Bounded c cs) intervals
    → c ≤ d
    → claims_at d (elementary intervals (c ∷ cs)) ≡ nonempty (covering intervals d)
unfolding elementary covering
claims_at-elementary intervals c [] d a bs le = rw (ended c d intervals bs le) refl
claims_at-elementary intervals c (high ∷ cs) d a bs le =
    claims_at-cons_nonempty c high d (covering intervals c) _ le
      (Follows-elementary intervals high cs a.1)
    ∙ (elim (Bool-cases (ltb d high)) [
      | inl inside ↦ ground (arith, covering-between c high d cs intervals a.1 bs le)
      | inr later ↦ ground (
        arith,
        claims_at-elementary intervals high cs d a.1 (Bounded-next c high cs intervals a.0 bs),
      )
    ])

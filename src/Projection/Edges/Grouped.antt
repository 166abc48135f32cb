-- ===== src/Projection/Edges/Grouped.antt =====
-- The groups and the claims that support an edge, before and after sorting.
use mathlib.Core.List.{append-nil, append_assoc}
use criminal_networks_analys.Common.{
  ℕ, ◌≡◌, refl, sym, ◌∙◌, Bool, true, false, ◌&&◌, ◌||◌, Option, none, some, List, [], ◌∷◌, ◌++◌,
  if◌then◌else◌, arith, select, is_none, Bool-cases, inl, inr,
}
use criminal_networks_analys.Projection.Store.{Claim}
use criminal_networks_analys.Projection.Groups.{
  Key, Group, Grouping, Resolver, same_key, key_lt, key_of, add_claim, group_claims, group_row,
  insert_group, sort_groups,
}
use criminal_networks_analys.Projection.Segments.Merging.{or_else}
use criminal_networks_analys.Projection.Edges.{valid_claims, supports, with_key}

-- The claims of the first group of the key.
abbrev pub group_of : Key → List Group → List Claim
group_of k [] = []
group_of k (g ∷ gs) = if same_key g.key k then g.claims else group_of k gs

abbrev pub has_key : Key → List Group → Bool
has_key k [] = false
has_key k (g ∷ gs) = same_key g.key k || has_key k gs

abbrev pub IsUnique : List Group → Type 0
IsUnique [] = Unit
IsUnique (g ∷ gs) = (has_key g.key gs ≡ false) × IsUnique gs

-- The claims of the key at the date, from whichever group has some.
abbrev pub group_claims_at : Key → ℕ → List Group → Option (List ℕ)
group_claims_at k d [] = none
group_claims_at k d (g ∷ gs) =
    or_else (if same_key g.key k then valid_claims d g.claims else none) (group_claims_at k d gs)

has_key-add_claim :
    (k j : Key) (c : Claim) (gs : List Group)
    → has_key k (add_claim j c gs) ≡ (same_key j k || has_key k gs)
has_key-add_claim k j c [] = ground arith
has_key-add_claim k j c (g ∷ gs) = ground (arith, has_key-add_claim k j c gs)

add_claim-IsUnique :
    (j : Key) (c : Claim) (gs : List Group) → IsUnique gs → IsUnique (add_claim j c gs)
add_claim-IsUnique j c [] u = ground arith
add_claim-IsUnique j c (g ∷ gs) u =
    ground (arith, u, has_key-add_claim g.key j c gs, add_claim-IsUnique j c gs u.1)

group_of-add_claim :
    (k j : Key) (c : Claim) (gs : List Group)
    → group_of k (add_claim j c gs)
      ≡ (if same_key j k then group_of k gs ++ c ∷ [] else group_of k gs)
group_of-add_claim k j c [] = ground arith
group_of-add_claim k j c (g ∷ gs) = ground (arith, group_of-add_claim k j c gs)

one_row :
    (v : Resolver) (k : Key) (c : Claim) (object : Option ℕ) (live : Bool) (g : Grouping)
    → group_of k (group_row v c object live g).groups ≡ (
        if live && with_key v k c object
        then group_of k g.groups ++ c ∷ []
        else group_of k g.groups)
one_row v k c none live g = ground arith
one_row v k c (some object) false g = refl
one_row v k c (some object) true g =
    ground (arith, group_of-add_claim k (key_of v object c) c g.groups)

row-IsUnique :
    (v : Resolver) (c : Claim) (object : Option ℕ) (live : Bool) (g : Grouping)
    → IsUnique g.groups
    → IsUnique (group_row v c object live g).groups
row-IsUnique v c none live g u = u
row-IsUnique v c (some object) false g u = u
row-IsUnique v c (some object) true g u =
    ground (arith, u, add_claim-IsUnique (key_of v object c) c g.groups)

pub group_of-group_claims :
    (v : Resolver) (k : Key) (cs : List Claim) (g : Grouping)
    → group_of k (group_claims v cs g).groups ≡ group_of k g.groups ++ select (supports v k) cs
unfolding group_claims
group_of-group_claims v k [] g = sym (append-nil (group_of k g.groups))
group_of-group_claims v k (c ∷ cs) g =
    group_of-group_claims v k cs (group_row v c c.object_id (is_none c.retracted_at) g)
    ∙ grind (arith, one_row v k c c.object_id (is_none c.retracted_at) g, append_assoc)

pub group_claims-IsUnique :
    (v : Resolver) (cs : List Claim) (g : Grouping)
    → IsUnique g.groups
    → IsUnique (group_claims v cs g).groups
unfolding group_claims
group_claims-IsUnique v [] g u = u
group_claims-IsUnique v (c ∷ cs) g u =
    group_claims-IsUnique v cs _ (row-IsUnique v c c.object_id (is_none c.retracted_at) g u)

no_claims_at :
    (k : Key) (d : ℕ) (gs : List Group) → has_key k gs ≡ false → group_claims_at k d gs ≡ none
no_claims_at k d [] h = refl
no_claims_at k d (g ∷ gs) h = ground (arith, no_claims_at k d gs)

same_has_key :
    (j k : Key) (gs : List Group)
    → same_key j k ≡ true
    → has_key j gs ≡ false
    → has_key k gs ≡ false
same_has_key j k [] same h = refl
same_has_key j k (g ∷ gs) same h = ground (arith, same_has_key j k gs same)

pub claims_at-group_of :
    (k : Key) (d : ℕ) (gs : List Group)
    → IsUnique gs
    → group_claims_at k d gs ≡ valid_claims d (group_of k gs)
claims_at-group_of k d [] u = refl
claims_at-group_of k d (g ∷ gs) u = elim (Bool-cases (same_key g.key k)) [
  | inl same ↦ ground (arith, no_claims_at k d gs (same_has_key g.key k gs same (u.0)))
  | inr other ↦ rw other (claims_at-group_of k d gs u.1)
]

or_else-swap :
    {A : Type 0} (p q : Bool) (x y z : Option A)
    → (p && q) ≡ false
    → or_else (if q then y else none) (or_else (if p then x else none) z)
      ≡ or_else (if p then x else none) (or_else (if q then y else none) z)
or_else-swap p q x y z h = ground arith

key_lt-distinct : (j i k : Key) → key_lt j i ≡ true → (same_key i k && same_key j k) ≡ false
key_lt-distinct j i k h = ground arith

at_insert_group :
    (k : Key) (d : ℕ) (g : Group) (gs : List Group)
    → group_claims_at k d (insert_group g gs) ≡ group_claims_at k d (g ∷ gs)
at_insert_group k d g [] = refl
at_insert_group k d g (h ∷ hs) = elim (Bool-cases (key_lt h.key g.key)) [
  | inl before ↦
      rw (before, at_insert_group k d g hs)
        (or_else-swap (same_key g.key k) (same_key h.key k) (valid_claims d g.claims)
          (valid_claims d h.claims) (group_claims_at k d hs) (key_lt-distinct h.key g.key k before))
  | inr from ↦ rw from refl
]

pub at_sort_groups :
    (k : Key) (d : ℕ) (gs : List Group)
    → group_claims_at k d (sort_groups gs) ≡ group_claims_at k d gs
at_sort_groups k d [] = refl
at_sort_groups k d (g ∷ gs) = rw (at_insert_group, at_sort_groups k d gs) refl

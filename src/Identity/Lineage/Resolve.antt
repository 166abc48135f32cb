-- ===== src/Identity/Lineage/Resolve.antt =====
-- `_resolve`: the walk along the lineage, and where it ends.
use criminal_networks_analys.Common.{
  ℕ, zero, suc, ◌+◌, ◌<◌, ◌≤◌, ◌≡◌, ◌≢◌, refl, sym, ◌∙◌, ap, subst, true, false, none, some, List,
  [], ◌∷◌, ◌++◌, arith, Option-cases, Bool-cases, inl, inr, ◌⊎◌, length, member, member-append,
  if◌then◌else◌,
}
use mathlib.Core.Option.{some-injective}
use criminal_networks_analys.Common.Dict.{Dict, lookup, keys}
use criminal_networks_analys.Identity.Monad.{ok, err, out_of_fuel}
use criminal_networks_analys.Identity.Canonical.{follow, resolve}

-- `y` is reached from `x` along the lineage.
pub data LeadsTo (parent : Dict ℕ) (x : ℕ) : ℕ → Type 0 where
  here : LeadsTo parent x x
  next : {y z : ℕ} → LeadsTo parent x y → lookup y parent ≡ some z → LeadsTo parent x z

-- The keys that the walk has not seen.
unseen : List ℕ → List ℕ → ℕ
unseen seen [] = 0
unseen seen (k ∷ ks) = let rest = unseen seen ks in if member k seen then rest else suc rest

unseen-le : (seen : List ℕ) (n : ℕ) (ks : List ℕ) → unseen (seen ++ n ∷ []) ks ≤ unseen seen ks
unfolding unseen
unseen-le seen n [] = omega arith
unseen-le seen n (k ∷ ks) = ground (arith, unseen-le seen n ks, member-append k seen (n ∷ []))

unseen-lt :
    (seen : List ℕ) (n : ℕ) (ks : List ℕ)
    → member n ks ≡ true
    → member n seen ≡ false
    → unseen (seen ++ n ∷ []) ks < unseen seen ks
unfolding unseen
unseen-lt seen n [] h k = cc
unseen-lt seen n (x ∷ ks) h k =
    ground (arith, unseen-lt seen n ks, unseen-le seen n ks, member-append x seen (n ∷ []))

unseen-length : (seen : List ℕ) (ks : List ℕ) → unseen seen ks ≤ length ks
unfolding unseen
unseen-length seen [] = omega arith
unseen-length seen (k ∷ ks) = ground (arith, unseen-length seen ks)

length-keys : (parent : Dict ℕ) → length (keys parent) ≡ length parent
length-keys [] = refl
length-keys (e ∷ d) = ap suc (length-keys d)

member-keys : (k : ℕ) (parent : Dict ℕ) → member k (keys parent) ≡ false → lookup k parent ≡ none
member-keys k [] h = refl
member-keys k ((j, v) ∷ d) h = ground (arith, member-keys k d)

follow_enough :
    (fuel : ℕ) (parent : Dict ℕ) (current : ℕ) (seen : List ℕ)
    → unseen seen (keys parent) + 1 < fuel
    → follow fuel parent current seen ≢ err out_of_fuel
unfolding follow
follow_enough zero parent current seen h e = absurd (omega arith)
follow_enough (suc zero) parent current seen h e = absurd (omega arith)
follow_enough (suc (suc fuel)) parent current seen h e =
    elim (Option-cases (lookup current parent)) [
      | inl root ↦ ground arith
      | inr (n, to) ↦ elim (Bool-cases (member n seen)) [
        | inl again ↦ ground arith
        | inr fresh ↦ elim (Bool-cases (member n (keys parent))) [
          | inl key ↦ ground (
            arith,
            unseen-lt seen n (keys parent) key fresh,
            follow_enough (suc fuel) parent n (seen ++ n ∷ []),
          )
          | inr leaf ↦ ground (arith, member-keys n parent leaf)
        ]
      ]
    ]

-- The walk of `_resolve` always ends: at a root, or at an entity that it has met before.
pub resolve-terminates : (entity : ℕ) (parent : Dict ℕ) → resolve entity parent ≢ err out_of_fuel
unfolding resolve
resolve-terminates entity parent =
    follow_enough (length parent + 2) parent entity (entity ∷ [])
      (omega (arith, unseen-length (entity ∷ []) (keys parent), length-keys parent))

follow_sound :
    (fuel : ℕ) (parent : Dict ℕ) (start current : ℕ) (seen : List ℕ) (c : ℕ)
    → LeadsTo parent start current
    → follow fuel parent current seen ≡ ok c
    → LeadsTo parent start c × (lookup c parent ≡ none)
unfolding follow
follow_sound zero parent start current seen c l e = cc
follow_sound (suc fuel) parent start current seen c l e =
    elim (Option-cases (lookup current parent)) [
      | inl root ↦
          let same : current ≡ c = ground arith in
          (subst (LeadsTo parent start) same l, subst (λ x. lookup x parent ≡ none) same root)
      | inr (n, to) ↦ elim (Bool-cases (member n seen)) [
        | inl again ↦ absurd (ground arith)
        | inr fresh ↦ follow_sound fuel parent start n (seen ++ n ∷ []) c (next l to) (ground arith)
      ]
    ]

-- What an entity resolves to is reached from it along the lineage, and was absorbed by nothing.
pub resolve-root :
    (entity : ℕ) (parent : Dict ℕ) (c : ℕ)
    → resolve entity parent ≡ ok c
    → LeadsTo parent entity c × (lookup c parent ≡ none)
unfolding resolve
resolve-root entity parent c e =
    follow_sound (length parent + 2) parent entity entity (entity ∷ []) c here e

module _ {parent : Dict ℕ} where
  -- A walk is empty, or begins with a step.
  uncons :
      {x z : ℕ}
      → LeadsTo parent x z
      → (x ≡ z) ⊎ ((w : ℕ) × (lookup x parent ≡ some w) × LeadsTo parent w z)
  uncons here = inl refl
  uncons {x} (next {y} {z} l to) = elim (uncons l) [
    | inl same ↦ inr (z, subst (λ v. lookup v parent ≡ some z) (sym same) to, here)
    | inr (w, first_step, rest) ↦ inr (w, first_step, next rest to)
  ]

  pub root-LeadsTo : {c z : ℕ} → lookup c parent ≡ none → LeadsTo parent c z → c ≡ z
  root-LeadsTo root l = elim (uncons l) [ inl same ↦ same | inr (w, to, rest) ↦ cc ]

  -- Two walks from one entity: one goes on from the other.
  comparable :
      {x y z : ℕ}
      → LeadsTo parent x y
      → LeadsTo parent x z
      → LeadsTo parent y z ⊎ LeadsTo parent z y
  comparable here l = inl l
  comparable {x} {z = z} (next {y = u} k to) l = elim (comparable k l) [
    | inl on ↦ elim (uncons on) [
      | inl same ↦ inr (next (subst (λ v. LeadsTo parent z v) (sym same) here) to)
      | inr (w, first_step, rest) ↦
          inl (subst (λ v. LeadsTo parent v z) (some-injective _ _ (sym first_step ∙ to)) rest)
    ]
    | inr back ↦ inr (next back to)
  ]

  -- An entity leads to one root at most.
  pub root_unique :
      {x c d : ℕ}
      → LeadsTo parent x c
      → lookup c parent ≡ none
      → LeadsTo parent x d
      → lookup d parent ≡ none
      → c ≡ d
  root_unique k c_root l d_root = elim (comparable k l) [
    | inl on ↦ root-LeadsTo c_root on
    | inr back ↦ sym (root-LeadsTo d_root back)
  ]

  pub LeadsTo-cons :
      {x y z : ℕ} → lookup x parent ≡ some y → LeadsTo parent y z → LeadsTo parent x z
  LeadsTo-cons to here = next here to
  LeadsTo-cons to (next l more) = next (LeadsTo-cons to l) more

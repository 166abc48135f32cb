-- ===== src/Identity/Membership/Spec.antt =====
-- What the ledger promises of its memberships, stated over the rows alone.
use criminal_networks_analys.Common.{
  ℕ, suc, ◌≤◌, ◌<◌, Bool, true, Option, none, some, List, [], ◌∷◌, ◌&&◌, leb, ltb, ◌==◌,
  if◌then◌else◌,
}
use criminal_networks_analys.Identity.Store.{IdentityMembership}
use criminal_networks_analys.Identity.Ledger.{is_active}

-- How many active rows the mention has.
abbrev pub active_count : ℕ → List IdentityMembership → ℕ
active_count mention [] = 0
active_count mention (m ∷ ms) =
    let rest = active_count mention ms in
    if m.mention_id == mention && is_active m then suc rest else rest

-- `ux_membership_one_active`
abbrev pub IsOneActive : List IdentityMembership → Type 0
IsOneActive ms = (mention : ℕ) → active_count mention ms ≤ 1

-- A row is in force at a revision if it was open by then and not yet closed.
abbrev pub in_force : ℕ → IdentityMembership → Bool
in_force revision m =
    leb m.opened_revision_id revision
    && (elim m.closed_revision_id [ none ↦ true | some c ↦ ltb revision c ])

-- Who the mention belonged to at that revision.
abbrev pub entity_at : ℕ → ℕ → List IdentityMembership → Option ℕ
entity_at revision mention [] = none
entity_at revision mention (m ∷ ms) =
    if m.mention_id == mention && in_force revision m
    then some m.entity_id
    else entity_at revision mention ms

-- A mention that belongs somewhere is moved to the target.
abbrev pub retarget : ℕ → Option ℕ → Option ℕ
retarget target none = none
retarget target (some _) = some target

abbrev pub WithinRow : ℕ → IdentityMembership → Type 0
WithinRow next m = (m.opened_revision_id < next) × (elim m.closed_revision_id [
  | none ↦ Unit {0}
  | some c ↦ (m.opened_revision_id ≤ c) × (c < next)
])

-- Every revision that a row names was handed out, and no row closed before it opened.
abbrev pub AreWithin : ℕ → List IdentityMembership → Type 0
AreWithin next [] = Unit
AreWithin next (m ∷ ms) = WithinRow next m × AreWithin next ms

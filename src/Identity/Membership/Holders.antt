-- ===== src/Identity/Membership/Holders.antt =====
-- Reading the table mention by mention: the rows of an entity, and what one active row says.
use criminal_networks_analys.Common.{
  ℕ, ◌≤◌, ◌≡◌, ◌≢◌, refl, ◌⊎◌, inl, Bool, true, false, Option, none, some, List, [], ◌∷◌, map, ◌&&◌,
  not, ◌==◌, select, member, dedup, length, All, arith,
}
use criminal_networks_analys.Identity.Store.{IdentityMembership}
use criminal_networks_analys.Identity.Ledger.{is_active, active_entity}
use criminal_networks_analys.Identity.Moves.{moves, moved_of, mentions_of_entity}
use criminal_networks_analys.Identity.Scope.{entities_of}
use criminal_networks_analys.Identity.Membership.Spec.{active_count}
use criminal_networks_analys.Identity.Membership.Moving.{rows_of, rows_of-sort_by}

-- `o == some e`
abbrev pub is_at : ℕ → Option ℕ → Bool
is_at e none = false
is_at e (some x) = x == e

member-map :
    (x : ℕ) (ms : List IdentityMembership)
    → member x (map (λ m. m.mention_id) ms) ≡ not (rows_of x ms == 0)
member-map x [] = refl
member-map x (m ∷ ms) = ground (arith, member-map x ms)

pub active_entity-none :
    (x : ℕ) (ms : List IdentityMembership) → active_count x ms ≡ 0 → active_entity x ms ≡ none
unfolding active_entity
active_entity-none x [] h = refl
active_entity-none x (m ∷ ms) h = ground (arith, active_entity-none x ms)

pub active_count-zero :
    (x : ℕ) (ms : List IdentityMembership) → active_entity x ms ≡ none → active_count x ms ≡ 0
unfolding active_entity
active_count-zero x [] h = refl
active_count-zero x (m ∷ ms) h = ground (arith, active_count-zero x ms)

rows_of-none :
    (p : IdentityMembership → Bool) (x : ℕ) (ms : List IdentityMembership)
    → active_count x ms ≡ 0
    → rows_of x (select (λ m. p m && is_active m) ms) ≡ 0
rows_of-none p x [] h = refl
rows_of-none p x (m ∷ ms) h = ground (arith, rows_of-none p x ms)

rows_of-entity :
    (e x : ℕ) (ms : List IdentityMembership)
    → active_count x ms ≤ 1
    → not (rows_of x (select (λ m. m.entity_id == e && is_active m) ms) == 0)
      ≡ is_at e (active_entity x ms)
unfolding active_entity
rows_of-entity e x [] h = refl
rows_of-entity e x (m ∷ ms) h =
    ground (arith, rows_of-entity e x ms, rows_of-none (λ r. r.entity_id == e) x ms)

-- A mention is among an entity's exactly if it belongs to the entity.
pub member-mentions_of_entity :
    (e x : ℕ) (ms : List IdentityMembership)
    → active_count x ms ≤ 1
    → member x (mentions_of_entity e ms) ≡ is_at e (active_entity x ms)
unfolding mentions_of_entity
member-mentions_of_entity e x ms h = rw member-map (rw rows_of-sort_by (rows_of-entity e x ms h))

pub rows_of-moves :
    (mentions : List ℕ) (target x : ℕ) (ms : List IdentityMembership)
    → active_count x ms ≤ 1
    → not (rows_of x (select (moves mentions target) ms) == 0) ≡ (
        member x mentions
        && (elim (active_entity x ms) [ none ↦ false | some e ↦ not (e == target) ]))
unfolding active_entity
rows_of-moves mentions target x [] h = ground arith
rows_of-moves mentions target x (m ∷ ms) h =
    ground (arith, rows_of-moves mentions target x ms, active_entity-none x ms)

-- The mentions that a move reports: named, belonging somewhere, and not on the target before.
pub member-moved_of :
    (mentions : List ℕ) (target x : ℕ) (ms : List IdentityMembership)
    → active_count x ms ≤ 1
    → member x (moved_of mentions target ms) ≡ (
        member x mentions
        && (elim (active_entity x ms) [ none ↦ false | some e ↦ not (e == target) ]))
member-moved_of mentions target x ms h =
    rw member-map (rw rows_of-sort_by (rows_of-moves mentions target x ms h))

-- The entities of two mentions that belong to the same one are one entity.
abbrev pub Is : ℕ → ℕ → Type 0
Is e x = x ≡ e

abbrev pub fits : ℕ → Option ℕ → Bool
fits e none = true
fits e (some x) = x == e

All-entities :
    (a b e : ℕ) (ms : List IdentityMembership)
    → active_count a ms ≤ 1
    → active_count b ms ≤ 1
    → fits e (active_entity a ms) ≡ true
    → fits e (active_entity b ms) ≡ true
    → All
        (Is e)
        (map (λ m. m.entity_id) (select (λ m. member m.mention_id (a ∷ b ∷ []) && is_active m) ms))
unfolding active_entity
All-entities a b e [] h k p q = tt
All-entities a b e (m ∷ ms) h k p q =
    ground (arith, All-entities a b e ms, active_entity-none a ms, active_entity-none b ms)

dedup-same : (e : ℕ) (xs : List ℕ) → All (Is e) xs → (dedup xs ≡ []) ⊎ (dedup xs ≡ e ∷ [])
dedup-same e [] h = inl refl
dedup-same e (x ∷ xs) h = ground (arith, dedup-same e xs h.1)

-- A set of copies of one element has one element.
pub dedup-All : (e : ℕ) (xs : List ℕ) → All (Is e) xs → xs ≢ [] → dedup xs ≡ e ∷ []
dedup-All e [] h ne = absurd (ne refl)
dedup-All e (x ∷ xs) h ne = ground (arith, dedup-same e xs h.1)

-- Two mentions of one entity give a scope of one.
pub entities_of-same :
    (a b e : ℕ) (ms : List IdentityMembership)
    → active_count a ms ≤ 1
    → active_count b ms ≤ 1
    → active_entity a ms ≡ some e
    → active_entity b ms ≡ some e
    → length (entities_of (a ∷ b ∷ []) ms) ≤ 1
unfolding entities_of
entities_of-same a b e ms h k p q =
    ground (arith, dedup-same e _ (All-entities a b e ms h k (ground arith) (ground arith)))

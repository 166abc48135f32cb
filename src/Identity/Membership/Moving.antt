-- ===== src/Identity/Membership/Moving.antt =====
-- `_move_mentions` on the table: its rows, the active ones, and the past.
use criminal_networks_analys.Common.{
  ℕ, suc, ◌+◌, ◌≤◌, ◌<◌, ◌≡◌, refl, Option, none, some, List, [], ◌∷◌, ◌++◌, map, ◌==◌,
  if◌then◌else◌, select, sort_by, insert_by, member, arith,
}
use criminal_networks_analys.Identity.Store.{IdentityMembership}
use criminal_networks_analys.Identity.Ledger.{active_entity}
use criminal_networks_analys.Identity.Moves.{moves, close_moved, reopened, moved_table}
use criminal_networks_analys.Identity.Membership.Spec.{active_count, entity_at, retarget}

abbrev pub or_else : Option ℕ → Option ℕ → Option ℕ
or_else none b = b
or_else (some a) b = some a

-- How many rows of a list are of the mention.
abbrev pub rows_of : ℕ → List IdentityMembership → ℕ
rows_of x [] = 0
rows_of x (m ∷ ms) = let rest = rows_of x ms in if m.mention_id == x then suc rest else rest

pub active_entity-append :
    (x : ℕ) (ms ns : List IdentityMembership)
    → active_entity x (ms ++ ns) ≡ or_else (active_entity x ms) (active_entity x ns)
unfolding active_entity
active_entity-append x [] ns = refl
active_entity-append x (m ∷ ms) ns = ground (arith, active_entity-append x ms ns)

pub active_count-append :
    (x : ℕ) (ms ns : List IdentityMembership)
    → active_count x (ms ++ ns) ≡ active_count x ms + active_count x ns
active_count-append x [] ns = omega arith
active_count-append x (m ∷ ms) ns = ground (arith, active_count-append x ms ns)

pub entity_at-append :
    (r x : ℕ) (ms ns : List IdentityMembership)
    → entity_at r x (ms ++ ns) ≡ or_else (entity_at r x ms) (entity_at r x ns)
entity_at-append r x [] ns = refl
entity_at-append r x (m ∷ ms) ns = ground (arith, entity_at-append r x ms ns)

rows_of-insert_by :
    (x : ℕ) (m : IdentityMembership) (ms : List IdentityMembership)
    → rows_of x (insert_by (λ r. r.mention_id) m ms) ≡ rows_of x (m ∷ ms)
rows_of-insert_by x m [] = refl
rows_of-insert_by x m (n ∷ ms) = ground (arith, rows_of-insert_by x m ms)

pub rows_of-sort_by :
    (x : ℕ) (ms : List IdentityMembership)
    → rows_of x (sort_by (λ r. r.mention_id) ms) ≡ rows_of x ms
rows_of-sort_by x [] = refl
rows_of-sort_by x (m ∷ ms) =
    ground (arith, rows_of-insert_by x m (sort_by (λ r. r.mention_id) ms), rows_of-sort_by x ms)

module _ (ids : ℕ → ℕ) (target revision : ℕ) where
  active_count-reopened :
      (x d : ℕ) (ms : List IdentityMembership)
      → active_count x (reopened ids d target revision ms) ≡ rows_of x ms
  unfolding reopened
  active_count-reopened x d [] = refl
  active_count-reopened x d (m ∷ ms) = ground (arith, active_count-reopened x (suc d) ms)

  active_entity-reopened :
      (x d : ℕ) (ms : List IdentityMembership)
      → active_entity x (reopened ids d target revision ms)
        ≡ (if rows_of x ms == 0 then none else some target)
  unfolding reopened active_entity
  active_entity-reopened x d [] = refl
  active_entity-reopened x d (m ∷ ms) = ground (arith, active_entity-reopened x (suc d) ms)

  entity_at-reopened :
      (r x d : ℕ) (ms : List IdentityMembership)
      → r < revision
      → entity_at r x (reopened ids d target revision ms) ≡ none
  unfolding reopened
  entity_at-reopened r x d [] h = refl
  entity_at-reopened r x d (m ∷ ms) h = ground (arith, entity_at-reopened r x (suc d) ms h)

module _ (mentions : List ℕ) (target revision : ℕ) where
  active_count-close :
      (x : ℕ) (ms : List IdentityMembership)
      → active_count x (map (close_moved mentions target revision) ms)
          + rows_of x (select (moves mentions target) ms)
        ≡ active_count x ms
  active_count-close x [] = omega arith
  active_count-close x (m ∷ ms) = ground (arith, active_count-close x ms)

  active_entity-none :
      (x : ℕ) (ms : List IdentityMembership) → active_count x ms ≡ 0 → active_entity x ms ≡ none
  unfolding active_entity
  active_entity-none x [] h = refl
  active_entity-none x (m ∷ ms) h = ground (arith, active_entity-none x ms)

  -- Under the index a closed row leaves its mention with no active one.
  active_entity-close :
      (x : ℕ) (ms : List IdentityMembership)
      → active_count x ms ≤ 1
      → active_entity x (map (close_moved mentions target revision) ms)
        ≡ (if rows_of x (select (moves mentions target) ms) == 0 then active_entity x ms else none)
  unfolding active_entity
  active_entity-close x [] h = refl
  active_entity-close x (m ∷ ms) h = ground (
    arith,
    active_entity-close x ms,
    active_entity-none x ms,
    active_entity-none x (map (close_moved mentions target revision) ms),
    active_count-close x ms,
  )

  -- The row that moves is the active one, where it is not on the target yet.
  rows_of-moves :
      (x : ℕ) (ms : List IdentityMembership)
      → active_count x ms ≤ 1
      → (if rows_of x (select (moves mentions target) ms) == 0
          then active_entity x ms
          else some target)
        ≡ (if member x mentions then retarget target (active_entity x ms) else active_entity x ms)
  unfolding active_entity
  rows_of-moves x [] h = ground arith
  rows_of-moves x (m ∷ ms) h =
      ground (arith, rows_of-moves x ms, active_entity-none x ms, active_count-close x ms)

  entity_at-close :
      (r x : ℕ) (ms : List IdentityMembership)
      → r < revision
      → entity_at r x (map (close_moved mentions target revision) ms) ≡ entity_at r x ms
  entity_at-close r x [] h = refl
  entity_at-close r x (m ∷ ms) h = ground (arith, entity_at-close r x ms h)

module _ (ids : ℕ → ℕ) (d : ℕ) (mentions : List ℕ) (target revision : ℕ)
    (ms : List IdentityMembership) where
  moving : List IdentityMembership
  moving = sort_by (λ m. m.mention_id) (select (moves mentions target) ms)

  -- Moving opens as many rows as it closes, mention by mention.
  pub active_count-moved_table :
      (x : ℕ) → active_count x (moved_table ids d mentions target revision ms) ≡ active_count x ms
  unfolding moved_table moving
  active_count-moved_table x = rw active_count-append (
      rw active_count-reopened
        (rw rows_of-sort_by (active_count-close mentions target revision x ms)))

  -- After a move the named mentions that belong somewhere belong to the target, and no other moved.
  pub active_entity-moved_table :
      (x : ℕ)
      → active_count x ms ≤ 1
      → active_entity x (moved_table ids d mentions target revision ms)
        ≡ (if member x mentions then retarget target (active_entity x ms) else active_entity x ms)
  unfolding moved_table
  active_entity-moved_table x h = rw active_entity-append (
      rw active_entity-reopened (
        rw rows_of-sort_by (
          rw (active_entity-close mentions target revision x ms h)
            (ground (arith, rows_of-moves mentions target revision x ms h)))))

  -- A move leaves the answer for every earlier revision as it was.
  pub entity_at-moved_table :
      (r x : ℕ)
      → r < revision
      → entity_at r x (moved_table ids d mentions target revision ms) ≡ entity_at r x ms
  unfolding moved_table
  entity_at-moved_table r x h = rw entity_at-append (
      rw
        (entity_at-reopened ids target revision r x d
          (sort_by (λ m. m.mention_id) (select (moves mentions target) ms)) h)
        (ground (arith, entity_at-close mentions target revision r x ms h)))

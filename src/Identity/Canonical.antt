-- ===== src/Identity/Canonical.antt =====
-- aegis/er/canonical.py: the canonical map, rebuilt from the ledger.
use mathlib.Core.List.{foldl}
use criminal_networks_analys.Common.{
  ℕ, zero, suc, ◌+◌, Bool, true, false, none, some, List, [], ◌∷◌, ◌++◌, map, ◌&&◌, not, ltb, ◌==◌,
  if◌then◌else◌, is_none, select, length, member, dedup, difference, sort_by, identity,
}
use criminal_networks_analys.Common.Dict.{Dict, lookup, insert, erase}
use criminal_networks_analys.Identity.Store.{
  Session, IdentityMembership, IdentityDecision, Entity, EntityCanonicalMap, Kind, confirm, merge,
  split, reject, unresolved,
}
use criminal_networks_analys.Identity.Monad.{
  Work, Result, ok, err, pure, gets, modify, lineage_cycle, out_of_fuel, ◌>>=◌, ◌>>◌,
}
use criminal_networks_analys.Identity.Ledger.{is_active}

-- The entities of memberships that the revision opened.
unfoldable pub gained : List IdentityMembership → ℕ → List ℕ
gained ms revision =
    dedup (map (λ m. m.entity_id) (select (λ m. m.opened_revision_id == revision) ms))

abbrev pub closed_by : ℕ → IdentityMembership → Bool
closed_by revision m = elim m.closed_revision_id [ none ↦ false | some c ↦ c == revision ]

-- The entities of memberships that the revision closed, less those that it also gave to.
unfoldable pub lost : List IdentityMembership → ℕ → List ℕ
unfolding gained
lost ms revision =
    difference (dedup (map (λ m. m.entity_id) (select (closed_by revision) ms)))
      (gained ms revision)

-- `for loser in lost: parent[loser] = winner`, if there is exactly one winner.
unfoldable pub absorb : List ℕ → List ℕ → Dict ℕ → Dict ℕ
absorb (winner ∷ []) losers parent = foldl (λ p loser. insert loser winner p) parent losers
absorb _ losers parent = parent

-- `for gainer in gained: parent.pop(gainer, None)`
unfoldable pub restore : List ℕ → Dict ℕ → Dict ℕ
restore gainers parent = foldl (λ p gainer. erase gainer p) parent gainers

unfoldable pub by_kind : Kind → List ℕ → List ℕ → Dict ℕ → Dict ℕ
unfolding absorb restore
by_kind confirm gainers losers parent = absorb gainers losers parent
by_kind merge gainers losers parent = absorb gainers losers parent
by_kind split gainers losers parent = restore gainers parent
by_kind reject gainers losers parent = parent
by_kind unresolved gainers losers parent = parent

unfoldable pub lineage_step : List IdentityMembership → Dict ℕ → IdentityDecision → Dict ℕ
lineage_step ms parent d =
    by_kind d.kind (gained ms d.result_revision_id) (lost ms d.result_revision_id) parent

-- `_lineage_from_ledger`
unfoldable pub lineage : List IdentityMembership → List IdentityDecision → Dict ℕ
unfolding lineage_step
lineage ms ds = foldl (lineage_step ms) [] (sort_by (λ d. d.result_revision_id) ds)

-- The `while` loop of `_resolve`, on fuel.
unfoldable pub follow : ℕ → Dict ℕ → ℕ → List ℕ → Result ℕ
follow zero parent current seen = err out_of_fuel
follow (suc fuel) parent current seen = elim (lookup current parent) [
  | none ↦ ok current
  | some next ↦ elim (member next seen) [
    | true ↦ err (lineage_cycle (seen ++ next ∷ []))
    | false ↦ follow fuel parent next (seen ++ next ∷ [])
  ]
]

unfoldable pub resolve : ℕ → Dict ℕ → Result ℕ
unfolding follow
resolve entity parent = follow (length parent + 2) parent entity (entity ∷ [])

-- `SELECT DISTINCT entity_id ... WHERE closed_revision_id IS NULL`
abbrev pub active_entities : List IdentityMembership → List ℕ
active_entities ms = dedup (map (λ m. m.entity_id) (select is_active ms))

-- The highest `opened_revision_id`, 0 in an empty table.
unfoldable pub head_revision : List IdentityMembership → ℕ
head_revision [] = 0
head_revision (m ∷ ms) =
    let rest = head_revision ms in
    if ltb rest m.opened_revision_id then m.opened_revision_id else rest

abbrev pub map_row : ℕ → ℕ → ℕ → EntityCanonicalMap
map_row entity canonical revision = record {
  entity_id = entity;
  canonical_entity_id = canonical;
  at_revision_id = revision;
}

abbrev pub cons_row :
    EntityCanonicalMap → Result (List EntityCanonicalMap) → Result (List EntityCanonicalMap)
cons_row row (ok rows) = ok (row ∷ rows)
cons_row row (err e) = err e

abbrev pub row_or_error :
    ℕ → ℕ → Result ℕ → Result (List EntityCanonicalMap) → Result (List EntityCanonicalMap)
row_or_error head entity (ok canonical) rest = cons_row (map_row entity canonical head) rest
row_or_error head entity (err e) rest = err e

-- The rows of the new map, one for each entity in order; the first that does not resolve raises.
unfoldable pub map_rows : ℕ → Dict ℕ → List ℕ → Result (List EntityCanonicalMap)
map_rows head parent [] = ok []
map_rows head parent (e ∷ es) = row_or_error head e (resolve e parent) (map_rows head parent es)

-- `canonical_entity`: a missing row resolves to itself.
unfoldable pub canonical_in : List EntityCanonicalMap → ℕ → ℕ
canonical_in [] entity = entity
canonical_in (r ∷ rows) entity =
    if r.entity_id == entity then r.canonical_entity_id else canonical_in rows entity

unfoldable pub canonical_entity : Session → ℕ → ℕ
unfolding canonical_in
canonical_entity s entity = canonical_in s.canonical_map entity

-- No active membership and no lineage target.
unfoldable pub orphaned : List ℕ → List EntityCanonicalMap → ℕ → Bool
unfolding canonical_in
orphaned active rows entity = not (member entity active) && canonical_in rows entity == entity

-- An orphan is stamped once; an entity that is in use again loses its stamp.
unfoldable pub settle_tombstone : ℕ → List ℕ → List EntityCanonicalMap → Entity → Entity
unfolding orphaned
settle_tombstone now active rows e =
    if orphaned active rows e.entity_id
    then (if is_none e.tombstoned_at then record e { tombstoned_at = some now } else e)
    else record e { tombstoned_at = none }

pub record CanonicalMapReport : Type 0 where
  pub entities : ℕ
  pub merged : ℕ
  pub tombstoned : ℕ
  pub lineage : Dict ℕ

abbrev pub lift_rows : {A : Type 0} → Result A → Work A
lift_rows (ok a) s = ok (a, s)
lift_rows (err e) s = err e

unfoldable pub write_map : List EntityCanonicalMap → Session → Session
write_map rows s = record s {
  entities = map (settle_tombstone s.now (active_entities s.memberships) rows) s.entities;
  canonical_map = rows;
}

unfoldable pub map_report : Dict ℕ → List EntityCanonicalMap → List ℕ → CanonicalMapReport
map_report parent rows active = record {
  entities = length rows;
  merged =
      length
        (select {A = EntityCanonicalMap} (λ r. not (r.canonical_entity_id == r.entity_id)) rows);
  tombstoned =
      length (select {A = EntityCanonicalMap} (λ r. orphaned active rows r.entity_id) rows);
  lineage = parent;
}

unfoldable pub rebuild_canonical_map : Work CanonicalMapReport
unfolding write_map
rebuild_canonical_map = do
  ms ← gets (λ s. s.memberships)
  ds ← gets (λ s. s.decisions)
  es ← gets (λ s. s.entities)
  let parent = lineage ms ds
  rows ←
      lift_rows (map_rows (head_revision ms) parent (sort_by identity (map (λ e. e.entity_id) es)))
  modify (write_map rows)
  pure (map_report parent rows (active_entities ms))

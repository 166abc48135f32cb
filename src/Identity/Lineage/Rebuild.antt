-- ===== src/Identity/Lineage/Rebuild.antt =====
-- `rebuild_canonical_map`: the table that it writes, and a second rebuild.
use criminal_networks_analys.Common.{
  ℕ, ◌≡◌, refl, sym, ◌∙◌, ap, subst, true, none, List, [], ◌∷◌, map, arith, inl, inr, member,
  sort_by, identity, member-sort_by, if◌then◌else◌,
}
use criminal_networks_analys.Common.Dict.{Dict, lookup}
use criminal_networks_analys.Identity.Store.{Session, Entity, EntityCanonicalMap}
use criminal_networks_analys.Identity.Monad.{Result-cases, Result, ok}
use criminal_networks_analys.Identity.Canonical.{
  resolve, lineage, map_rows, canonical_in, canonical_entity, settle_tombstone, active_entities,
  head_revision, write_map, map_report, lift_rows, rebuild_canonical_map, CanonicalMapReport,
}
use criminal_networks_analys.Identity.Lineage.Resolve.{LeadsTo, resolve-root}

abbrev pub entity_ids : List Entity → List ℕ
entity_ids es = map (λ e. e.entity_id) es

-- The canonical map is the one that the ledger determines.
pub record IsRebuilt (t : Session) : Type 0 where
  pub rows :
      map_rows
        (head_revision t.memberships)
        (lineage t.memberships t.decisions)
        (sort_by identity (entity_ids t.entities))
      ≡ ok t.canonical_map

settled_ids :
    (now : ℕ) (active : List ℕ) (rows : List EntityCanonicalMap) (es : List Entity)
    → entity_ids (map (settle_tombstone now active rows) es) ≡ entity_ids es
unfolding settle_tombstone
settled_ids now active rows [] = refl
settled_ids now active rows (e ∷ es) = ground (arith, settled_ids now active rows es)

-- The rows of the new map, by the ledger of the session that is rebuilt.
abbrev rows_of_ledger : Session → Result (List EntityCanonicalMap)
rows_of_ledger s =
    map_rows (head_revision s.memberships) (lineage s.memberships s.decisions)
      (sort_by identity (entity_ids s.entities))

rebuild-rows :
    (s : Session) {t : Session} {report : CanonicalMapReport}
    → rebuild_canonical_map s ≡ ok (report, t)
    → (rows : List EntityCanonicalMap) × (rows_of_ledger s ≡ ok rows) × (t ≡ write_map rows s)
unfolding rebuild_canonical_map
rebuild-rows s h = elim (Result-cases (rows_of_ledger s)) [
  | inl (rows, e) ↦ (rows, e, ground arith)
  | inr (error, e) ↦ absurd (ground arith)
]

write_map-IsRebuilt :
    (rows : List EntityCanonicalMap) (s : Session)
    → rows_of_ledger s ≡ ok rows
    → IsRebuilt (write_map rows s)
unfolding write_map
write_map-IsRebuilt rows s h = record {
  rows = rw (settled_ids s.now (active_entities s.memberships) rows s.entities) h;
}

pub rebuild-IsRebuilt :
    (s : Session) {t : Session} {report : CanonicalMapReport}
    → rebuild_canonical_map s ≡ ok (report, t)
    → IsRebuilt t
rebuild-IsRebuilt s h =
    let (rows, e, same) = rebuild-rows s h in
    subst IsRebuilt (sym same) (write_map-IsRebuilt rows s e)

-- The table answers for every entity that it has a row of, and any other is its own.
pub canonical_in-resolve :
    (head : ℕ) (parent : Dict ℕ) (es : List ℕ) (rows : List EntityCanonicalMap) (x : ℕ)
    → map_rows head parent es ≡ ok rows
    → (if member x es then resolve x parent else ok x) ≡ ok (canonical_in rows x)
unfolding map_rows canonical_in
canonical_in-resolve head parent [] rows x h = ground arith
canonical_in-resolve head parent (e ∷ es) rows x h = elim (Result-cases (resolve e parent)) [
  | inl (c, to) ↦ elim (Result-cases (map_rows head parent es)) [
    | inl (rest, more) ↦ ground (arith, canonical_in-resolve head parent es rest x more)
    | inr (error, no_more) ↦ absurd (ground arith)
  ]
  | inr (error, no_root) ↦ absurd (ground arith)
]

-- In a rebuilt map every entity of the table stands for the root that the lineage leads it to.
pub IsRebuilt-root :
    (t : Session) (x : ℕ)
    → IsRebuilt t
    → member x (entity_ids t.entities) ≡ true
    → LeadsTo (lineage t.memberships t.decisions) x (canonical_entity t x)
      × (lookup (canonical_entity t x) (lineage t.memberships t.decisions) ≡ none)
unfolding canonical_entity
IsRebuilt-root t x h known =
    resolve-root x (lineage t.memberships t.decisions) (canonical_in t.canonical_map x) (
      ground (
        arith,
        canonical_in-resolve (head_revision t.memberships) (lineage t.memberships t.decisions)
            (sort_by identity (entity_ids t.entities)) t.canonical_map x h.rows,
        member-sort_by x (entity_ids t.entities),
      ))

settle-settle :
    (now later : ℕ) (active : List ℕ) (rows : List EntityCanonicalMap) (es : List Entity)
    → map (settle_tombstone later active rows) (map (settle_tombstone now active rows) es)
      ≡ map (settle_tombstone now active rows) es
unfolding settle_tombstone
settle-settle now later active rows [] = refl
settle-settle now later active rows (e ∷ es) =
    ground (arith, settle-settle now later active rows es)

rebuild-succeeds :
    (s : Session) (rows : List EntityCanonicalMap)
    → rows_of_ledger s ≡ ok rows
    → (report : CanonicalMapReport) × (rebuild_canonical_map s ≡ ok (report, write_map rows s))
unfolding rebuild_canonical_map
rebuild-succeeds s rows e = (
  map_report (lineage s.memberships s.decisions) rows (active_entities s.memberships),
  rw (e, lift_rows),
)

abbrev at_time : ℕ → Session → Session
at_time later s = record s { now = later }

write_map_again :
    (rows : List EntityCanonicalMap) (s : Session) (later : ℕ)
    → write_map rows (at_time later (write_map rows s)) ≡ at_time later (write_map rows s)
unfolding write_map
write_map_again rows s later = λ i. record (at_time later (write_map rows s)) {
  entities = settle-settle s.now later (active_entities s.memberships) rows s.entities i;
  canonical_map = rows;
}

again :
    (rows : List EntityCanonicalMap) (s : Session) (later : ℕ)
    → rows_of_ledger s ≡ ok rows
    → (report : CanonicalMapReport) × (rebuild_canonical_map (at_time later (write_map rows s))
        ≡ ok (report, at_time later (write_map rows s)))
unfolding write_map
again rows s later e =
    let (report, done) =
      rebuild-succeeds (at_time later (write_map rows s)) rows
        ((write_map-IsRebuilt rows s e).rows) in
    (report, done ∙ ap (λ u. ok (report, u)) (write_map_again rows s later))

-- A rebuild is idempotent: run again at any later time on the session that it left, it succeeds and
-- changes no table, not even a tombstone's date.
pub rebuild_canonical_map_idem :
    (s : Session) (later : ℕ) {t : Session} {report : CanonicalMapReport}
    → rebuild_canonical_map s ≡ ok (report, t)
    → (report' : CanonicalMapReport) × (rebuild_canonical_map (record t { now = later })
        ≡ ok (report', record t { now = later }))
rebuild_canonical_map_idem s later h =
    let (rows, e, same) = rebuild-rows s h in
    subst
      (λ u.
        (report : CanonicalMapReport) × (rebuild_canonical_map (at_time later u)
          ≡ ok (report, at_time later u)))
      (sym same) (again rows s later e)

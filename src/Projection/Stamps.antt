-- ===== src/Projection/Stamps.antt =====
-- aegis/projections/edges.py: `is_stale`. An exception is `none`.
use criminal_networks_analys.Common.{
  ℕ, Bool, false, Option, none, some, List, [], ◌∷◌, ltb, if◌then◌else◌,
}
use criminal_networks_analys.Identity.Ledger.{max_revision}
use criminal_networks_analys.Projection.Store.{EdgeProjection, Database}

-- `min(built_at_revision_id)`
unfoldable pub oldest_build : List EdgeProjection → Option ℕ
oldest_build [] = none
oldest_build (e ∷ es) = elim (oldest_build es) [
  | none ↦ some e.built_at_revision_id
  | some o ↦ some (if ltb e.built_at_revision_id o then e.built_at_revision_id else o)
]

abbrev pub older_than : ℕ → Option ℕ → Option Bool
older_than oldest none = none
older_than oldest (some head) = some (ltb oldest head)

abbrev pub stale_since : Option ℕ → Option ℕ → Option Bool
stale_since none head = some false
stale_since (some oldest) head = older_than oldest head

unfoldable pub is_stale : Database → Option Bool
unfolding oldest_build max_revision
is_stale db = stale_since (oldest_build db.edges) (max_revision db.revisions)

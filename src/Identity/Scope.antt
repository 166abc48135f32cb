-- ===== src/Identity/Scope.antt =====
-- aegis/er/adjudication.py: `_entities_of` and `check_scope_is_current`.
use criminal_networks_analys.Common.{
  ℕ, Bool, false, none, some, List, [], ◌∷◌, ◌++◌, map, ◌&&◌, ltb, select, member, dedup, sort_by,
}
use criminal_networks_analys.Identity.Store.{IdentityMembership, IdentityDecision}
use criminal_networks_analys.Identity.Monad.{Work, pure, gets, raise, stale, ◌>>=◌}
use criminal_networks_analys.Identity.Ledger.{is_active}

-- `_entities_of`: the entities that the mentions actively belong to.
unfoldable pub entities_of : List ℕ → List IdentityMembership → List ℕ
entities_of mentions ms =
    dedup (map (λ m. m.entity_id) (select (λ m. member m.mention_id mentions && is_active m) ms))

abbrev pub opened_after : ℕ → List ℕ → IdentityMembership → Bool
opened_after parent scope m = member m.entity_id scope && ltb parent m.opened_revision_id

abbrev pub closed_after : ℕ → List ℕ → IdentityMembership → Bool
closed_after parent scope m = elim m.closed_revision_id [
  | none ↦ false
  | some c ↦ member m.entity_id scope && ltb parent c
]

-- The decisions that landed after the parent revision, oldest first.
unfoldable pub intervening : ℕ → List IdentityDecision → List IdentityDecision
intervening parent ds =
    sort_by (λ d. d.result_revision_id) (select (λ d. ltb parent d.result_revision_id) ds)

-- The rows that make a decision stale: opened, then closed, after its parent revision.
unfoldable pub later_changes : ℕ → List ℕ → List IdentityMembership → List IdentityMembership
later_changes parent scope ms =
    select (opened_after parent scope) ms ++ select (closed_after parent scope) ms

raise_stale : ℕ → List IdentityMembership → Work (Unit {0})
unfolding intervening
raise_stale parent [] = pure tt
raise_stale parent (_ ∷ _) = do
  ds ← gets (λ s. s.decisions)
  raise (stale parent (intervening parent ds))

unfoldable pub check_scope_is_current : ℕ → List ℕ → Work (Unit {0})
unfolding raise_stale later_changes
check_scope_is_current parent [] = pure tt
check_scope_is_current parent (e ∷ scope) = do
  ms ← gets (λ s. s.memberships)
  raise_stale parent (later_changes parent (e ∷ scope) ms)

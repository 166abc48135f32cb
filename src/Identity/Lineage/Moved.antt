-- ===== src/Identity/Lineage/Moved.antt =====
-- What a move gives and takes at its revision, and at an earlier one.
use mathlib.Core.List.{map-append, append-nil}
use criminal_networks_analys.Common.{
  ℕ, suc, ◌<◌, ◌≡◌, ◌≢◌, refl, Bool, true, List, [], ◌∷◌, map, arith, select, select-append, member,
  dedup, difference, sort_by, insert_by, All, ◌==◌,
}
use criminal_networks_analys.Identity.Store.{IdentityMembership}
use criminal_networks_analys.Identity.Ledger.{active_entity}
use criminal_networks_analys.Identity.Canonical.{gained, lost, closed_by}
use criminal_networks_analys.Identity.Moves.{moved_table, moves, close_moved, reopened}
use criminal_networks_analys.Identity.Membership.Spec.{IsOneActive, AreWithin}
use criminal_networks_analys.Identity.Membership.Holders.{Is, fits, dedup-All, active_entity-none}
use criminal_networks_analys.Identity.Lineage.Replay.{SameBefore}

abbrev pub entities : List IdentityMembership → List ℕ
entities ms = map (λ m. m.entity_id) ms

abbrev pub opened_at : ℕ → IdentityMembership → Bool
opened_at r m = m.opened_revision_id == r

module _ (mentions : List ℕ) (target n : ℕ) where
  opened-close :
      (r : ℕ) (ms : List IdentityMembership)
      → entities (select (opened_at r) (map (close_moved mentions target n) ms))
        ≡ entities (select (opened_at r) ms)
  opened-close r [] = refl
  opened-close r (m ∷ ms) = ground (arith, opened-close r ms)

  closed-close :
      (r : ℕ) (ms : List IdentityMembership)
      → r < n
      → entities (select (closed_by r) (map (close_moved mentions target n) ms))
        ≡ entities (select (closed_by r) ms)
  closed-close r [] h = refl
  closed-close r (m ∷ ms) h = ground (arith, closed-close r ms h)

  closed-now :
      (ms : List IdentityMembership)
      → AreWithin n ms
      → entities (select (closed_by n) (map (close_moved mentions target n) ms))
        ≡ entities (select (moves mentions target) ms)
  closed-now [] h = refl
  closed-now (m ∷ ms) h = ground (arith, closed-now ms h.1)

module _ (ids : ℕ → ℕ) (target n : ℕ) where
  opened-reopened :
      (r d : ℕ) (ms : List IdentityMembership)
      → r < n
      → select (opened_at r) (reopened ids d target n ms) ≡ []
  unfolding reopened
  opened-reopened r d [] h = refl
  opened-reopened r d (m ∷ ms) h = ground (arith, opened-reopened r (suc d) ms h)

  closed-reopened :
      (r d : ℕ) (ms : List IdentityMembership)
      → select (closed_by r) (reopened ids d target n ms) ≡ []
  unfolding reopened
  closed-reopened r d [] = refl
  closed-reopened r d (m ∷ ms) = closed-reopened r (suc d) ms

  All-reopened :
      (d : ℕ) (ms : List IdentityMembership)
      → All (Is target) (entities (select (opened_at n) (reopened ids d target n ms)))
  unfolding reopened
  All-reopened d [] = tt
  All-reopened d (m ∷ ms) = ground (arith, All-reopened (suc d) ms)

  some-reopened :
      (d : ℕ) (ms : List IdentityMembership)
      → ms ≢ []
      → entities (select (opened_at n) (reopened ids d target n ms)) ≢ []
  unfolding reopened
  some-reopened d [] h e = h refl
  some-reopened d (m ∷ ms) h e = ground arith

opened-within :
    (n : ℕ) (ms : List IdentityMembership) → AreWithin n ms → select (opened_at n) ms ≡ []
opened-within n [] h = refl
opened-within n (m ∷ ms) h = ground (arith, opened-within n ms h.1)

sort-nil : (ms : List IdentityMembership) → ms ≢ [] → sort_by (λ m. m.mention_id) ms ≢ []
sort-nil [] h e = h refl
sort-nil (m ∷ ms) h e = nonempty (sort_by (λ k. k.mention_id) ms) e
  where
    nonempty : (ns : List IdentityMembership) → insert_by (λ k. k.mention_id) m ns ≢ []
    nonempty [] q = cc
    nonempty (x ∷ ns) q = ground arith

module _ (ids : ℕ → ℕ) (d : ℕ) (mentions : List ℕ) (target n : ℕ) (ms : List IdentityMembership)
    (h : AreWithin n ms) where
  gained-before : (r : ℕ) → r < n → gained (moved_table ids d mentions target n ms) r ≡ gained ms r
  unfolding moved_table gained
  gained-before r k = rw select-append (
      rw map-append (
        rw (opened-close mentions target n r ms, opened-reopened ids target n r d _ k, append-nil)))

  closed-before :
      (r : ℕ)
      → r < n
      → entities (select (closed_by r) (moved_table ids d mentions target n ms))
        ≡ entities (select (closed_by r) ms)
  unfolding moved_table
  closed-before r k = rw select-append (
      rw map-append (
        rw (closed-close mentions target n r ms k, closed-reopened ids target n r d _, append-nil)))

  pub moved_table-SameBefore : SameBefore n ms (moved_table ids d mentions target n ms)
  unfolding lost
  moved_table-SameBefore = record {
    gains = gained-before;
    losses = λ r k i. difference (dedup (closed-before r k i)) (gained-before r k i);
  }

  opened-now :
      entities (select (opened_at n) (moved_table ids d mentions target n ms))
      ≡ entities (
          select (opened_at n) (
            reopened ids d target n
              (sort_by (λ m. m.mention_id) (select (moves mentions target) ms))))
  unfolding moved_table
  opened-now =
      rw select-append
        (rw map-append (rw (opened-close mentions target n n ms, opened-within n ms h)))

  -- What a move opens at its revision is the target's, and is something if anything moved.
  pub gained-All :
      All (Is target) (entities (select (opened_at n) (moved_table ids d mentions target n ms)))
  gained-All = rw opened-now (All-reopened ids target n d _)

  pub gained-some :
      select (moves mentions target) ms ≢ []
      → entities (select (opened_at n) (moved_table ids d mentions target n ms)) ≢ []
  gained-some some_move = rw opened-now (some-reopened ids target n d _ (sort-nil _ some_move))

  -- At its own revision a move gives to the target alone.
  pub gained-moved_table :
      select (moves mentions target) ms ≢ []
      → gained (moved_table ids d mentions target n ms) n ≡ target ∷ []
  unfolding gained
  gained-moved_table some_move = dedup-All target _ gained-All (gained-some some_move)

  -- And it takes from the entities of the rows that moved, less the target.
  pub lost-moved_table :
      select (moves mentions target) ms ≢ []
      → lost (moved_table ids d mentions target n ms) n
        ≡ difference (dedup (entities (select (moves mentions target) ms))) (target ∷ [])
  unfolding lost
  lost-moved_table some_move = rw (gained-moved_table some_move) (
      unfold moved_table in
      rw select-append (
        rw map-append
          (rw (closed-now mentions target n ms h, closed-reopened ids target n n d _, append-nil))))

module _ (mentions : List ℕ) (target e : ℕ) where
  -- The rows that move are all of the one entity that the named mentions belong to.
  pub All-moves :
      (ms : List IdentityMembership)
      → IsOneActive ms
      → ((x : ℕ) → member x mentions ≡ true → fits e (active_entity x ms) ≡ true)
      → All (Is e) (entities (select (moves mentions target) ms))
  unfolding active_entity
  All-moves [] one h = tt
  All-moves (m ∷ ms) one h = ground (
    arith,
    All-moves ms (λ x. ground (arith, one x))
        (λ x k. ground (arith, h x k, one x, active_entity-none x ms)),
    h m.mention_id,
  )

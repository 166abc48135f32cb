-- ===== src/Authz/Drained.antt =====
-- The loop of `sync`: the order in which it applies the pending rows, and where it stops.
use criminal_networks_analys.Common.{
  ℕ, suc, ◌+◌, ◌≡◌, refl, ap, subst, String, Option, none, some, List, [], ◌∷◌, ◌++◌, map, arith,
  Sum-cases, inl, inr, length, any, select, sym, Bool, ◌&&◌,
}
use criminal_networks_analys.Authz.Outbox.{
  Server, mutate, staleness, finish, AuthzOutbox, SyncReport, Drain, drain, processed, failed,
  pending_rows, no_progress, sync, is_pending,
}
use criminal_networks_analys.Authz.Batch.{
  IsOrdered, IsOrdered-sort_by, beyond, FitsLimit, limited-beyond, limited-FitsLimit, get_row,
  row_after, get_row-after, any-pending,
}

module _ {F : Type 0} (server : Server F) where
  -- Each row in turn was applied, and led from the one state of the store to the other.
  abbrev pub Applies : List AuthzOutbox → F → F → Type 0
  Applies [] f g = f ≡ g
  Applies (r ∷ rs) f g = (h : F) × (mutate server r.op r.fga_tuple f ≡ inr h) × Applies rs h g

  -- Where a drain stopped: nothing was left, or the next row failed.
  abbrev pub Stopped : List AuthzOutbox → List AuthzOutbox → F → SyncReport → Type 0
  Stopped [] left g report = (left ≡ []) × (report.error ≡ none)
  Stopped (r ∷ rs) left g report =
      (error : String) × (mutate server r.op r.fga_tuple g ≡ inl error)
      × (left ≡ failed error r ∷ rs)
      × (report.error ≡ some error)
      × (report.failed_id ≡ some r.outbox_id)

  -- The rows divide into those that were applied, which are marked as processed, and the rest, which
  -- are as they were but for the one that failed.
  abbrev pub InOrder : ℕ → List AuthzOutbox → F → ℕ → Drain F → Type 0
  InOrder now rows f before d =
      (applied : List AuthzOutbox) × (rest : List AuthzOutbox) × (left : List AuthzOutbox) × (rows
        ≡ applied ++ rest)
      × Applies applied f d.store
      × (d.rows ≡ map (processed now) applied ++ left)
      × Stopped rest left d.store d.report
      × (d.report.processed ≡ length applied + before)

  abbrev counted : ℕ → AuthzOutbox → SyncReport → SyncReport
  counted now r report = record report {
    processed = suc report.processed;
    max_delete_staleness_seconds = staleness now r r.op report.max_delete_staleness_seconds;
  }

  failing :
      (now : ℕ) (r : AuthzOutbox) (rs : List AuthzOutbox) (f : F) (report : SyncReport)
      (error : String)
      → mutate server r.op r.fga_tuple f ≡ inl error
      → record {
        rows = failed error r ∷ rs;
        store = f;
        report = record report { failed_id = some r.outbox_id; error = some error };
      }
        ≡ drain server now (r ∷ rs) f report
  unfolding drain
  failing now r rs f report error bad = ground (arith, bad)

  succeeding :
      (now : ℕ) (r : AuthzOutbox) (rs : List AuthzOutbox) (f : F) (report : SyncReport) (h : F)
      → mutate server r.op r.fga_tuple f ≡ inr h
      → record (drain server now rs h (counted now r report)) {
        rows = processed now r ∷ (drain server now rs h (counted now r report)).rows;
      }
        ≡ drain server now (r ∷ rs) f report
  unfolding drain
  succeeding now r rs f report h good = ground (arith, good)

  drain-InOrder :
      (now : ℕ) (rows : List AuthzOutbox) (f : F) (report : SyncReport)
      → report.error ≡ none
      → InOrder now rows f report.processed (drain server now rows f report)
  unfolding drain
  drain-InOrder now [] f report e = ([], [], [], refl, refl, refl, (refl, e), omega arith)
  drain-InOrder now (r ∷ rs) f report e = elim (Sum-cases (mutate server r.op r.fga_tuple f)) [
    | inl (error, bad) ↦
        subst (InOrder now (r ∷ rs) f report.processed) (failing now r rs f report error bad) (
          [],
          r ∷ rs,
          failed error r ∷ rs,
          refl,
          refl,
          refl,
          (error, bad, refl, refl, refl),
          omega arith,
        )
    | inr (h, good) ↦
        let (applied, rest, left, parts, through, rows, stop, count) =
          drain-InOrder now rs h (counted now r report) e in
        subst (InOrder now (r ∷ rs) f report.processed) (succeeding now r rs f report h good) (
          r ∷ applied,
          rest,
          left,
          ap (λ l. r ∷ l) parts,
          (h, good, through),
          ap (λ l. processed now r ∷ l) rows,
          stop,
          omega (arith, count),
        )
  ]

  reported :
      (rest left : List AuthzOutbox) (d : Drain F) (n : ℕ)
      → Stopped rest left d.store d.report
      → Stopped rest left d.store (record d.report { pending = n })
  reported [] left d n stop = stop
  reported (r ∷ rs) left d n stop = stop

  pub sync-drains :
      (limit : Option ℕ) (now : ℕ) (table : List AuthzOutbox) (f : F)
      → (d : Drain F) × (sync server limit now table f ≡ finish server table d)
        × InOrder now (pending_rows limit table) f 0 d
  unfolding sync
  sync-drains limit now table f = (
    drain server now (pending_rows limit table) f no_progress,
    refl,
    drain-InOrder now (pending_rows limit table) f no_progress refl,
  )

  -- The rows of the table that are pending are those that a run of `sync` takes and those that it leaves
  -- for later, oldest first; it takes all of them, or as many as the limit allows. It applies a first part
  -- of the rows that it takes to the store, each once and one after the other, and stops at the end or at
  -- the first row that fails, which it reports. In the table it leaves, exactly the rows that were applied
  -- are marked as processed, the row that failed has its error, and every other row is as it was.
  pub sync-InOrder :
      (limit : Option ℕ) (now : ℕ) (table : List AuthzOutbox) (f : F)
      → (report : SyncReport) × (table' : List AuthzOutbox) × (g : F) × (applied : List AuthzOutbox)
        × (rest : List AuthzOutbox) × (left : List AuthzOutbox) × (later : List AuthzOutbox) × (sync
              server limit now table f
            ≡ (report, (table', g)))
        × IsOrdered ((applied ++ rest) ++ later)
        × ((p : AuthzOutbox → Bool)
            → any p ((applied ++ rest) ++ later) ≡ any (λ r. is_pending r && p r) table)
        × FitsLimit limit (applied ++ rest) later
        × Applies applied f g
        × Stopped rest left g report
        × (report.processed ≡ length applied)
        × ((i : ℕ) → get_row i table' ≡ row_after now applied left i (get_row i table))
  sync-InOrder limit now table f =
      let (d, run, (applied, rest, left, parts, through, rows, stop, count)) =
        sync-drains limit now table f in
      let pending = pending_rows none table in
      let later = beyond limit pending in
      (
        (finish server table d).0,
        (finish server table d).1.0,
        d.store,
        applied,
        rest,
        left,
        later,
        run,
        subst (λ b. IsOrdered (b ++ later)) parts
            (subst IsOrdered (sym (limited-beyond limit pending))
              (IsOrdered-sort_by (select is_pending table))),
        (λ p.
            subst (λ b. any p (b ++ later) ≡ any (λ r. is_pending r && p r) table) parts
              (any-pending limit p table)),
        subst (λ b. FitsLimit limit b later) parts (limited-FitsLimit limit pending),
        through,
        reported rest left d (finish server table d).0.pending stop,
        omega (arith, count),
        (λ i. rw rows (get_row-after server now i applied left table)),
      )

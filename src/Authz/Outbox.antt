-- ===== src/Authz/Outbox.antt =====
-- aegis/authz/outbox.py: `sync` and `rebuild`. aegis/authz/fga.py: `_mutate`. The OpenFGA server is a
-- parameter: the state of its store, and what its endpoints answer.
use criminal_networks_analys.Common.{
  not, ℕ, zero, suc, ◌-◌, String, Bool, Option, none, some, List, [], ◌∷◌, map, ltb, ◌==◌,
  if◌then◌else◌, select, sort_by, is_none, length, ◌⊎◌, inl, inr,
}
use criminal_networks_analys.Authz.Tuples.{Tuple3, Tables, desired_tuples, distinct, minus, sorted}

pub data Op : Type 0 where
  write delete : Op

-- What the server answers to a change: it did it, refused it as a bad request, or failed.
pub data Answer (F : Type 0) : Type 0 where
  done : F → Answer F
  bad_request : String → Answer F
  unavailable : String → Answer F

-- The endpoints that `FGAClient` calls; the text is that of an `FGAError`.
pub record Server (F : Type 0) : Type 0 where
  pub post : Op → Tuple3 → F → Answer F
  pub exists : Tuple3 → F → String ⊎ Bool
  pub read_all : F → String ⊎ List Tuple3

pub record AuthzOutbox : Type 0 where
  pub outbox_id : ℕ
  pub op : Op
  pub fga_tuple : Tuple3
  pub created_at : ℕ
  pub processed_at : Option ℕ
  pub attempts : ℕ
  pub last_error : Option String

pub record SyncReport : Type 0 where
  pub processed : ℕ
  pub pending : ℕ
  pub failed_id : Option ℕ
  pub error : Option String
  pub max_delete_staleness_seconds : ℕ

pub record RebuildReport : Type 0 where
  pub desired : ℕ
  pub written : ℕ
  pub deleted : ℕ
  pub superseded_outbox_rows : ℕ
  pub tuples : List Tuple3

abbrev pub is_pending : AuthzOutbox → Bool
is_pending r = is_none r.processed_at

abbrev pub take {ℓ} : {A : Type ℓ} → ℕ → List A → List A
take n [] = []
take zero (x ∷ xs) = []
take (suc n) (x ∷ xs) = x ∷ take n xs

abbrev pub limited {ℓ} : {A : Type ℓ} → Option ℕ → List A → List A
limited none xs = xs
limited (some n) xs = take n xs

-- The rows that the query returns.
abbrev pub pending_rows : Option ℕ → List AuthzOutbox → List AuthzOutbox
pending_rows limit table = limited limit (sort_by (λ r. r.outbox_id) (select is_pending table))

abbrev pub larger : ℕ → ℕ → ℕ
larger a b = if ltb a b then b else a

abbrev pub attempted : AuthzOutbox → AuthzOutbox
attempted r = record r { attempts = suc r.attempts }

abbrev pub failed : String → AuthzOutbox → AuthzOutbox
failed error r = record (attempted r) { last_error = some error }

abbrev pub processed : ℕ → AuthzOutbox → AuthzOutbox
processed now r = record (attempted r) { processed_at = some now; last_error = none }

abbrev pub staleness : ℕ → AuthzOutbox → Op → ℕ → ℕ
staleness now r write worst = worst
staleness now r delete worst = larger worst (now - r.created_at)

abbrev pub no_progress : SyncReport
no_progress = record {
  processed = 0;
  pending = 0;
  failed_id = none;
  error = none;
  max_delete_staleness_seconds = 0;
}

-- The rows after the loop, the store, and the report.
pub record Drain (F : Type 0) : Type 0 where
  pub rows : List AuthzOutbox
  pub store : F
  pub report : SyncReport

abbrev pub reflects : Op → Bool → Bool
reflects write present = present
reflects delete present = not present

module _ {F : Type 0} (server : Server F) where
  -- A bad request is no error if the store already reflects the change.
  abbrev pub converged : Op → String → F → String ⊎ Bool → String ⊎ F
  converged op error f (inl failure) = inl failure
  converged op error f (inr present) = if reflects op present then inr f else inl error

  -- `_mutate`
  unfoldable pub mutate : Op → Tuple3 → F → String ⊎ F
  mutate op t f = elim (server.post op t f) [
    | done f' ↦ inr f'
    | bad_request error ↦ converged op error f (server.exists t f)
    | unavailable error ↦ inl error
  ]

  -- The loop of `sync`; a failure leaves the rest of the rows as they are.
  unfoldable pub drain : ℕ → List AuthzOutbox → F → SyncReport → Drain F
  drain now [] f report = record { rows = []; store = f; report = report }
  drain now (r ∷ rs) f report = elim (mutate r.op r.fga_tuple f) [
    | inl error ↦ record {
      rows = failed error r ∷ rs;
      store = f;
      report = record report { failed_id = some r.outbox_id; error = some error };
    }
    | inr f' ↦
        let rest = drain now rs f' (record report {
          processed = suc report.processed;
          max_delete_staleness_seconds = staleness now r r.op report.max_delete_staleness_seconds;
        }) in
        record rest { rows = processed now r ∷ rest.rows }
  ]

  -- The rows are objects of the session: the table has them as the loop left them.
  abbrev pub updated : List AuthzOutbox → AuthzOutbox → AuthzOutbox
  updated [] r = r
  updated (u ∷ us) r = if u.outbox_id == r.outbox_id then u else updated us r

  abbrev pub finish : List AuthzOutbox → Drain F → SyncReport × (List AuthzOutbox × F)
  finish table d = (
    record d.report { pending = length (select is_pending d.rows) },
    (map (updated d.rows) table, d.store),
  )

  unfoldable pub sync : Option ℕ → ℕ → List AuthzOutbox → F → SyncReport × (List AuthzOutbox × F)
  unfolding mutate drain
  sync limit now table f = finish table (drain now (pending_rows limit table) f no_progress)

  -- The loops of `rebuild`; an error of the client ends the call.
  unfoldable pub write_all : List Tuple3 → F → String ⊎ F
  write_all [] f = inr f
  write_all (t ∷ ts) f = elim (mutate write t f) [
    | inl error ↦ inl error
    | inr f' ↦ write_all ts f'
  ]

  unfoldable pub delete_all : List Tuple3 → F → String ⊎ F
  delete_all [] f = inr f
  delete_all (t ∷ ts) f = elim (mutate delete t f) [
    | inl error ↦ inl error
    | inr f' ↦ delete_all ts f'
  ]

  abbrev pub supersede : ℕ → AuthzOutbox → AuthzOutbox
  supersede now r =
      if is_pending r
      then record r { processed_at = some now; last_error = some "superseded by authz rebuild" }
      else r

  abbrev pub rebuild_report : List Tuple3 → List Tuple3 → List AuthzOutbox → RebuildReport
  rebuild_report desired existing table = record {
    desired = length desired;
    written = length (minus desired existing);
    deleted = length (minus existing desired);
    superseded_outbox_rows = length (select is_pending table);
    tuples = sorted desired;
  }

  abbrev pub reconcile : List Tuple3 → List Tuple3 → F → String ⊎ F
  reconcile desired existing f = elim (write_all (sorted (minus desired existing)) f) [
    | inl error ↦ inl error
    | inr f' ↦ delete_all (sorted (minus existing desired)) f'
  ]

  abbrev pub close :
      ℕ
      → List Tuple3
      → List Tuple3
      → List AuthzOutbox
      → String ⊎ F
      → String ⊎ (RebuildReport × (List AuthzOutbox × F))
  close now desired existing table (inl error) = inl error
  close now desired existing table (inr f) =
      inr (rebuild_report desired existing table, (map (supersede now) table, f))

  abbrev pub rebuild_from :
      ℕ
      → List Tuple3
      → List Tuple3
      → List AuthzOutbox
      → F
      → String ⊎ (RebuildReport × (List AuthzOutbox × F))
  rebuild_from now desired existing table f =
      close now desired existing table (reconcile desired existing f)

  unfoldable pub rebuild :
      ℕ → Tables → List AuthzOutbox → F → String ⊎ (RebuildReport × (List AuthzOutbox × F))
  unfolding mutate write_all delete_all
  rebuild now db table f = elim (server.read_all f) [
    | inl error ↦ inl error
    | inr existing ↦ rebuild_from now (desired_tuples db) (distinct existing) table f
  ]

-- ===== src/Authz/Tests.antt =====
-- Runs of `rebuild` and `sync` against a server that keeps a list of tuples.
use criminal_networks_analys.Common.{
  ℕ, ◌≡◌, Bool, ◌&&◌, none, some, List, [], ◌∷◌, ◌++◌, inr, any, length,
}
use criminal_networks_analys.Authz.Batch.{IsOrdered, FitsLimit, get_row, row_after}
use criminal_networks_analys.Authz.Tuples.{Tuple3, Tables, member, desired_tuples}
use criminal_networks_analys.Authz.Outbox.{
  Op, write, delete, AuthzOutbox, RebuildReport, SyncReport, is_pending, rebuild, sync,
}
use criminal_networks_analys.Authz.Memory.{server, server-IsStore}
use criminal_networks_analys.Authz.Rebuilt.{holds, rebuild-exact}
use criminal_networks_analys.Authz.Drained.{Applies, Stopped, sync-InOrder}

abbrev tables : Tables
tables = record {
  members =
      record { case_id = "c1"; user_id = "u1"; role = "auditor" }
      ∷ record { case_id = "c1"; user_id = "u2"; role = "owner" }
      ∷ [];
  evidence = record { evidence_id = "e1"; case_id = some "c1" } ∷ [];
  custody =
      record { evidence_id = "e1"; seq = 1; to_actor = "u1" }
      ∷ record { evidence_id = "e1"; seq = 2; to_actor = "u2" }
      ∷ [];
}

abbrev stray : Tuple3
stray = record { user = "user:u9"; relation = "analyst"; object = "case:c1" }

rebuild-exact_example :
    (report : RebuildReport) × (table' : List AuthzOutbox) × (f' : List Tuple3) × (rebuild server 9
        tables []
        (stray ∷ [])
      ≡ inr (report, (table', f')))
    × ((t : Tuple3) → holds server t f' ≡ member t (desired_tuples tables))
rebuild-exact_example = rebuild-exact server 9 tables [] (stray ∷ []) server-IsStore

abbrev row : ℕ → Op → AuthzOutbox
row i op = record {
  outbox_id = i;
  op = op;
  fga_tuple = stray;
  created_at = 3;
  processed_at = none;
  attempts = 0;
  last_error = none;
}

abbrev queue : List AuthzOutbox
queue = row 2 delete ∷ row 1 write ∷ []

sync-InOrder_example :
    (report : SyncReport) × (table' : List AuthzOutbox) × (g : List Tuple3) × (applied : List
      AuthzOutbox)
    × (rest : List AuthzOutbox) × (left : List AuthzOutbox) × (later : List AuthzOutbox) × (sync
          server
          (some 1)
          9
          queue
          []
        ≡ (report, (table', g)))
    × IsOrdered ((applied ++ rest) ++ later)
    × ((p : AuthzOutbox → Bool)
        → any p ((applied ++ rest) ++ later) ≡ any (λ r. is_pending r && p r) queue)
    × FitsLimit (some 1) (applied ++ rest) later
    × Applies server applied [] g
    × Stopped server rest left g report
    × (report.processed ≡ length applied)
    × ((i : ℕ) → get_row i table' ≡ row_after 9 applied left i (get_row i queue))
sync-InOrder_example = sync-InOrder server (some 1) 9 queue []

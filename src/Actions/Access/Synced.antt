-- ===== src/Actions/Access/Synced.antt =====
-- From the actions to the authorization store: what `sync` leaves there after any of them.
use mathlib.Core.List.{append-nil}
use criminal_networks_analys.Common.{
  ℕ, ◌≡◌, refl, ap, sym, ◌∙◌, subst, String, none, List, [], ◌∷◌, ◌++◌, arith, inr, ◌⊎◌, length,
}
use criminal_networks_analys.Authz.Tuples.{Tuple3, member, desired_tuples}
use criminal_networks_analys.Authz.Outbox.{
  Server, mutate, AuthzOutbox, SyncReport, Drain, pending_rows, sync, finish,
}
use criminal_networks_analys.Authz.Rebuilt.{IsStore, holds}
use criminal_networks_analys.Authz.Drained.{Applies, Stopped, InOrder, sync-drains}
use criminal_networks_analys.Actions.Ontology.{Ontology}
use criminal_networks_analys.Actions.Store.{Db, Runtime, tables}
use criminal_networks_analys.Actions.Suggestions.{Drafts}
use criminal_networks_analys.Actions.Steps.{Reach}
use criminal_networks_analys.Actions.Access.Granted.{Reach-IsGranted}
use criminal_networks_analys.Actions.Access.Granting.{IsGranted}

module _ {F : Type 0} (server : Server F) where
  same_state : (x : String ⊎ F) (h k : F) → x ≡ inr h → x ≡ inr k → h ≡ k
  same_state x h k a b = ground (arith, sym a ∙ b)

  Applies-rest :
      (applied rest : List AuthzOutbox) (f g h : F)
      → Applies server (applied ++ rest) f g
      → Applies server applied f h
      → Applies server rest h g
  Applies-rest [] rest f g h all through = subst (λ x. Applies server rest x g) through all
  Applies-rest (r ∷ applied) rest f g h all through =
      let (k, first, others) = all in
      let (m, again, through') = through in
      Applies-rest applied rest k g h others (
        subst (λ x. Applies server applied x h)
          (same_state (mutate server r.op r.fga_tuple f) m k again first) through')

  -- A drain does not stop before a row that can be applied.
  Stopped-end :
      (rest left : List AuthzOutbox) (h g : F) (report : SyncReport)
      → Stopped server rest left h report
      → Applies server rest h g
      → (rest ≡ []) × (h ≡ g) × (report.error ≡ none)
  Stopped-end [] left h g report stop through = (refl, through, stop.1)
  Stopped-end (r ∷ rs) left h g report stop through =
      let (error, bad, kept, said, at) = stop in
      let (k, good, through') = through in ground (arith, sym bad ∙ good)

  -- A run that has taken every row.
  abbrev pub IsDrained : ℕ → List AuthzOutbox → F → F → Drain F → Type 0
  IsDrained now rows f g d =
      (d.store ≡ g) × (d.report.error ≡ none) × (d.report.processed ≡ length rows)

  InOrder-IsDrained :
      (now : ℕ) (rows : List AuthzOutbox) (f g : F) (d : Drain F)
      → Applies server rows f g
      → InOrder server now rows f 0 d
      → IsDrained now rows f g d
  InOrder-IsDrained now rows f g d all
        (applied, rest, left, parts, through, marked, stop, counted) =
      let (nothing, same, fine) = Stopped-end rest left d.store g d.report stop (
        Applies-rest applied rest f g d.store (subst (λ l. Applies server l f g) parts all)
          through) in
      let whole = parts ∙ ap (λ l. applied ++ l) nothing ∙ append-nil applied in
      (same, fine, omega (arith, counted, ap length whole))

  module _ {H : Type 0} (rt : Runtime H) (drafts : Drafts) (ontology : Ontology) where
    -- Let the store, the pending rows of the outbox and the tables agree, and OpenFGA be up. After any
    -- sequence of actions, one `sync` takes every pending row without an error, and leaves the store with
    -- exactly the tuples that the tables then imply.
    pub actions-sync :
        (now : ℕ) (f : F) (db db' : Db H)
        → IsStore server
        → IsGranted server f db
        → Reach rt drafts ontology db db'
        → (d : Drain F) × (sync server none now db'.outbox f ≡ finish server db'.outbox d)
          × (d.report.error ≡ none)
          × (d.report.processed ≡ length (pending_rows none db'.outbox))
          × ((t : Tuple3) → holds server t d.store ≡ member t (desired_tuples (tables db')))
    actions-sync now f db db' store granted r =
        let after = Reach-IsGranted rt drafts ontology server f db db' store r granted in
        let (g, queued, applied, all) = after.leads in
        let (d, run, order) = sync-drains server none now db'.outbox f in
        let (same, fine, count) =
          InOrder-IsDrained now (pending_rows none db'.outbox) f g d applied order in
        (d, run, fine, count, λ t. ap (λ s. holds server t s) same ∙ all t)

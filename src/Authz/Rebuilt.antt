-- ===== src/Authz/Rebuilt.antt =====
-- `rebuild` against a server of documented behaviour.
use criminal_networks_analys.Common.{
  ℕ, ◌≡◌, refl, Bool, true, false, ◌&&◌, ◌||◌, not, map, List, [], ◌∷◌, ◌++◌, arith, inl, inr,
}
use criminal_networks_analys.Authz.Tuples.{
  Tuple3, Tables, same_tuple, member, distinct, sorted, minus, desired_tuples, member_tuples,
  evidence_tuples, custodian_tuple, latest_events,
}
use criminal_networks_analys.Authz.Outbox.{
  write, delete, done, Server, mutate, AuthzOutbox, RebuildReport, write_all, delete_all, reconcile,
  rebuild, rebuild_report, supersede,
}
use criminal_networks_analys.Authz.Sets.{
  IsDistinct, same_tuple_refl, member-same, member-distinct, distinct-IsDistinct, member-minus,
  minus-IsDistinct, member-sorted, sorted-IsDistinct,
}

desired-IsDistinct : (db : Tables) → IsDistinct (desired_tuples db)
unfolding desired_tuples
desired-IsDistinct db = distinct-IsDistinct (
    member_tuples db.members
    ++ (evidence_tuples db.evidence ++ map custodian_tuple (latest_events db.custody [])))

module _ {F : Type 0} where
  -- What a read gives, where it gives anything.
  abbrev pub contents : Server F → F → List Tuple3
  contents server f = elim (server.read_all f) [ inl error ↦ [] | inr ts ↦ ts ]

  abbrev pub holds : Server F → Tuple3 → F → Bool
  holds server t f = member t (contents server f)

  -- The documented behaviour of an OpenFGA store that is up: it can be read, a tuple that is not there can be written,
  -- one that is there can be deleted, and nothing else changes.
  pub record IsStore (server : Server F) : Type 0 where
    pub reads : (f : F) → (ts : List Tuple3) × (server.read_all f ≡ inr ts)
    pub writes :
        (t : Tuple3) (f : F)
        → holds server t f ≡ false
        → (f' : F) × (server.post write t f ≡ done f')
          × ((u : Tuple3) → holds server u f' ≡ (same_tuple u t || holds server u f))
    pub deletes :
        (t : Tuple3) (f : F)
        → holds server t f ≡ true
        → (f' : F) × (server.post delete t f ≡ done f')
          × ((u : Tuple3) → holds server u f' ≡ (not (same_tuple u t) && holds server u f))

  -- Each tuple is (or is not) in the store.
  abbrev Each : Bool → Server F → F → List Tuple3 → Type 0
  Each b server f ts = (u : Tuple3) → member u ts ≡ true → holds server u f ≡ b

  write_all-writes :
      (server : Server F) (ts : List Tuple3) (f : F)
      → IsStore server
      → IsDistinct ts
      → Each false server f ts
      → (f' : F) × (write_all server ts f ≡ inr f')
        × ((u : Tuple3) → holds server u f' ≡ (member u ts || holds server u f))
  unfolding write_all mutate
  write_all-writes server [] f store d absent = (f, refl, λ u. refl)
  write_all-writes server (t ∷ ts) f store d absent =
      let (g, posted, changed) = store.writes t f (absent t (ground (arith, same_tuple_refl t))) in
      let (f', rest, all) =
        write_all-writes server ts g store d.1
          (λ u m. ground (arith, changed u, absent u, d.0, m, member-same u t ts)) in
      (f', ground (arith, posted, rest), λ u. ground (arith, all u, changed u))

  delete_all-deletes :
      (server : Server F) (ts : List Tuple3) (f : F)
      → IsStore server
      → IsDistinct ts
      → Each true server f ts
      → (f' : F) × (delete_all server ts f ≡ inr f')
        × ((u : Tuple3) → holds server u f' ≡ (not (member u ts) && holds server u f))
  unfolding delete_all mutate
  delete_all-deletes server [] f store d present = (f, refl, λ u. refl)
  delete_all-deletes server (t ∷ ts) f store d present =
      let (g, posted, changed) =
        store.deletes t f (present t (ground (arith, same_tuple_refl t))) in
      let (f', rest, all) =
        delete_all-deletes server ts g store d.1
          (λ u m. ground (arith, changed u, present u, d.0, m, member-same u t ts)) in
      (f', ground (arith, posted, rest), λ u. ground (arith, all u, changed u))

  reconcile-both :
      (server : Server F) (wanted existing : List Tuple3) (f g f' : F)
      → write_all server (sorted (minus wanted existing)) f ≡ inr g
      → delete_all server (sorted (minus existing wanted)) g ≡ inr f'
      → reconcile server wanted existing f ≡ inr f'
  reconcile-both server wanted existing f g f' written deleted = ground (arith, written, deleted)

  rebuild-returns :
      (server : Server F) (now : ℕ) (db : Tables) (table : List AuthzOutbox) (f f' : F)
      → IsStore server
      → reconcile server (desired_tuples db) (distinct (contents server f)) f ≡ inr f'
      → rebuild server now db table f
        ≡ inr (
          rebuild_report server (desired_tuples db) (distinct (contents server f)) table,
          (map (supersede server now) table, f'),
        )
  unfolding rebuild
  rebuild-returns server now db table f f' store h =
      let (ts, read) = store.reads f in ground (arith, read, h)

  -- While OpenFGA is up a rebuild succeeds, though it stops at the first error, and afterwards the store
  -- holds exactly the tuples that the tables imply, whatever it held before.
  pub rebuild-exact :
      (server : Server F) (now : ℕ) (db : Tables) (table : List AuthzOutbox) (f : F)
      → IsStore server
      → (report : RebuildReport) × (table' : List AuthzOutbox) × (f' : F) × (rebuild server now db
            table f
          ≡ inr (report, (table', f')))
        × ((t : Tuple3) → holds server t f' ≡ member t (desired_tuples db))
  rebuild-exact server now db table f store =
      let wanted = desired_tuples db in
      let existing = distinct (contents server f) in
      let (g, written, wrote) =
        write_all-writes server (sorted (minus wanted existing)) f store
          (sorted-IsDistinct _ (minus-IsDistinct wanted existing (desired-IsDistinct db)))
          (λ u m. ground (
            arith,
            m,
            member-sorted u (minus wanted existing),
            member-minus u wanted existing,
            member-distinct u (contents server f),
          )) in
      let (f', deleted, removed) =
        delete_all-deletes server (sorted (minus existing wanted)) g store
          (sorted-IsDistinct _
            (minus-IsDistinct existing wanted (distinct-IsDistinct (contents server f))))
          (λ u m. ground (
            arith,
            m,
            wrote u,
            member-sorted u (minus existing wanted),
            member-minus u existing wanted,
            member-distinct u (contents server f),
          )) in
      (
        rebuild_report server wanted existing table,
        map (supersede server now) table,
        f',
        rebuild-returns server now db table f f' store
            (reconcile-both server wanted existing f g f' written deleted),
        λ t. ground (
          arith,
          removed t,
          wrote t,
          member-sorted t (minus existing wanted),
          member-minus t existing wanted,
          member-sorted t (minus wanted existing),
          member-minus t wanted existing,
          member-distinct t (contents server f),
        ),
      )

-- ===== src/Actions/Access/Queue.antt =====
-- The outbox as the actions fill it, against the store that `sync` will bring up to date.
use criminal_networks_analys.Common.{
  ℕ, suc, ◌<◌, ◌≡◌, refl, ap, sym, ◌∙◌, subst, Bool, true, false, ◌&&◌, ◌||◌, not, none, List, [],
  ◌∷◌, ◌++◌, arith, inr, All, All-append, All-select, sort_by, sort_by-last, select, select-append,
}
use criminal_networks_analys.Authz.Tuples.{Tuple3, same_tuple}
use criminal_networks_analys.Authz.Outbox.{
  write, delete, Server, mutate, AuthzOutbox, pending_rows, is_pending,
}
use criminal_networks_analys.Authz.Rebuilt.{IsStore, holds}
use criminal_networks_analys.Authz.Drained.{Applies}
use criminal_networks_analys.Actions.Store.{Db}
use criminal_networks_analys.Actions.Monad.{queue, outbox_row}

-- No row has an identifier that the sequence has not given out.
abbrev pub IsQueued : {H : Type 0} → Db H → Type 0
IsQueued db = All (λ r. r.outbox_id < db.next_outbox) db.outbox

IsQueued-suc :
    (n : ℕ) (rs : List AuthzOutbox)
    → All (λ r. r.outbox_id < n) rs
    → All (λ r. r.outbox_id < suc n) rs
IsQueued-suc n [] h = tt
IsQueued-suc n (r ∷ rs) h = (omega (arith, h.0), IsQueued-suc n rs h.1)

pending_rows-append :
    (n : ℕ) (rs : List AuthzOutbox) (r : AuthzOutbox)
    → All (λ r. r.outbox_id < n) rs
    → r.outbox_id ≡ n
    → r.processed_at ≡ none
    → pending_rows none (rs ++ r ∷ []) ≡ pending_rows none rs ++ r ∷ []
pending_rows-append n rs r h e p =
    let keeps : select is_pending rs ++ select is_pending (r ∷ [])
        ≡ select is_pending rs ++ r ∷ [] =
      rw p refl in
    ap (sort_by (λ r. r.outbox_id)) (select-append is_pending rs (r ∷ []) ∙ keeps)
    ∙ sort_by-last (λ r. r.outbox_id) n (select is_pending rs) r
        (All-select (λ r. r.outbox_id < n) is_pending rs h) e

module _ {F : Type 0} (server : Server F) where
  Applies-append :
      (rs : List AuthzOutbox) (r : AuthzOutbox) (f g h : F)
      → Applies server rs f g
      → mutate server r.op r.fga_tuple g ≡ inr h
      → Applies server (rs ++ r ∷ []) f h
  Applies-append [] r f g h a m = (h, ap (mutate server r.op r.fga_tuple) a ∙ m, refl)
  Applies-append (s ∷ rs) r f g h a m =
      let (k, first, rest) = a in (k, first, Applies-append rs r k g h rest m)

  -- The pending rows can be applied to the store one after the other, which then holds `wanted`.
  abbrev pub LeadsTo : {H : Type 0} → F → (Tuple3 → Bool) → Db H → Type 0
  LeadsTo f wanted db =
      (g : F) × IsQueued db
      × Applies server (pending_rows none db.outbox) f g
      × ((t : Tuple3) → holds server t g ≡ wanted t)

  module _ {H : Type 0} (store : IsStore server) (f : F) where
    pub queue-write :
        (wanted : Tuple3 → Bool) (t : Tuple3) (db : Db H)
        → wanted t ≡ false
        → LeadsTo f wanted db
        → LeadsTo f (λ u. same_tuple u t || wanted u) (queue write t db)
    unfolding mutate
    queue-write wanted t db absent (g, queued, applied, all) =
        let (h, posted, changed) = store.writes t g (all t ∙ absent) in
        (
          h,
          All-append (λ r. r.outbox_id < suc db.next_outbox) db.outbox _
              (IsQueued-suc db.next_outbox db.outbox queued) (omega arith, tt),
          subst (λ rs. Applies server rs f h)
              (sym (
                pending_rows-append db.next_outbox db.outbox (outbox_row write t db) queued refl
                  refl))
              (Applies-append (pending_rows none db.outbox) (outbox_row write t db) f g h applied
                (ground (arith, posted))),
          λ u. changed u ∙ ap (λ b. same_tuple u t || b) (all u),
        )

    pub queue-delete :
        (wanted : Tuple3 → Bool) (t : Tuple3) (db : Db H)
        → wanted t ≡ true
        → LeadsTo f wanted db
        → LeadsTo f (λ u. not (same_tuple u t) && wanted u) (queue delete t db)
    unfolding mutate
    queue-delete wanted t db present (g, queued, applied, all) =
        let (h, posted, changed) = store.deletes t g (all t ∙ present) in
        (
          h,
          All-append (λ r. r.outbox_id < suc db.next_outbox) db.outbox _
              (IsQueued-suc db.next_outbox db.outbox queued) (omega arith, tt),
          subst (λ rs. Applies server rs f h)
              (sym (
                pending_rows-append db.next_outbox db.outbox (outbox_row delete t db) queued refl
                  refl))
              (Applies-append (pending_rows none db.outbox) (outbox_row delete t db) f g h applied
                (ground (arith, posted))),
          λ u. changed u ∙ ap (λ b. not (same_tuple u t) && b) (all u),
        )

-- ===== src/Identity/Lineage/Late.antt =====
-- A first membership that is opened at the revision of the newest decision, and the replay.
use mathlib.Core.Option.{some-injective}
use mathlib.Core.List.{map-append, append-nil}
use criminal_networks_analys.Common.{
  ℕ, suc, String, ◌<◌, ◌≡◌, ◌≢◌, refl, sym, ◌∙◌, ap, Bool, false, Option, none, some, List, [], ◌∷◌,
  ◌++◌, arith, select, select-append, dedup, difference, All,
}
use criminal_networks_analys.Identity.Store.{
  Session, IdentityMembership, IdentityDecision, IdentityRevision, confirm,
}
use criminal_networks_analys.Identity.Monad.{ok}
use criminal_networks_analys.Identity.Ledger.{active_entity, max_revision, open_membership}
use criminal_networks_analys.Identity.Canonical.{
  gained, lost, closed_by, by_kind, lineage_step, lineage,
}
use criminal_networks_analys.Identity.Moves.{mentions_of_entity}
use criminal_networks_analys.Identity.Adjudication.{AdjudicationResult, confirm_match}
use criminal_networks_analys.Identity.Membership.Holders.{Is}
use criminal_networks_analys.Identity.Effects.Confirm.{Confirmed, confirm-Confirmed}
use criminal_networks_analys.Identity.Effects.Open.{Opened, open_membership-Opened}
use criminal_networks_analys.Identity.Steps.{IsSound, RevisionBelow}
use criminal_networks_analys.Identity.Lineage.Replay.{SameBefore, lineage-append}
use criminal_networks_analys.Identity.Lineage.Moved.{
  entities, opened_at, moved_table-SameBefore, gained-All, gained-some,
}
use criminal_networks_analys.Identity.Lineage.Decisions.{some_move}

max_revision-append :
    (n : ℕ) (rs : List IdentityRevision) (x : IdentityRevision)
    → All (RevisionBelow n) rs
    → x.revision_id ≡ n
    → max_revision (rs ++ x ∷ []) ≡ some n
unfolding max_revision
max_revision-append n [] x h e = ground arith
max_revision-append n (r ∷ rs) x h e = ground (arith, max_revision-append n rs x h.1 e)

dedup-two :
    (a b : ℕ) (xs : List ℕ) → All (Is a) xs → xs ≢ [] → b ≢ a → dedup (xs ++ b ∷ []) ≡ a ∷ b ∷ []
dedup-two a b [] h ne d = absurd (ne refl)
dedup-two a b (x ∷ []) h ne d = ground arith
dedup-two a b (x ∷ y ∷ xs) h ne d = ground (arith, dedup-two a b (y ∷ xs) h.1 (λ q. cc) d)

unselected :
    (p : IdentityMembership → Bool) (ns : List IdentityMembership) (m : IdentityMembership)
    → p m ≡ false
    → select p (ns ++ m ∷ []) ≡ select p ns
unselected p ns m h = rw select-append (rw h (append-nil (select p ns)))

module _ (n r : ℕ) (ns : List IdentityMembership) (m : IdentityMembership) (k : r < n) where
  not_gained : m.opened_revision_id ≡ n → gained (ns ++ m ∷ []) r ≡ gained ns r
  unfolding gained
  not_gained at_n = ap (λ l. dedup (entities l)) (unselected (opened_at r) ns m (ground arith))

  not_lost :
      m.opened_revision_id ≡ n → m.closed_revision_id ≡ none → lost (ns ++ m ∷ []) r ≡ lost ns r
  unfolding lost
  not_lost at_n still_open = λ i.
      difference (dedup (entities (unselected (closed_by r) ns m (ground arith) i)))
        (not_gained at_n i)

-- A row that is opened at revision `n` and is still open tells the replay nothing before it.
SameBefore-open :
    (n : ℕ) (ms ns : List IdentityMembership) (m : IdentityMembership)
    → m.opened_revision_id ≡ n
    → m.closed_revision_id ≡ none
    → SameBefore n ms ns
    → SameBefore n ms (ns ++ m ∷ [])
SameBefore-open n ms ns m at_n still_open same = record {
  gains = λ r k. not_gained n r ns m k at_n ∙ same.gains r k;
  losses = λ r k. not_lost n r ns m k at_n still_open ∙ same.losses r k;
}

confirm_step-two :
    (ms : List IdentityMembership) (p : List (ℕ × ℕ)) (d : IdentityDecision) (x y : ℕ)
    → d.kind ≡ confirm
    → gained ms d.result_revision_id ≡ x ∷ y ∷ []
    → lineage_step ms p d ≡ p
unfolding lineage_step by_kind
confirm_step-two ms p d x y k g = ground arith

module _ {s t u : Session} {a b : ℕ} {r : AdjudicationResult} {survivor absorbed mention entity : ℕ}
    {m : IdentityMembership} (v : IsSound s) (c : Confirmed s t a b r survivor absorbed)
    (o : Opened t u mention entity none m) (other : entity ≢ survivor) where
  opened_at_head : m.opened_revision_id ≡ s.next_revision
  opened_at_head = some-injective _ _ (
      sym (o.at_head refl)
      ∙ rw c.decided.revisions (max_revision-append s.next_revision s.revisions _ v.revisions refl))

  selected : select (opened_at s.next_revision) (m ∷ []) ≡ m ∷ []
  selected = ground (arith, opened_at_head)

  two_gainers : gained u.memberships s.next_revision ≡ survivor ∷ entity ∷ []
  unfolding gained
  two_gainers =
      rw (o.memberships, c.decided.memberships)
        (rw select-append (
          rw map-append (
            rw (ap (λ (l : List IdentityMembership). entities l) selected) (
              dedup-two survivor m.entity_id _
                (gained-All s.ids (suc s.drawn) _ survivor s.next_revision s.memberships v.within)
                (gained-some s.ids (suc s.drawn) _ survivor s.next_revision s.memberships v.within
                  (some_move v c))
                (λ q. other (sym o.entity_id ∙ q))
              ∙ ap (λ e. survivor ∷ e ∷ []) o.entity_id))))

  forgotten : lineage u.memberships u.decisions ≡ lineage s.memberships s.decisions
  forgotten =
      rw (o.memberships, c.decided.memberships, o.decisions, c.decided.decisions)
        (lineage-append s.next_revision s.memberships _ s.decisions r.decision
            (SameBefore-open s.next_revision s.memberships _ m opened_at_head o.still_open (
              moved_table-SameBefore s.ids (suc s.drawn) (mentions_of_entity absorbed s.memberships)
                survivor s.next_revision s.memberships v.within))
            v.decisions c.decided.result_revision
          ∙ confirm_step-two _ _ r.decision survivor entity c.kind (
              rw c.decided.result_revision
                (rw (o.memberships, c.decided.memberships) at two_gainers)))

-- After a confirmation in a sound ledger, opening a first membership at the head revision on any entity but the
-- survivor makes the replay forget the confirmation: the lineage is again what it was before.
pub open_membership-forgets_merge :
    (actor note : String) (parent a b : ℕ) (candidate : Option ℕ) (s : Session) {t : Session}
    {r : AdjudicationResult} (mention entity survivor : ℕ) {u : Session} {m : IdentityMembership}
    → IsSound s
    → confirm_match actor note parent a b candidate s ≡ ok (r, t)
    → active_entity a s.memberships ≡ some survivor
    → open_membership mention entity none t ≡ ok (m, u)
    → entity ≢ survivor
    → lineage u.memberships u.decisions ≡ lineage s.memberships s.decisions
open_membership-forgets_merge actor note parent a b candidate s {t} mention entity survivor v h of_a
      k other =
    let (survivor', absorbed, c) = confirm-Confirmed actor note parent a b candidate s h in
    forgotten v c (open_membership-Opened mention entity none t k)
      (λ q. other (q ∙ some-injective _ _ (sym c.of_a ∙ of_a)))

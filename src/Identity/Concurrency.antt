-- ===== src/Identity/Concurrency.antt =====
-- The scoped check of `check_scope_is_current`, and two decisions on one entity.
use criminal_networks_analys.Common.{
  ℕ, suc, String, ◌<◌, ◌≡◌, refl, sym, ◌∙◌, ap, Bool, true, false, Option, none, some, List, [],
  ◌∷◌, ◌++◌, map, arith, any-append, any-sort_by, any-select, sort_by, ◌≢◌, ◌==◌, inl, inr, ◌⊎◌,
  any, select, member, length, ltb, ◌&&◌, ◌||◌, if◌then◌else◌,
}
use criminal_networks_analys.Identity.Store.{Session, IdentityMembership, IdentityDecision}
use criminal_networks_analys.Identity.Monad.{ok, err, stale, nothing_to_confirm}
use criminal_networks_analys.Identity.Scope.{
  check_scope_is_current, entities_of, intervening, opened_after, closed_after,
}
use criminal_networks_analys.Identity.Ledger.{active_entity}
use criminal_networks_analys.Identity.Moves.{
  moved_table, close_moved, moves, mentions_of_entity, reopened,
}
use criminal_networks_analys.Identity.Adjudication.{AdjudicationResult, confirm_match, two_inputs}
use criminal_networks_analys.Identity.Effects.Confirm.{Confirmed, confirm-Confirmed}
use criminal_networks_analys.Identity.Membership.Moving.{rows_of, rows_of-sort_by}
use criminal_networks_analys.Identity.Membership.Holders.{member-mentions_of_entity, rows_of-moves}
use criminal_networks_analys.Identity.Merging.{Confirmed-distinct}
use criminal_networks_analys.Identity.Steps.{IsSound}

-- A row of the scope that was opened or closed after the parent revision.
abbrev pub changed_after : ℕ → List ℕ → IdentityMembership → Bool
changed_after parent scope m =
    member m.entity_id scope
    && (ltb parent m.opened_revision_id
        || (elim m.closed_revision_id [ none ↦ false | some c ↦ ltb parent c ]))

abbrev is_nil : List IdentityMembership → Bool
is_nil [] = true
is_nil (_ ∷ _) = false

is_nil-select :
    (p : IdentityMembership → Bool) (ms : List IdentityMembership)
    → is_nil (select p ms) ≡ (if any p ms then false else true)
is_nil-select p [] = refl
is_nil-select p (m ∷ ms) = ground (arith, is_nil-select p ms)

is_nil-append : (ms ns : List IdentityMembership) → is_nil (ms ++ ns) ≡ (is_nil ms && is_nil ns)
is_nil-append [] ns = refl
is_nil-append (m ∷ ms) ns = refl

any-changed :
    (parent : ℕ) (scope : List ℕ) (ms : List IdentityMembership)
    → (any (opened_after parent scope) ms || any (closed_after parent scope) ms)
      ≡ any (changed_after parent scope) ms
any-changed parent scope [] = refl
any-changed parent scope (m ∷ ms) = ground (arith, any-changed parent scope ms)

any-empty_scope :
    (parent : ℕ) (ms : List IdentityMembership) → any (changed_after parent []) ms ≡ false
any-empty_scope parent [] = refl
any-empty_scope parent (m ∷ ms) = ground (arith, any-empty_scope parent ms)

-- The check refuses exactly the decisions one of whose own entities changed after the parent, hands
-- them the decisions that landed in between, and changes nothing when it passes.
pub check_scope-exact :
    (parent : ℕ) (scope : List ℕ) (s : Session)
    → check_scope_is_current parent scope s ≡ (
        if any (changed_after parent scope) s.memberships
        then err (stale parent (intervening parent s.decisions))
        else ok (tt, s))
unfolding check_scope_is_current
check_scope-exact parent [] s = rw (any-empty_scope parent s.memberships)
check_scope-exact parent (e ∷ scope) s = ground (
  arith,
  is_nil-append (select (opened_after parent (e ∷ scope)) s.memberships)
      (select (closed_after parent (e ∷ scope)) s.memberships),
  is_nil-select (opened_after parent (e ∷ scope)) s.memberships,
  is_nil-select (closed_after parent (e ∷ scope)) s.memberships,
  any-changed parent (e ∷ scope) s.memberships,
)

module _ (parent revision : ℕ) (scope mentions : List ℕ) (target : ℕ)
    (later : parent < revision) where
  any-closed :
      (b absorbed : ℕ) (ms : List IdentityMembership)
      → active_entity b ms ≡ some absorbed
      → member b mentions ≡ true
      → absorbed ≢ target
      → member absorbed scope ≡ true
      → any (changed_after parent scope) (map (close_moved mentions target revision) ms) ≡ true
  unfolding active_entity
  any-closed b absorbed [] e h k l = cc
  any-closed b absorbed (m ∷ ms) e h k l = ground (arith, any-closed b absorbed ms)

  any-reopened :
      (ids : ℕ → ℕ) (d x : ℕ) (ms : List IdentityMembership)
      → rows_of x ms ≢ 0
      → member target scope ≡ true
      → any (changed_after parent scope) (reopened ids d target revision ms) ≡ true
  unfolding reopened
  any-reopened ids d x [] h k = absurd (h refl)
  any-reopened ids d x (m ∷ ms) h k = ground arith

module _ {s t : Session} {a b : ℕ} {r : AdjudicationResult} {survivor absorbed : ℕ} (v : IsSound s)
    (c : Confirmed s t a b r survivor absorbed) where
  b_is_held : member b (mentions_of_entity absorbed s.memberships) ≡ true
  b_is_held =
      ground (arith, member-mentions_of_entity absorbed b s.memberships (v.one_active b), c.of_b)

  pub b_moves :
      rows_of b (
        sort_by
          (λ m. m.mention_id)
          (select (moves (mentions_of_entity absorbed s.memberships) survivor) s.memberships))
      ≢ 0
  b_moves e = absurd (
      ground (
        arith,
        rows_of-sort_by b
            (select (moves (mentions_of_entity absorbed s.memberships) survivor) s.memberships),
        rows_of-moves (mentions_of_entity absorbed s.memberships) survivor b s.memberships
            (v.one_active b),
        b_is_held,
        c.of_b,
        Confirmed-distinct v c,
      ))

  -- Both entities of a confirmation have a row that changed at its revision.
  changed_by_confirm :
      (parent e : ℕ) (scope : List ℕ)
      → parent < s.next_revision
      → (e ≡ survivor) ⊎ (e ≡ absorbed)
      → member e scope ≡ true
      → any (changed_after parent scope) t.memberships ≡ true
  unfolding moved_table
  changed_by_confirm parent e scope later (inl is_survivor) h = rw c.decided.memberships (
      rw any-append (
        ground (
          arith,
          any-reopened parent s.next_revision scope (mentions_of_entity absorbed s.memberships)
              survivor later s.ids (suc s.drawn) b _ b_moves
              (ap (λ x. member x scope) (sym is_survivor) ∙ h),
        )))
  changed_by_confirm parent e scope later (inr is_absorbed) h = rw c.decided.memberships (
      rw any-append (
        ground (
          arith,
          any-closed parent s.next_revision scope (mentions_of_entity absorbed s.memberships)
              survivor later b absorbed s.memberships c.of_b b_is_held
              (λ q. Confirmed-distinct v c (sym q))
              (ap (λ x. member x scope) (sym is_absorbed) ∙ h),
        )))

any-intervening :
    (parent : ℕ) (ds : List IdentityDecision) (d : IdentityDecision)
    → parent < d.result_revision_id
    → any (λ k. k.decision_id == d.decision_id) (intervening parent (ds ++ d ∷ [])) ≡ true
unfolding intervening
any-intervening parent ds d later = rw any-sort_by (rw any-select (rw any-append (ground arith)))

-- After a confirmation the check fails for a scope that holds one of the two entities.
pub check_scope-after_confirm :
    (actor note : String) (parent a b : ℕ) (candidate : Option ℕ) (s : Session) {t : Session}
    {r : AdjudicationResult} (parent' e : ℕ) (scope : List ℕ)
    → IsSound s
    → confirm_match actor note parent a b candidate s ≡ ok (r, t)
    → (active_entity a s.memberships ≡ some e) ⊎ (active_entity b s.memberships ≡ some e)
    → member e scope ≡ true
    → parent' < s.next_revision
    → (check_scope_is_current parent' scope t
        ≡ err (stale parent' (intervening parent' t.decisions)))
      × (any (λ k. k.decision_id == r.decision.decision_id) (intervening parent' t.decisions)
          ≡ true)
check_scope-after_confirm actor note parent a b candidate s {t} {r} parent' e scope v h who inside
      later =
    let (survivor, absorbed, c) = confirm-Confirmed actor note parent a b candidate s h in
    let changed =
      changed_by_confirm v c parent' e scope later (ground (arith, c.of_a, c.of_b)) inside in
    (
      check_scope-exact parent' scope t ∙ rw changed refl,
      rw c.decided.decisions (
          any-intervening parent' s.decisions r.decision
            (omega (arith, c.decided.result_revision))),
    )

-- What `confirm_match` answers where the check on its scope fails.
pub confirm_match-stale :
    (actor note : String) (parent x y : ℕ) (candidate : Option ℕ) (t : Session)
    → check_scope_is_current parent (entities_of (two_inputs x y) t.memberships) t
      ≡ err (stale parent (intervening parent t.decisions))
    → confirm_match actor note parent x y candidate t
      ≡ err (
          if ltb (length (entities_of (two_inputs x y) t.memberships)) 2
          then nothing_to_confirm
          else stale parent (intervening parent t.decisions))
unfolding confirm_match
confirm_match-stale actor note parent x y candidate t refused = ground (arith, refused)

-- ===== src/Identity/Lineage/Decisions.antt =====
-- What each decision, and each first membership, does to the replayed lineage.
use criminal_networks_analys.Common.{
  ℕ, suc, ◌≡◌, ◌≢◌, refl, ◌∙◌, ap, true, false, Option, some, List, [], ◌∷◌, arith, select, member,
  dedup, difference, sort_by, identity, member-sort_by, ==_refl, All,
}
use criminal_networks_analys.Common.Dict.{Dict, insert, erase}
use criminal_networks_analys.Identity.Store.{
  Session, IdentityMembership, IdentityDecision, confirm, split,
}
use criminal_networks_analys.Identity.Ledger.{active_entity}
use criminal_networks_analys.Identity.Canonical.{gained, lost, by_kind, lineage_step, lineage}
use criminal_networks_analys.Identity.Moves.{moves, mentions_of_entity}
use criminal_networks_analys.Identity.Adjudication.{is_empty, AdjudicationResult}
use criminal_networks_analys.Identity.Membership.Moving.{rows_of}
use criminal_networks_analys.Identity.Membership.Holders.{
  Is, dedup-All, rows_of-moves, member-mentions_of_entity,
}
use criminal_networks_analys.Identity.Effects.Confirm.{Confirmed}
use criminal_networks_analys.Identity.Effects.Split.{Splitted}
use criminal_networks_analys.Identity.Steps.{IsSound}
use criminal_networks_analys.Identity.Merging.{Confirmed-distinct, Splitted-held}
use criminal_networks_analys.Identity.Concurrency.{b_moves}
use criminal_networks_analys.Identity.Lineage.Replay.{lineage-append}
use criminal_networks_analys.Identity.Lineage.Moved.{
  entities, moved_table-SameBefore, gained-moved_table, lost-moved_table, All-moves,
}

confirm_step :
    (ms : List IdentityMembership) (p : Dict ℕ) (d : IdentityDecision) (survivor absorbed : ℕ)
    → d.kind ≡ confirm
    → gained ms d.result_revision_id ≡ survivor ∷ []
    → lost ms d.result_revision_id ≡ absorbed ∷ []
    → lineage_step ms p d ≡ insert absorbed survivor p
unfolding lineage_step by_kind
confirm_step ms p d survivor absorbed k g l = ground arith

split_step :
    (ms : List IdentityMembership) (p : Dict ℕ) (d : IdentityDecision) (onto : ℕ)
    → d.kind ≡ split
    → gained ms d.result_revision_id ≡ onto ∷ []
    → lineage_step ms p d ≡ erase onto p
unfolding lineage_step by_kind
split_step ms p d onto k g = ground arith

module _ {s t : Session} {a b : ℕ} {r : AdjudicationResult} {survivor absorbed : ℕ} (v : IsSound s)
    (c : Confirmed s t a b r survivor absorbed) where
  held : List ℕ
  held = mentions_of_entity absorbed s.memberships

  pub some_move :
      select (moves (mentions_of_entity absorbed s.memberships) survivor) s.memberships ≢ []
  some_move e = b_moves v c (ap (λ ms. rows_of b (sort_by (λ m. m.mention_id) ms)) e)

  All-absorbed :
      All (Is absorbed) (
        entities
          (select (moves (mentions_of_entity absorbed s.memberships) survivor) s.memberships))
  All-absorbed =
      All-moves (mentions_of_entity absorbed s.memberships) survivor absorbed s.memberships
        v.one_active
        (λ x h. ground (arith, member-mentions_of_entity absorbed x s.memberships (v.one_active x)))

  nonempty : (ms : List IdentityMembership) → ms ≢ [] → entities ms ≢ []
  nonempty [] h e = h refl
  nonempty (m ∷ ms) h e = cc

  confirmed_losers :
      difference
        (dedup (
          entities
            (select (moves (mentions_of_entity absorbed s.memberships) survivor) s.memberships)))
        (survivor ∷ [])
      ≡ absorbed ∷ []
  confirmed_losers =
      rw (dedup-All absorbed _ All-absorbed (nonempty _ some_move))
        (ground (arith, Confirmed-distinct v c))

  -- The replay takes a confirmation for one edge, from the absorbed entity to the survivor.
  pub Confirmed-lineage :
      lineage t.memberships t.decisions
      ≡ insert absorbed survivor (lineage s.memberships s.decisions)
  Confirmed-lineage =
      rw (c.decided.memberships, c.decided.decisions)
        (lineage-append s.next_revision s.memberships _ s.decisions r.decision
            (moved_table-SameBefore s.ids (suc s.drawn) (mentions_of_entity absorbed s.memberships)
              survivor s.next_revision s.memberships v.within)
            v.decisions c.decided.result_revision
          ∙ confirm_step _ _ r.decision survivor absorbed c.kind
              (rw c.decided.result_revision (
                gained-moved_table s.ids (suc s.drawn) _ survivor s.next_revision s.memberships
                  v.within some_move))
              (rw c.decided.result_revision (
                lost-moved_table s.ids (suc s.drawn) _ survivor s.next_revision s.memberships
                  v.within some_move
                ∙ confirmed_losers)))

module _ {s t : Session} {entity : ℕ} {mentions : List ℕ} {target : Option ℕ}
    {r : AdjudicationResult} {onto d : ℕ} (v : IsSound s)
    (c : Splitted s t entity mentions target r onto d) (elsewhere : onto ≢ entity) where
  some_split : select (moves (sort_by identity mentions) onto) s.memberships ≢ []
  some_split e = named_moves mentions c.named (λ x h. Splitted-held v c x h) e
    where
      named_moves :
          (l : List ℕ)
          → is_empty l ≡ false
          → ((x : ℕ) → member x l ≡ true → active_entity x s.memberships ≡ some entity)
          → select (moves (sort_by identity l) onto) s.memberships ≢ []
      named_moves [] h k q = cc
      named_moves (x ∷ l) h k q = absurd (
          ground (
            arith,
            rows_of-moves (sort_by identity (x ∷ l)) onto x s.memberships (v.one_active x),
            ap (rows_of x) q,
            member-sort_by x (x ∷ l),
            k x,
            ==_refl x,
          ))

  -- The replay takes a split for the removal of the target's edge.
  pub Splitted-lineage :
      lineage t.memberships t.decisions ≡ erase onto (lineage s.memberships s.decisions)
  Splitted-lineage =
      rw (c.decided.memberships, c.decided.decisions)
        (lineage-append s.next_revision s.memberships _ s.decisions r.decision
            (moved_table-SameBefore s.ids d (sort_by identity mentions) onto s.next_revision
              s.memberships v.within)
            v.decisions c.decided.result_revision
          ∙ split_step _ _ r.decision onto c.kind (
              rw c.decided.result_revision (
                gained-moved_table s.ids d _ onto s.next_revision s.memberships v.within
                  some_split)))

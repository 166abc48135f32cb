-- ===== src/Identity/Lineage/Merged.antt =====
-- The canonical map after a confirmation, and after the split that undoes it.
use mathlib.Core.Option.{some-injective}
use criminal_networks_analys.Common.{
  ℕ, String, ◌≡◌, ◌≢◌, refl, sym, ◌∙◌, subst, true, Option, none, some, arith, member, ◌==◌,
  if◌then◌else◌,
}
use criminal_networks_analys.Common.Dict.{lookup, insert, lookup-insert, lookup-erase}
use criminal_networks_analys.Identity.Store.{confirm, confirmed, Session}
use criminal_networks_analys.Identity.Monad.{ok, >>=-eq-ok, pure, ◌>>◌}
use criminal_networks_analys.Identity.Ledger.{active_entity}
use criminal_networks_analys.Identity.Canonical.{lineage, canonical_entity, rebuild_canonical_map}
use criminal_networks_analys.Identity.Moves.{open_decision, move_mentions}
use criminal_networks_analys.Identity.Candidates.{settle_candidate}
use criminal_networks_analys.Identity.Adjudication.{
  AdjudicationResult, confirm_match, confirm_write, split_entity, two_inputs,
}
use criminal_networks_analys.Identity.Effects.Confirm.{confirm-Confirmed, confirm-written}
use criminal_networks_analys.Identity.Effects.Split.{split-Splitted}
use criminal_networks_analys.Identity.Steps.{IsSound, confirms, Adjudicates-IsSound}
use criminal_networks_analys.Identity.Merging.{
  Confirmed-moved, Confirmed-distinct, Confirmed-active_entity, Splitted-held,
}
use criminal_networks_analys.Identity.Lineage.Resolve.{LeadsTo-cons, root_unique}
use criminal_networks_analys.Identity.Lineage.Rebuild.{
  IsRebuilt, IsRebuilt-root, entity_ids, rebuild-IsRebuilt,
}
use criminal_networks_analys.Identity.Lineage.Decisions.{Confirmed-lineage, Splitted-lineage}

IsRebuilt-last :
    (x : AdjudicationResult) (u : Session) {t : Session} {r : AdjudicationResult}
    → (rebuild_canonical_map >> pure x) u ≡ ok (r, t)
    → IsRebuilt t
IsRebuilt-last x u h =
    let (report, w, done, same) = >>=-eq-ok rebuild_canonical_map (λ _. pure x) u h in
    let end : w ≡ _ = ground arith in subst IsRebuilt end (rebuild-IsRebuilt u done)

confirm_write-IsRebuilt :
    (actor note : String) (parent a b : ℕ) (candidate : Option ℕ) (survivor absorbed : ℕ)
    (s : Session) {t : Session} {r : AdjudicationResult}
    → confirm_write actor note parent a b candidate survivor absorbed s ≡ ok (r, t)
    → IsRebuilt t
unfolding confirm_write move_mentions
confirm_write-IsRebuilt actor note parent a b candidate survivor absorbed s h =
    let (d, v, _, opened) =
      >>=-eq-ok (open_decision confirm actor note parent candidate (two_inputs a b)) _ s h in
    let (_, u, _, rest) =
      >>=-eq-ok (settle_candidate candidate confirmed d.decision_id) _ _ opened in
    IsRebuilt-last _ u rest

-- After a confirmation in a sound ledger both entities, if the table of entities has them, stand for
-- the same root.
pub confirm_match-canonical :
    (actor note : String) (parent a b : ℕ) (candidate : Option ℕ) (s : Session) {t : Session}
    {r : AdjudicationResult} (survivor absorbed : ℕ)
    → IsSound s
    → confirm_match actor note parent a b candidate s ≡ ok (r, t)
    → active_entity a s.memberships ≡ some survivor
    → active_entity b s.memberships ≡ some absorbed
    → member survivor (entity_ids t.entities) ≡ true
    → member absorbed (entity_ids t.entities) ≡ true
    → canonical_entity t absorbed ≡ canonical_entity t survivor
confirm_match-canonical actor note parent a b candidate s {t} survivor absorbed v h of_a of_b known
      known' =
    let (written, c) =
      confirm-written actor note parent a b candidate s survivor absorbed h of_a of_b in
    let rebuilt : IsRebuilt t =
      confirm_write-IsRebuilt actor note parent a b candidate survivor absorbed s written in
    let edge : lookup absorbed (lineage t.memberships t.decisions) ≡ some survivor =
      rw (Confirmed-lineage v c) (
        ground
          (arith, lookup-insert absorbed absorbed survivor (lineage s.memberships s.decisions))) in
    let (walk, root) = IsRebuilt-root t survivor rebuilt known in
    let (walk', root') = IsRebuilt-root t absorbed rebuilt known' in
    root_unique walk' root' (LeadsTo-cons edge walk) root

-- In a sound ledger, splitting the moved mentions back onto the absorbed entity leaves every entity its
-- edge in the lineage of before the confirmation, or none, except the absorbed one, which has no edge
-- afterwards, whether or not it had one before.
pub split-confirm_lineage :
    (actor note : String) (parent a b : ℕ) (candidate : Option ℕ) (s : Session) {t : Session}
    {r : AdjudicationResult} (actor' note' : String) (parent' entity absorbed : ℕ) {u : Session}
    {q : AdjudicationResult}
    → IsSound s
    → confirm_match actor note parent a b candidate s ≡ ok (r, t)
    → active_entity b s.memberships ≡ some absorbed
    → split_entity actor' note' parent' entity r.moved_mentions (some absorbed) t ≡ ok (q, u)
    → (j : ℕ)
    → lookup j (lineage u.memberships u.decisions)
      ≡ (if absorbed == j then none else lookup j (lineage s.memberships s.decisions))
split-confirm_lineage actor note parent a b candidate s {t} {r} actor' note' parent' entity absorbed
      v h of_b k j =
    let (survivor, absorbed', c) = confirm-Confirmed actor note parent a b candidate s h in
    let (onto, d, c') =
      split-Splitted actor' note' parent' entity r.moved_mentions (some absorbed) t k in
    let w = Adjudicates-IsSound (confirms actor note parent a b candidate r h) v in
    let same : absorbed' ≡ absorbed = some-injective _ _ (sym c.of_b ∙ of_b) in
    let onto_absorbed : onto ≡ absorbed = c'.onto_target absorbed refl in
    let elsewhere : onto ≢ entity = λ e. ground (
      arith,
      e,
      Splitted-held w c' b,
      Confirmed-moved v c b,
      Confirmed-active_entity v c b,
      Confirmed-distinct v c,
      c.of_b,
    ) in
    rw (Splitted-lineage w c' elsewhere, Confirmed-lineage v c)
      (ground (
        arith,
        same,
        onto_absorbed,
        lookup-erase onto j (insert absorbed' survivor (lineage s.memberships s.decisions)),
        lookup-insert absorbed' j survivor (lineage s.memberships s.decisions),
      ))

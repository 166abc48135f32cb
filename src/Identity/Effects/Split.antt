-- ===== src/Identity/Effects/Split.antt =====
-- What a `split_entity` that succeeded did to the tables.
use criminal_networks_analys.Common.{
  ℕ, suc, ◌∙◌, String, ◌≡◌, false, Option, none, some, List, [], arith, sort_by, identity, same_set,
}
use criminal_networks_analys.Identity.Store.{split, Session, IdentityDecision}
use criminal_networks_analys.Identity.Monad.{ok, >>=-eq-ok}
use criminal_networks_analys.Identity.Canonical.{rebuild_canonical_map}
use criminal_networks_analys.Identity.Canonical.{rebuild_canonical_map}
use criminal_networks_analys.Identity.Moves.{
  mentions_of_entity, moved_table, open_decision, move_mentions,
}
use criminal_networks_analys.Identity.Splits.{split_target}
use criminal_networks_analys.Identity.Adjudication.{
  AdjudicationResult, split_entity, split_write, split_moves, is_empty, stray_mentions,
}
use criminal_networks_analys.Identity.Effects.Steps.{
  SameLedger, Decided, rebuild-SameLedger, scope-same,
}

pub record Targeted (s u : Session) : Type 0 where
  pub same : SameLedger s u
  pub ids : u.ids ≡ s.ids

pub split_target-Targeted :
    (entity : ℕ) (mentions : List ℕ) (target : Option ℕ) (s : Session) {u : Session}
    {p : ℕ × Option ℕ}
    → split_target entity mentions target s ≡ ok (p, u)
    → Targeted s u
unfolding split_target
split_target-Targeted entity mentions none s h = ground arith
split_target-Targeted entity mentions (some target) s h = ground arith

-- What a split did: every named mention was held by the entity, some were left, and the named ones
-- moved to the target.
pub record Splitted (s t : Session) (entity : ℕ) (mentions : List ℕ) (target : Option ℕ)
    (r : AdjudicationResult) (onto d : ℕ) : Type 0 where
  pub named : is_empty mentions ≡ false
  pub all_held : stray_mentions mentions (mentions_of_entity entity s.memberships) ≡ []
  pub some_left : same_set mentions (mentions_of_entity entity s.memberships) ≡ false
  pub kind : r.decision.kind ≡ split
  pub onto_target : (e : ℕ) → target ≡ some e → onto ≡ e
  pub onto_new : target ≡ none → r.new_entity_id ≡ some onto
  pub decided :
      Decided s t
        (moved_table s.ids d (sort_by identity mentions) onto s.next_revision s.memberships)
        r.decision

-- The part of a split after its target is known.
split_moves-Decided :
    (actor note : String) (parent entity : ℕ) (mentions : List ℕ) (p : ℕ × Option ℕ) (u : Session)
    {t : Session} {r : AdjudicationResult}
    → split_moves actor note parent entity mentions p u ≡ ok (r, t)
    → (r.new_entity_id ≡ p.1)
      × (r.decision.kind ≡ split)
      × Decided u t
          (moved_table u.ids
            (suc u.drawn)
            (sort_by identity mentions)
            p.0
            u.next_revision
            u.memberships)
          r.decision
unfolding split_moves open_decision move_mentions rebuild_canonical_map
split_moves-Decided actor note parent entity mentions p u h =
    (grind arith, grind arith, grind (arith, rebuild-SameLedger))

onto-target :
    (entity : ℕ) (mentions : List ℕ) (target : Option ℕ) (s : Session) {u : Session}
    {p : ℕ × Option ℕ}
    → split_target entity mentions target s ≡ ok (p, u)
    → ((e : ℕ) → target ≡ some e → p.0 ≡ e) × (target ≡ none → p.1 ≡ some p.0)
unfolding split_target
onto-target entity mentions none s h = ((λ e q. cc), λ q. ground arith)
onto-target entity mentions (some target) s h = ((λ e q. ground arith), λ q. cc)

Decided-from :
    {s u t : Session} {d : IdentityDecision} (drawn onto : ℕ) (mentions : List ℕ)
    → Targeted s u
    → Decided u t (moved_table u.ids drawn mentions onto u.next_revision u.memberships) d
    → Decided s t (moved_table s.ids drawn mentions onto s.next_revision s.memberships) d
Decided-from drawn onto mentions k h = record {
  revisions = cc (h.revisions, k.same.revisions, k.same.next_revision);
  next_revision = cc (h.next_revision, k.same.next_revision);
  decisions = cc (h.decisions, k.same.decisions);
  result_revision = cc (h.result_revision, k.same.next_revision);
  known_parent = cc (h.known_parent, k.same.revisions, k.same.next_revision);
  memberships = cc (h.memberships, k.ids, k.same.next_revision, k.same.memberships);
  mentions = cc (h.mentions, k.same.mentions);
  claims = cc (h.claims, k.same.claims);
}

split_guards :
    (actor note : String) (parent entity : ℕ) (mentions : List ℕ) (target : Option ℕ) (s : Session)
    {t : Session} {r : AdjudicationResult}
    → split_entity actor note parent entity mentions target s ≡ ok (r, t)
    → (is_empty mentions ≡ false)
      × (stray_mentions mentions (mentions_of_entity entity s.memberships) ≡ [])
      × (same_set mentions (mentions_of_entity entity s.memberships) ≡ false)
      × (split_write actor note parent entity mentions target s ≡ ok (r, t))
unfolding split_entity
split_guards actor note parent entity mentions target s h =
    (grind arith, grind (arith, scope-same), grind (arith, scope-same), grind (arith, scope-same))

pub split-Splitted :
    (actor note : String) (parent entity : ℕ) (mentions : List ℕ) (target : Option ℕ) (s : Session)
    {t : Session} {r : AdjudicationResult}
    → split_entity actor note parent entity mentions target s ≡ ok (r, t)
    → (onto : ℕ) × (d : ℕ) × Splitted s t entity mentions target r onto d
unfolding split_write
split-Splitted actor note parent entity mentions target s h =
    let (named, held, left, written) = split_guards actor note parent entity mentions target s h in
    let (p, u, found, moved) =
      >>=-eq-ok (split_target entity mentions target)
        (split_moves actor note parent entity mentions) s written in
    let (created, kind, decided) =
      split_moves-Decided actor note parent entity mentions p u moved in
    let (given, fresh) = onto-target entity mentions target s found in
    (
      p.0,
      suc u.drawn,
      record {
        named = named;
        all_held = held;
        kind = kind;
        some_left = left;
        onto_target = given;
        onto_new = λ q. created ∙ fresh q;
        decided =
            Decided-from (suc u.drawn) p.0 (sort_by identity mentions)
              (split_target-Targeted entity mentions target s found) decided;
      },
    )

-- ===== src/Identity/Merging.antt =====
-- What confirming and splitting do to who belongs where.
use criminal_networks_analys.Common.{
  ℕ, suc, String, ◌≡◌, ◌≢◌, refl, ap, sym, ◌∙◌, Bool, true, false, Option, none, some, List, [],
  not, ◌==◌, if◌then◌else◌, member, member-sort_by, member-select, member-dedup, dedup, difference,
  arith,
}
use criminal_networks_analys.Identity.Store.{Session}
use criminal_networks_analys.Identity.Monad.{ok}
use criminal_networks_analys.Identity.Ledger.{active_entity}
use criminal_networks_analys.Identity.Adjudication.{
  AdjudicationResult, confirm_match, split_entity, stray_mentions,
}
use criminal_networks_analys.Identity.Membership.Moving.{active_entity-moved_table}
use criminal_networks_analys.Identity.Membership.Holders.{
  is_at, member-mentions_of_entity, member-moved_of, entities_of-same,
}
use criminal_networks_analys.Identity.Effects.Confirm.{Confirmed, confirm-Confirmed}
use criminal_networks_analys.Identity.Effects.Split.{Splitted, split-Splitted}
use criminal_networks_analys.Identity.Steps.{IsSound, confirms, Adjudicates-IsSound}

-- Everything of one entity becomes the other's.
abbrev pub merged_into : ℕ → ℕ → Option ℕ → Option ℕ
merged_into survivor absorbed none = none
merged_into survivor absorbed (some e) = if e == absorbed then some survivor else some e

module _ {s t : Session} {a b : ℕ} {r : AdjudicationResult} {survivor absorbed : ℕ} (v : IsSound s)
    (c : Confirmed s t a b r survivor absorbed) where
  pub Confirmed-active_entity :
      (x : ℕ)
      → active_entity x t.memberships
        ≡ merged_into survivor absorbed (active_entity x s.memberships)
  Confirmed-active_entity x = rw c.decided.memberships (
      rw
        (active_entity-moved_table s.ids (suc s.drawn) _ survivor s.next_revision s.memberships x
          (v.one_active x))
        (rw (member-mentions_of_entity absorbed x s.memberships (v.one_active x)) ground arith))

  pub Confirmed-distinct : survivor ≢ absorbed
  Confirmed-distinct e = absurd (
      ground (
        arith,
        c.two,
        entities_of-same a b absorbed s.memberships (v.one_active a) (v.one_active b)
            (c.of_a ∙ ap some e) c.of_b,
      ))

  pub Confirmed-moved :
      (x : ℕ) → member x r.moved_mentions ≡ is_at absorbed (active_entity x s.memberships)
  Confirmed-moved x = rw c.moved (
      rw (member-moved_of _ survivor x s.memberships (v.one_active x)) (
        rw (member-mentions_of_entity absorbed x s.memberships (v.one_active x))
          (ground (arith, Confirmed-distinct))))

-- A confirmation moves everything of the second mention's entity, and nothing else, to the first
-- mention's entity, in a sound ledger.
pub confirm_match-merges :
    (actor note : String) (parent a b : ℕ) (candidate : Option ℕ) (s : Session) {t : Session}
    {r : AdjudicationResult}
    → IsSound s
    → confirm_match actor note parent a b candidate s ≡ ok (r, t)
    → (survivor : ℕ) × (absorbed : ℕ) × (active_entity a s.memberships ≡ some survivor)
      × (active_entity b s.memberships ≡ some absorbed)
      × (survivor ≢ absorbed)
      × ((x : ℕ)
          → active_entity x t.memberships
            ≡ merged_into survivor absorbed (active_entity x s.memberships))
confirm_match-merges actor note parent a b candidate s v h =
    let (survivor, absorbed, c) = confirm-Confirmed actor note parent a b candidate s h in
    (survivor, absorbed, c.of_a, c.of_b, Confirmed-distinct v c, Confirmed-active_entity v c)

stray-member :
    (mentions held : List ℕ) (x : ℕ)
    → stray_mentions mentions held ≡ []
    → member x mentions ≡ true
    → member x held ≡ true
stray-member mentions held x none_stray h = ground (
  arith,
  ap (member x) none_stray,
  member-sort_by x (difference (dedup mentions) held),
  member-select x (λ a. not (member a held)) (dedup mentions),
  member-dedup x mentions,
)

abbrev pub split_off : Bool → ℕ → Option ℕ → Option ℕ
split_off true onto before = some onto
split_off false onto before = before

module _ {s t : Session} {entity : ℕ} {mentions : List ℕ} {target : Option ℕ}
    {r : AdjudicationResult} {onto d : ℕ} (v : IsSound s)
    (c : Splitted s t entity mentions target r onto d) where
  pub Splitted-held :
      (x : ℕ) → member x mentions ≡ true → active_entity x s.memberships ≡ some entity
  Splitted-held x h = at_entity (active_entity x s.memberships) (
      sym (member-mentions_of_entity entity x s.memberships (v.one_active x))
      ∙ stray-member mentions _ x c.all_held h)
    where
      at_entity : (o : Option ℕ) → is_at entity o ≡ true → o ≡ some entity
      at_entity o e = ground arith

  pub Splitted-active_entity :
      (x : ℕ)
      → active_entity x t.memberships
        ≡ split_off (member x mentions) onto (active_entity x s.memberships)
  Splitted-active_entity x = rw c.decided.memberships (
      rw (active_entity-moved_table s.ids d _ onto s.next_revision s.memberships x (v.one_active x))
        (rw member-sort_by (ground (arith, Splitted-held x))))

-- A split moves the mentions that it names, all of which the entity held, to the given target or to
-- the entity that it reports as new, and no other mention, in a sound ledger.
pub split_entity-moves :
    (actor note : String) (parent entity : ℕ) (mentions : List ℕ) (target : Option ℕ) (s : Session)
    {t : Session} {r : AdjudicationResult}
    → IsSound s
    → split_entity actor note parent entity mentions target s ≡ ok (r, t)
    → (onto : ℕ) × ((e : ℕ) → target ≡ some e → onto ≡ e)
      × (target ≡ none → r.new_entity_id ≡ some onto)
      × ((x : ℕ) → member x mentions ≡ true → active_entity x s.memberships ≡ some entity)
      × ((x : ℕ)
          → active_entity x t.memberships
            ≡ split_off (member x mentions) onto (active_entity x s.memberships))
split_entity-moves actor note parent entity mentions target s v h =
    let (onto, d, c) = split-Splitted actor note parent entity mentions target s h in
    (onto, c.onto_target, c.onto_new, Splitted-held v c, Splitted-active_entity v c)

-- In a sound ledger, splitting the moved mentions back onto the absorbed entity restores every mention's entity as it
-- was before the confirmation, whatever else the two decisions were given.
pub split-confirm_restores :
    (actor note : String) (parent a b : ℕ) (candidate : Option ℕ) (s : Session) {t : Session}
    {r : AdjudicationResult} (actor' note' : String) (parent' entity absorbed : ℕ) {u : Session}
    {q : AdjudicationResult}
    → IsSound s
    → confirm_match actor note parent a b candidate s ≡ ok (r, t)
    → active_entity b s.memberships ≡ some absorbed
    → split_entity actor' note' parent' entity r.moved_mentions (some absorbed) t ≡ ok (q, u)
    → (x : ℕ) → active_entity x u.memberships ≡ active_entity x s.memberships
split-confirm_restores actor note parent a b candidate s {t} {r} actor' note' parent' entity
      absorbed v h of_b k x =
    let (survivor, absorbed', c) = confirm-Confirmed actor note parent a b candidate s h in
    let (onto, d, c') =
      split-Splitted actor' note' parent' entity r.moved_mentions (some absorbed) t k in
    let w = Adjudicates-IsSound (confirms actor note parent a b candidate r h) v in
    ground (
      arith,
      c.of_b,
      c'.onto_target absorbed refl,
      Splitted-active_entity w c' x,
      Confirmed-moved v c x,
      Confirmed-active_entity v c x,
    )

-- ===== src/Actions/Recorded.antt =====
-- What the parts of `_create_claim` leave alone, and what a claim that was written satisfies.
use criminal_networks_analys.Common.{
  ℕ, suc, String, ◌≡◌, ap, sym, ◌∙◌, subst, Option, none, some, List, [], ◌∷◌, arith, inl, inr,
  Option-cases, Sum-cases,
}
use criminal_networks_analys.Identity.Store.{Session, IdentityMembership}
use criminal_networks_analys.Identity.Monad.{Work, new_id, Result-cases, ok}
use criminal_networks_analys.Identity.Ledger.{active_entity, open_membership}
use criminal_networks_analys.Identity.Effects.Open.{open_membership-Opened}
use criminal_networks_analys.Identity.Membership.Moving.{active_entity-append}
use criminal_networks_analys.Actions.Store.{Db}
use criminal_networks_analys.Actions.Ontology.{Ontology, PredicateSpec, entity_object_types}
use criminal_networks_analys.Actions.Monad.{pure, on_identity, >>=-eq-inr}
use criminal_networks_analys.Actions.Anchors.{
  check_anchor, entity_from_mention, get_mention, entity_type_for, create_entity, add_entity,
  entity_row,
}
use criminal_networks_analys.Actions.Claims.{ClaimDraft, subject_argument, object_argument}

module _ {H : Type 0} where
  -- An anchor is one of an entity argument, and its mention belongs to that entity.
  abbrev pub IsAnchored : Option ℕ → Option ℕ → Db H → Type 0
  IsAnchored none entity db = Unit
  IsAnchored (some mention) none db = ⊥
  IsAnchored (some mention) (some entity) db =
      active_entity mention db.identity.memberships ≡ some entity

  abbrev pub with_identity : Session → Db H → Db H
  with_identity s db = record db { identity = s }

  -- Only the identity tables change, and who belongs to an entity there stays with it.
  pub record Keeps (db db' : Db H) : Type 0 where
    pub elsewhere : db' ≡ with_identity db'.identity db
    pub belongs :
        (m e : ℕ)
        → active_entity m db.identity.memberships ≡ some e
        → active_entity m db'.identity.memberships ≡ some e

  pub Keeps-refl : (db db' : Db H) → db' ≡ db → Keeps db db'
  Keeps-refl db db' e = record {
    elsewhere = e ∙ ap (λ d. with_identity d.identity db) (sym e);
    belongs = λ m n h. ap (λ d. active_entity m d.identity.memberships) e ∙ h;
  }

  on_identity-ok :
      {A : Type 0} (w : Work A) (db db' : Db H) (a : A)
      → on_identity w db ≡ inr (a, db')
      → (w db.identity ≡ ok (a, db'.identity)) × (db' ≡ record db { identity = db'.identity })
  on_identity-ok w db db' a h = elim (Result-cases (w db.identity)) [
    | inl ((b, t), e) ↦ (ground (arith, h, e), ground (arith, h, e))
    | inr (x, e) ↦ ground (arith, h, e)
  ]

  pub open-Keeps :
      (mention entity : ℕ) (db db' : Db H) (row : IdentityMembership)
      → on_identity (open_membership mention entity none) db ≡ inr (row, db')
      → Keeps db db' × (active_entity mention db'.identity.memberships ≡ some entity)
  unfolding active_entity
  open-Keeps mention entity db db' row h =
      let (did, whole) = on_identity-ok (open_membership mention entity none) db db' row h in
      let o = open_membership-Opened mention entity none db.identity did in
      (
        record {
          elsewhere = whole;
          belongs = λ m e was. ground (
            arith,
            was,
            ap (active_entity m) o.memberships,
            active_entity-append m db.identity.memberships (row ∷ []),
          );
        },
        ground (
          arith,
          ap (active_entity mention) o.memberships,
          active_entity-append mention db.identity.memberships (row ∷ []),
          o.unresolved,
          o.mention_id,
          o.entity_id,
          o.still_open,
        ),
      )

  pub check_anchor-IsAnchored :
      (path : String) (mention entity : Option ℕ) (db db' : Db H)
      → check_anchor path mention entity db ≡ inr (tt, db')
      → Keeps db db' × IsAnchored mention entity db'
  unfolding check_anchor
  check_anchor-IsAnchored path none entity db db' h = (Keeps-refl db db' (ground (arith, h)), tt)
  check_anchor-IsAnchored path (some mention) none db db' h = ground (arith, h)
  check_anchor-IsAnchored path (some mention) (some entity) db db' h =
      elim (Option-cases (get_mention mention db.identity.mentions)) [
        | inl gone ↦ ground (arith, h, gone)
        | inr (found, g) ↦ elim (Option-cases (active_entity mention db.identity.memberships)) [
          | inl free ↦
              let (row, t, did, rest) =
                >>=-eq-inr (on_identity (open_membership mention entity none)) (λ _. pure tt) db
                  {b = tt} {d = db'} (ground (arith, h, g, free)) in
              let (keeps, there) = open-Keeps mention entity db t row did in
              subst (λ d. Keeps db d × (active_entity mention d.identity.memberships ≡ some entity))
                (ground (arith, rest)) (keeps, there)
          | inr (owner, belongs) ↦
              let same : db' ≡ db = ground (arith, h, g, belongs) in
              (
                Keeps-refl db db' same,
                ap (λ d. active_entity mention d.identity.memberships) same
                    ∙ ground (arith, h, g, belongs),
              )
        ]
      ]

  Keeps-trans : (a b c : Db H) → Keeps a b → Keeps b c → Keeps a c
  Keeps-trans a b c h k = record {
    elsewhere = k.elsewhere ∙ ap (with_identity c.identity) h.elsewhere;
    belongs = λ m e was. k.belongs m e (h.belongs m e was);
  }

  Keeps-same :
      (db db' : Db H)
      → db' ≡ with_identity db'.identity db
      → db'.identity.memberships ≡ db.identity.memberships
      → Keeps db db'
  Keeps-same db db' e f = record {
    elsewhere = e;
    belongs = λ m n was. ap (active_entity m) f ∙ was;
  }

  new_id-Keeps : (db db' : Db H) (id : ℕ) → on_identity new_id db ≡ inr (id, db') → Keeps db db'
  new_id-Keeps db db' id h =
      Keeps-same db db' (on_identity-ok new_id db db' id h).1 (ground (arith, h))

  entity_type_for-same :
      (allowed : List String) (requested : Option String) (path type : String) (db db' : Db H)
      → entity_type_for allowed requested path db ≡ inr (type, db')
      → db' ≡ db
  unfolding entity_type_for
  entity_type_for-same allowed none path type db db' h = ground (arith, h)
  entity_type_for-same allowed (some t) path type db db' h = ground (arith, h)

  abbrev drawn : Db H → Db H
  drawn db = record db { identity = record db.identity { drawn = suc db.identity.drawn } }

  abbrev next_id : Db H → ℕ
  next_id db = db.identity.ids db.identity.drawn

  create_entity-Keeps :
      (mention : ℕ) (label path : String) (allowed : List String) (requested : Option String)
      (db db' : Db H) (e : ℕ)
      → create_entity mention label path allowed requested db ≡ inr (e, db')
      → Keeps db db'
  unfolding create_entity
  create_entity-Keeps mention label path allowed requested db db' e h =
      elim (Sum-cases (entity_type_for allowed requested path (drawn db))) [
        | inl (x, bad) ↦ ground (arith, h, bad)
        | inr ((type, u), typed) ↦
            let same = entity_type_for-same allowed requested path type (drawn db) u typed in
            let before = add_entity (entity_row (next_id db) type label) u in
            let (row, g, opened, h') =
              >>=-eq-inr (on_identity (open_membership mention (next_id db) none))
                (λ _. pure (next_id db)) before {b = e} {d = db'} (ground (arith, h, typed)) in
            Keeps-trans db before db'
              (Keeps-same db before (ap (with_identity before.identity) same)
                (ap (λ d. d.identity.memberships) same))
              (Keeps-trans before g db' (open-Keeps mention (next_id db) before g row opened).0
                (Keeps-refl g db' (ground (arith, h'))))
      ]

  pub entity_from_mention-Keeps :
      (mention : Option ℕ) (path : String) (allowed : List String) (requested : Option String)
      (db db' : Db H) (e : Option ℕ)
      → entity_from_mention mention path allowed requested db ≡ inr (e, db')
      → Keeps db db'
  unfolding entity_from_mention
  entity_from_mention-Keeps none path allowed requested db db' e h =
      Keeps-refl db db' (ground (arith, h))
  entity_from_mention-Keeps (some id) path allowed requested db db' e h =
      elim (Option-cases (get_mention id db.identity.mentions)) [
        | inl gone ↦ ground (arith, h, gone)
        | inr (found, g) ↦ elim (Option-cases (active_entity id db.identity.memberships)) [
          | inl free ↦
              let (n, t, made, rest) =
                >>=-eq-inr (create_entity id found.raw_text path allowed requested)
                  (λ n. pure (some n)) db {b = e} {d = db'} (ground (arith, h, g, free)) in
              Keeps-trans db t db'
                (create_entity-Keeps id found.raw_text path allowed requested db t n made)
                (Keeps-refl t db' (ground (arith, rest)))
          | inr (owner, belongs) ↦ Keeps-refl db db' (ground (arith, h, g, belongs))
        ]
      ]

  pub subject_argument-Keeps :
      (ontology : Ontology) (spec : PredicateSpec) (d : ClaimDraft) (o e : Option ℕ) (db db' : Db H)
      → subject_argument ontology spec d o db ≡ inr (e, db')
      → Keeps db db'
  unfolding subject_argument
  subject_argument-Keeps ontology spec d none e db db' h =
      entity_from_mention-Keeps d.subject_mention_id _ spec.subject d.subject_entity_type db db' e h
  subject_argument-Keeps ontology spec d (some id) e db db' h =
      Keeps-refl db db' (ground (arith, h))

  pub object_argument-Keeps :
      (ontology : Ontology) (spec : PredicateSpec) (d : ClaimDraft) (o e : Option ℕ) (db db' : Db H)
      → object_argument ontology spec d o db ≡ inr (e, db')
      → Keeps db db'
  unfolding object_argument
  object_argument-Keeps ontology spec d (some id) e db db' h = Keeps-refl db db' (ground (arith, h))
  object_argument-Keeps ontology spec d none e db db' h = elim (Option-cases d.object_value) [
    | inl free ↦
        entity_from_mention-Keeps d.object_mention_id "claim.object_id"
          (entity_object_types spec.object) d.object_entity_type db db' e (ground (arith, h, free))
    | inr (v, given) ↦ Keeps-refl db db' (ground (arith, h, given))
  ]

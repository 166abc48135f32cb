-- ===== src/Actions/Sound.antt =====
-- What holds of a claim that `record_claim` has written.
use text.Mathlib.Text.{◌==◌ as str_eq}
use criminal_networks_analys.Common.{
  ℕ, String, ◌≡◌, ◌≢◌, ◌<◌, true, false, Option, none, some, [], ◌∷◌, ◌++◌, arith, inl, inr,
  is_none, Option-cases,
}
use criminal_networks_analys.Identity.Store.{Session}
use criminal_networks_analys.Identity.Ledger.{active_revision_id}
use criminal_networks_analys.Actions.Ontology.{Ontology, PredicateSpec, contains}
use criminal_networks_analys.Actions.Store.{Db, Claim}
use criminal_networks_analys.Actions.Anchors.{require_anchors, needs_anchors}
use criminal_networks_analys.Actions.Evidence.{same_bool}
use criminal_networks_analys.Actions.Claims.{
  ClaimDraft, Sides, check_arguments, check_grading, check_references, insert_claim, claim_row,
  out_of_order, get_entity,
}

-- The arguments as the checks leave them.
pub record IsSides (spec : PredicateSpec) (d : ClaimDraft) (s : Sides) : Type 0 where
  pub one_object : same_bool (is_none s.object) (is_none d.object_value) ≡ false
  pub no_loop : (o : ℕ) → s.object ≡ some o → s.subject ≢ o
  pub in_order : spec.symmetric ≡ true → (o : ℕ) → s.object ≡ some o → s.subject < o

-- The anchors that the assertion needs are there.
abbrev pub HasAnchors : Claim → Type 0
HasAnchors c =
    needs_anchors c.assertion_type c.collection_method ≡ true
    → (is_none c.subject_mention_id ≡ false)
      × (is_none c.object_id ≡ false → is_none c.object_mention_id ≡ false)

-- The grades and the times as the checks leave them.
pub record IsGraded (ontology : Ontology) (d : ClaimDraft) : Type 0 where
  pub event_times : out_of_order d.event_time_earliest d.event_time_latest ≡ false
  pub valid_dates : out_of_order d.valid_from d.valid_to ≡ false
  pub confidence : str_eq d.assertion_type "assessed" ≡ false → d.analytic_confidence ≡ none
  pub handling : contains d.handling_code ontology.handling_codes ≡ true

module _ {H : Type 0} (ontology : Ontology) where
  pub check_arguments-IsSides :
      (spec : PredicateSpec) (d : ClaimDraft) (a b : Option ℕ) (db db' : Db H) (s : Sides)
      → check_arguments ontology spec d a b db ≡ inr (s, db')
      → (db' ≡ db) × IsSides spec d s
  unfolding check_arguments
  check_arguments-IsSides spec d none b db db' s h = ground (arith, h)
  check_arguments-IsSides spec d (some a) none db db' s h =
      elim (Option-cases (get_entity a db.identity.entities)) [
        | inl gone ↦ ground (arith, h, gone)
        | inr (e, found) ↦ (
          ground (arith, h, found),
          record {
            one_object = ground (arith, h, found);
            no_loop = λ o is. ground (arith, h, found, is);
            in_order = λ sym o is. ground (arith, h, found, is);
          },
        )
      ]
  check_arguments-IsSides spec d (some a) (some b) db db' s h =
      elim (Option-cases (get_entity a db.identity.entities)) [
        | inl gone ↦ ground (arith, h, gone)
        | inr (e, found) ↦ elim (Option-cases (get_entity b db.identity.entities)) [
          | inl gone ↦ ground (arith, h, found, gone)
          | inr (f, found') ↦ (
            ground (arith, h, found, found'),
            record {
              one_object = ground (arith, h, found, found');
              no_loop = λ o is. ground (arith, h, found, found', is);
              in_order = λ sym o is. ground (arith, h, found, found', sym, is);
            },
          )
        ]
      ]

  pub check_grading-IsGraded :
      (d : ClaimDraft) (db db' : Db H)
      → check_grading ontology d db ≡ inr (tt, db')
      → (db' ≡ db) × IsGraded ontology d
  unfolding check_grading
  check_grading-IsGraded d db db' h = elim (Option-cases d.analytic_confidence) [
    | inl e ↦ (
      ground (arith, h, e),
      record {
        event_times = ground (arith, h, e);
        valid_dates = ground (arith, h, e);
        confidence = λ other. e;
        handling = ground (arith, h, e);
      },
    )
    | inr (v, e) ↦ (
      ground (arith, h, e),
      record {
        event_times = ground (arith, h, e);
        valid_dates = ground (arith, h, e);
        confidence = λ other. ground (arith, h, e, other);
        handling = ground (arith, h, e);
      },
    )
  ]

  pub check_references-same :
      (d : ClaimDraft) (db db' : Db H) → check_references ontology d db ≡ inr (tt, db') → db' ≡ db
  unfolding check_references
  check_references-same d db db' h = ground (arith, h)

  pub require_anchors-needed :
      (t : String) (m : Option String) (a b o : Option ℕ) (db db' : Db H)
      → require_anchors t m a b o db ≡ inr (tt, db')
      → (db' ≡ db)
        × (needs_anchors t m ≡ true → (is_none a ≡ false) × (is_none o ≡ false → is_none b ≡ false))
  unfolding require_anchors
  require_anchors-needed t m a b o db db' h =
      (ground (arith, h), λ needs. (ground (arith, h, needs), λ has. ground (arith, h, needs, has)))

  -- The claim is in its table, and apart from the identity tables nothing else has changed.
  abbrev pub wrote : Claim → Session → Db H → Db H
  wrote row s db = record db { identity = s; claims = db.claims ++ row ∷ [] }

  pub insert_claim-appends :
      (d : ClaimDraft) (s : Sides) (db db' : Db H) (row : Claim)
      → insert_claim ontology d s db ≡ inr (row, db')
      → (id : ℕ) × (revision : ℕ) × (now : ℕ) × (row
          ≡ claim_row ontology.version d s id revision now)
        × (db' ≡ wrote row db'.identity db)
        × (db'.identity.memberships ≡ db.identity.memberships)
  unfolding insert_claim active_revision_id
  insert_claim-appends d s db db' row h = (
    row.claim_id,
    row.identity_revision_id,
    row.recorded_at,
    ground (arith, h),
    ground (arith, h),
    ground (arith, h),
  )

-- ===== src/Actions/Lawful.antt =====
-- The theorem on `_create_claim`: every claim it writes obeys the rules of the table and of the anchors.
use text.Mathlib.Text.{◌==◌ as str_eq}
use criminal_networks_analys.Common.{
  ℕ, ◌≡◌, ◌≢◌, ◌<◌, ap, sym, ◌∙◌, subst, true, false, Option, none, some, arith, inr, is_none,
  Option-cases, inl,
}
use criminal_networks_analys.Identity.Ledger.{active_entity}
use criminal_networks_analys.Actions.Ontology.{Ontology, PredicateSpec, predicate, contains}
use criminal_networks_analys.Actions.Store.{Db, Claim}
use criminal_networks_analys.Actions.Monad.{Act, ◌>>=◌, >>=-eq-inr}
use criminal_networks_analys.Actions.Anchors.{check_anchor, require_anchors, needs_anchors}
use criminal_networks_analys.Actions.Evidence.{same_bool}
use criminal_networks_analys.Actions.Claims.{
  ClaimDraft, Sides, create_claim, check_arguments, check_grading, check_references,
  subject_argument, object_argument, claim_row, out_of_order, check_and_insert, anchor_and_insert,
}
use criminal_networks_analys.Actions.Recorded.{
  Keeps, IsAnchored, check_anchor-IsAnchored, subject_argument-Keeps, object_argument-Keeps,
}
use criminal_networks_analys.Actions.Sound.{
  HasAnchors, check_arguments-IsSides, check_grading-IsGraded, check_references-same,
  require_anchors-needed, insert_claim-appends, wrote,
}

or_default : PredicateSpec → Option PredicateSpec → PredicateSpec
or_default a none = a
or_default a (some b) = b

same_spec : (a b : PredicateSpec) → some a ≡ some b → a ≡ b
unfolding or_default
same_spec a b e = ap (or_default a) e

module _ {H : Type 0} (ontology : Ontology) where
  -- The rules of the claim table and of the anchors.
  pub record IsLawful (c : Claim) (db : Db H) : Type 0 where
    pub one_object : same_bool (is_none c.object_id) (is_none c.object_value) ≡ false
    pub no_loop : (o : ℕ) → c.object_id ≡ some o → c.subject_id ≢ o
    pub in_order :
        (spec : PredicateSpec)
        → predicate ontology c.predicate ≡ some spec
        → spec.symmetric ≡ true
        → (o : ℕ) → c.object_id ≡ some o
        → c.subject_id < o
    pub event_times : out_of_order c.event_time_earliest c.event_time_latest ≡ false
    pub valid_dates : out_of_order c.valid_from c.valid_to ≡ false
    pub confidence : str_eq c.assertion_type "assessed" ≡ false → c.analytic_confidence ≡ none
    pub handling : contains c.handling_code ontology.handling_codes ≡ true
    pub subject_anchor : IsAnchored c.subject_mention_id (some c.subject_id) db
    pub object_anchor : IsAnchored c.object_mention_id c.object_id db
    pub has_anchors : HasAnchors c

  IsAnchored-Keeps :
      (mention entity : Option ℕ) (db db' : Db H)
      → Keeps db db'
      → IsAnchored mention entity db
      → IsAnchored mention entity db'
  IsAnchored-Keeps none entity db db' keeps h = tt
  IsAnchored-Keeps (some m) none db db' keeps h = h
  IsAnchored-Keeps (some m) (some e) db db' keeps h = keeps.belongs m e h

  IsAnchored-same :
      (mention entity : Option ℕ) (db db' : Db H)
      → db'.identity.memberships ≡ db.identity.memberships
      → IsAnchored mention entity db
      → IsAnchored mention entity db'
  IsAnchored-same none entity db db' e h = tt
  IsAnchored-same (some m) none db db' e h = h
  IsAnchored-same (some m) (some n) db db' e h = ap (active_entity m) e ∙ h

  abbrev resolved : PredicateSpec → ClaimDraft → Option ℕ → Act H Claim
  resolved spec d m =
      object_argument ontology spec d d.object_id >>= check_and_insert ontology spec d m

  pub IsLawful-same :
      (c : Claim) (db db' : Db H)
      → db'.identity.memberships ≡ db.identity.memberships
      → IsLawful c db
      → IsLawful c db'
  IsLawful-same c db db' e h = record {
    one_object = h.one_object;
    no_loop = h.no_loop;
    in_order = h.in_order;
    event_times = h.event_times;
    valid_dates = h.valid_dates;
    confidence = h.confidence;
    handling = h.handling;
    subject_anchor =
        IsAnchored-same c.subject_mention_id (some c.subject_id) db db' e h.subject_anchor;
    object_anchor = IsAnchored-same c.object_mention_id c.object_id db db' e h.object_anchor;
    has_anchors = h.has_anchors;
  }

  -- What the last part does, for arguments as the checks leave them.
  abbrev Inserted : ClaimDraft → Sides → Db H → Db H → Claim → Type 0
  Inserted d s db db' row =
      (id : ℕ) × (revision : ℕ) × (now : ℕ) × (row ≡ claim_row ontology.version d s id revision now)
      × (db' ≡ wrote ontology row db'.identity db)
      × IsAnchored s.subject_mention (some s.subject) db'
      × IsAnchored s.object_mention s.object db'
      × (needs_anchors d.assertion_type d.collection_method ≡ true
          → (is_none s.subject_mention ≡ false)
            × (is_none s.object ≡ false → is_none s.object_mention ≡ false))

  anchor_and_insert-Inserted :
      (d : ClaimDraft) (s : Sides) (db db' : Db H) (row : Claim)
      → anchor_and_insert ontology d s db ≡ inr (row, db')
      → Inserted d s db db' row
  unfolding anchor_and_insert
  anchor_and_insert-Inserted d s db db' row h =
      let (u, a, first, h1) =
        >>=-eq-inr (check_anchor "claim.subject_mention_id" s.subject_mention (some s.subject)) _ db
          h in
      let (v, b, second, h2) =
        >>=-eq-inr (check_anchor "claim.object_mention_id" s.object_mention s.object) _ a h1 in
      let (w, c, third, h3) =
        >>=-eq-inr
          (require_anchors d.assertion_type d.collection_method s.subject_mention s.object_mention
            s.object)
          _ b h2 in
      let (keeps, anchored) =
        check_anchor-IsAnchored _ s.subject_mention (some s.subject) db a first in
      let (keeps', anchored') = check_anchor-IsAnchored _ s.object_mention s.object a b second in
      let (same, needed) =
        require_anchors-needed ontology d.assertion_type d.collection_method s.subject_mention
          s.object_mention s.object b c third in
      let (id, revision, now, is, appended, memberships) =
        insert_claim-appends ontology d s c db' row h3 in
      let table = memberships ∙ ap (λ x. x.identity.memberships) same in
      (
        id,
        revision,
        now,
        is,
        appended
            ∙ ap (wrote ontology row db'.identity) same
            ∙ ap (wrote ontology row db'.identity) keeps'.elsewhere
            ∙ ap (wrote ontology row db'.identity) keeps.elsewhere,
        IsAnchored-same s.subject_mention (some s.subject) b db' table
            (IsAnchored-Keeps s.subject_mention (some s.subject) a b keeps' anchored),
        IsAnchored-same s.object_mention s.object b db' table anchored',
        needed,
      )

  check_and_insert-Lawful :
      (spec : PredicateSpec) (d : ClaimDraft) (m n : Option ℕ) (db db' : Db H) (row : Claim)
      → predicate ontology d.predicate ≡ some spec
      → check_and_insert ontology spec d m n db ≡ inr (row, db')
      → (db' ≡ wrote ontology row db'.identity db) × IsLawful row db'
  unfolding check_and_insert
  check_and_insert-Lawful spec d m n db db' row declared h =
      let (s, a, checked, h1) = >>=-eq-inr (check_arguments ontology spec d m n) _ db h in
      let (u, b, graded, h2) = >>=-eq-inr (check_grading ontology d) _ a h1 in
      let (v, c, refers, h3) = >>=-eq-inr (check_references ontology d) _ b h2 in
      let (same, sides) = check_arguments-IsSides ontology spec d m n db a s checked in
      let (same', grades) = check_grading-IsGraded ontology d a b graded in
      let same'' = check_references-same ontology d b c refers in
      let (id, revision, now, is, appended, left, right, needed) =
        anchor_and_insert-Inserted d s c db' row h3 in
      (
        appended ∙ ap (wrote ontology row db'.identity) (same'' ∙ same' ∙ same),
        subst (λ c. IsLawful c db') (sym is)
            (record {
              one_object = sides.one_object;
              no_loop = sides.no_loop;
              in_order = λ spec' e symmetric.
                  sides.in_order
                    (ap (λ p. p.symmetric) (same_spec spec spec' (sym declared ∙ e)) ∙ symmetric);
              event_times = grades.event_times;
              valid_dates = grades.valid_dates;
              confidence = grades.confidence;
              handling = grades.handling;
              subject_anchor = left;
              object_anchor = right;
              has_anchors = needed;
            }),
      )

  -- A claim that `_create_claim` returns is the one row that it adds to its table, nothing outside the
  -- identity tables changes besides, and the claim obeys every rule of the table and of the anchors: it
  -- has an entity or a value for object, not both; it relates two different entities, the smaller first
  -- if the predicate is symmetric; its times and dates are in order; only an assessed claim has an
  -- analytic confidence; its handling code is declared; each anchor is a mention that belongs to that
  -- argument's entity; and an observed or reported claim that no human collected has its anchors.
  pub create_claim-IsLawful :
      (d : ClaimDraft) (db db' : Db H) (row : Claim)
      → create_claim ontology d db ≡ inr (row, db')
      → (db' ≡ wrote ontology row db'.identity db) × IsLawful row db'
  unfolding create_claim
  create_claim-IsLawful d db db' row h = elim (Option-cases (predicate ontology d.predicate)) [
    | inl e ↦ ground (arith, h, e)
    | inr (spec, e) ↦
        let (m, a, first, h1) =
          >>=-eq-inr (subject_argument ontology spec d d.subject_id) (resolved spec d) db
            (ground (arith, h, e)) in
        let (n, b, second, h2) =
          >>=-eq-inr (object_argument ontology spec d d.object_id)
            (check_and_insert ontology spec d m) a h1 in
        let keeps = subject_argument-Keeps ontology spec d d.subject_id m db a first in
        let keeps' = object_argument-Keeps ontology spec d d.object_id n a b second in
        let (appended, lawful) = check_and_insert-Lawful spec d m n b db' row e h2 in
        (
          appended
              ∙ ap (wrote ontology row db'.identity) keeps'.elsewhere
              ∙ ap (wrote ontology row db'.identity) keeps.elsewhere,
          lawful,
        )
  ]

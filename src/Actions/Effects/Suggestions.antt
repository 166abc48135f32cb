-- ===== src/Actions/Effects/Suggestions.antt =====
-- `submit_suggestion` and `review_suggestion` when they succeed.
use criminal_networks_analys.Common.{
  ℕ, suc, String, ◌≡◌, refl, ap, sym, subst, ◌∙◌, Option, none, some, [], ◌∷◌, arith, inl, inr,
  Option-cases, Sum-cases, Bool-cases,
}
use text.Mathlib.Text.{◌==◌ as str_eq}
use criminal_networks_analys.Audit.Log.{Entry}
use criminal_networks_analys.Actions.Ontology.{Ontology}
use criminal_networks_analys.Actions.Store.{Db, Runtime, ActionContext, str, ReviewQueue}
use criminal_networks_analys.Actions.Gate.{audit_entry}
use criminal_networks_analys.Actions.Claims.{number_or_new_id}
use criminal_networks_analys.Actions.Suggestions.{
  Payload, Drafts, SuggestionForm, submit_suggestion, suggestion_row, add_suggestion,
  if_claim_draft, target_of, check_row,
}
use criminal_networks_analys.Actions.Review.{review_suggestion, decided, put_suggestion}
use criminal_networks_analys.Actions.Recorded.{with_identity}
use criminal_networks_analys.Actions.Reviewed.{validate_payload-same}
use criminal_networks_analys.Actions.Settled.{review-Reviewed}
use criminal_networks_analys.Actions.Effects.{Audits, finish-Audits}
use criminal_networks_analys.Actions.Effects.Claims.{quiet, IsQuietly}

module _ {H : Type 0} (rt : Runtime H) (drafts : Drafts) (ontology : Ontology) where
  if_claim_draft-same :
      (kind : String) (payload : Payload) (db db' : Db H)
      → if_claim_draft rt drafts ontology kind payload db ≡ inr (tt, db')
      → db' ≡ db
  unfolding if_claim_draft
  if_claim_draft-same kind payload db db' h = elim (Bool-cases (str_eq kind "claim_draft")) [
    | inl e ↦ validate_payload-same ontology payload db db' (ground (arith, h, e))
    | inr e ↦ ground (arith, h, e)
  ]

  check_row-same : (row : ReviewQueue) (db db' : Db H) → check_row row db ≡ inr (tt, db') → db' ≡ db
  unfolding check_row
  check_row-same row db db' h = ground (arith, h)

  number_or_new_id-elsewhere :
      (o : Option ℕ) (db db' : Db H) (id : ℕ)
      → number_or_new_id ontology o db ≡ inr (id, db')
      → db' ≡ with_identity (record db.identity { drawn = db'.identity.drawn }) db
  number_or_new_id-elsewhere none db db' id h =
      let e : db' ≡ record db { identity = record db.identity { drawn = suc db.identity.drawn } } =
        ground (arith, h) in
      e ∙ sym (ap (λ x. with_identity (record db.identity { drawn = x.identity.drawn }) db) e)
  number_or_new_id-elsewhere (some n) db db' id h =
      let e : db' ≡ db = ground (arith, h) in
      e ∙ sym (ap (λ x. with_identity (record db.identity { drawn = x.identity.drawn }) db) e)

  abbrev submits : ActionContext → SuggestionForm → ℕ → Entry
  submits c form id = audit_entry rt c "submit_suggestion" "review_queue" (rt.spell id) none (
      ("producer", str form.producer)
      ∷ ("producer_version", str form.producer_version)
      ∷ ("suggestion_kind", str form.suggestion_kind)
      ∷ [])

  -- The row was added, with a key that no row had.
  abbrev pub Submitted : ActionContext → SuggestionForm → ReviewQueue → Db H → Db H → Type 0
  Submitted c form row db db' =
      (target : String) × (id : ℕ) × (u : Db H) × (row
        ≡ suggestion_row drafts form target id u.identity.now)
      × (u ≡ with_identity (record db.identity { drawn = u.identity.drawn }) db)
      × (check_row row u ≡ inr (tt, u))
      × Audits rt (submits c form id) (add_suggestion row u) db'

  submit_rest :
      (c : ActionContext) (form : SuggestionForm) (target : String) (db a u db' : Db H) (id : ℕ)
      (row : ReviewQueue)
      → target_of form.suggestion_kind ≡ some target
      → if_claim_draft rt drafts ontology form.suggestion_kind form.payload db ≡ inr (tt, a)
      → number_or_new_id ontology form.suggestion_id a ≡ inr (id, u)
      → submit_suggestion rt drafts ontology c form db ≡ inr (row, db')
      → Submitted c form row db db'
  unfolding submit_suggestion
  submit_rest c form target db a u db' id row e good numbered h =
      let row0 = suggestion_row drafts form target id u.identity.now in
      elim (Sum-cases (check_row row0 u)) [
        | inl (x, bad) ↦ ground (arith, h, e, good, numbered, bad)
        | inr ((o, v), fine) ↦
            let same = check_row-same row0 u v fine in
            let is : row ≡ row0 = ground (arith, h, e, good, numbered, fine) in
            (
              target,
              id,
              u,
              is,
              number_or_new_id-elsewhere form.suggestion_id a u id numbered
                  ∙ ap (λ x. with_identity (record x.identity { drawn = u.identity.drawn }) x)
                      (if_claim_draft-same form.suggestion_kind form.payload db a good),
              subst (λ r. check_row r u ≡ inr (tt, u)) (sym is) (fine ∙ ap (λ x. inr (tt, x)) same),
              subst (λ r. Audits rt (submits c form id) (add_suggestion r u) db') (sym is)
                  (finish-Audits rt (submits c form id) (add_suggestion row0 u) db' row0 row
                    (ground (arith, h, e, good, numbered, fine, same))),
            )
      ]

  pub submit-Submitted :
      (c : ActionContext) (form : SuggestionForm) (db db' : Db H) (row : ReviewQueue)
      → submit_suggestion rt drafts ontology c form db ≡ inr (row, db')
      → Submitted c form row db db'
  unfolding submit_suggestion
  submit-Submitted c form db db' row h = elim (Option-cases (target_of form.suggestion_kind)) [
    | inl e ↦ ground (arith, h, e)
    | inr (target, e) ↦
        elim (Sum-cases (if_claim_draft rt drafts ontology form.suggestion_kind form.payload db)) [
          | inl (x, bad) ↦ ground (arith, h, e, bad)
          | inr ((o, a), good) ↦ elim (Sum-cases (number_or_new_id ontology form.suggestion_id a)) [
            | inl (x, bad) ↦ ground (arith, h, e, good, bad)
            | inr ((id, u), numbered) ↦
                submit_rest c form target db a u db' id row e good numbered h
          ]
        ]
  ]

  pub submit-IsQuietly :
      (c : ActionContext) (form : SuggestionForm) (db db' : Db H) (row : ReviewQueue)
      → submit_suggestion rt drafts ontology c form db ≡ inr (row, db')
      → IsQuietly rt c db db'
  submit-IsQuietly c form db db' row h =
      let (target, id, u, is, elsewhere, checked, audited) = submit-Submitted c form db db' row h in
      let e = ap (add_suggestion row) elsewhere in
      (
        submits c form id,
        add_suggestion row u,
        audited,
        e ∙ sym (ap (λ x. quiet rt x db) e),
        refl,
        refl,
      )

  -- A submission draws identifiers, and leaves the rest of the identity session alone.
  pub submit-identity :
      (c : ActionContext) (form : SuggestionForm) (db db' : Db H) (row : ReviewQueue)
      → submit_suggestion rt drafts ontology c form db ≡ inr (row, db')
      → db'.identity ≡ record db.identity { drawn = db'.identity.drawn }
  submit-identity c form db db' row h =
      let (target, id, u, is, elsewhere, checked, (r, appended, same)) =
        submit-Submitted c form db db' row h in
      let e : db'.identity ≡ u.identity = λ i. (same i).identity in
      let drew : u.identity ≡ record db.identity { drawn = u.identity.drawn } =
        λ i. (elsewhere i).identity in
      e ∙ drew ∙ sym (ap (λ x. record db.identity { drawn = x.drawn }) e)

  pub review-IsQuietly :
      (c : ActionContext) (id : ℕ) (decision : String) (note : Option String) (edits : Payload)
      (db db' : Db H) (row : ReviewQueue)
      → review_suggestion rt drafts ontology c id decision note edits db ≡ inr (row, db')
      → IsQuietly rt c db db'
  review-IsQuietly c id decision note edits db db' row h =
      let (found, settled, case_id, u, there, still, allowed, is, outcome, audited) =
        review-Reviewed rt drafts ontology c id decision note edits db db' row h in
      let decided_row = decided settled decision c.actor u.identity.now note in
      let (own, claims, rejected) = outcome in
      let e = ap (put_suggestion decided_row) own.1 in
      (_, put_suggestion decided_row u, audited, e ∙ sym (ap (λ x. quiet rt x db) e), refl, refl)

-- ===== src/Actions/Submitted.antt =====
-- `submit_suggestion`: a proposal that is replayed is not suggested again.
use text.Mathlib.Text.{◌==◌ as str_eq}
use criminal_networks_analys.Common.{
  ◌≡◌, ap, ◌∙◌, true, false, [], ◌∷◌, ◌++◌, arith, inr, any-append,
}
use criminal_networks_analys.Actions.Ontology.{Ontology}
use criminal_networks_analys.Actions.Store.{Db, Runtime, ActionContext, ReviewQueue}
use criminal_networks_analys.Actions.Suggestions.{
  Drafts, SuggestionForm, submit_suggestion, check_row, has_key,
}
use criminal_networks_analys.Actions.Effects.Suggestions.{submit-Submitted}

check_row-new :
    {H : Type 0} (row : ReviewQueue) (db : Db H)
    → check_row row db ≡ inr (tt, db)
    → has_key row.idempotency_key db.suggestions ≡ false
unfolding check_row
check_row-new row db h = ground (arith, h)

module _ {H : Type 0} (rt : Runtime H) (drafts : Drafts) (ontology : Ontology) where
  -- A submission adds its row, which is open, at the end of the queue; and no later submission to that
  -- queue succeeds under the same idempotency key.
  pub submit_suggestion-once :
      (c d : ActionContext) (form form' : SuggestionForm) (db db' db'' : Db H)
      (row row' : ReviewQueue)
      → submit_suggestion rt drafts ontology c form db ≡ inr (row, db')
      → submit_suggestion rt drafts ontology d form' db' ≡ inr (row', db'')
      → (db'.suggestions ≡ db.suggestions ++ row ∷ [])
        × (str_eq row.status "suggested" ≡ true)
        × (str_eq row.idempotency_key row'.idempotency_key ≡ false)
  submit_suggestion-once c d form form' db db' db'' row row' h k =
      let (target, id, u, is, quiet_so, fine, (r, wrote, whole)) =
        submit-Submitted rt drafts ontology c form db db' row h in
      let (target', id', u', is', quiet_so', fine', audited') =
        submit-Submitted rt drafts ontology d form' db' db'' row' k in
      let table : db'.suggestions ≡ db.suggestions ++ row ∷ [] =
        (λ i. (whole i).suggestions) ∙ ap (λ x. x.suggestions ++ row ∷ []) quiet_so in
      (
        table,
        ap (λ x. str_eq x.status "suggested") is,
        ground (
          arith,
          check_row-new row' u' fine',
          ap (λ x. has_key row'.idempotency_key x.suggestions) quiet_so',
          ap (has_key row'.idempotency_key) table,
          any-append (λ x. str_eq x.idempotency_key row'.idempotency_key) db.suggestions (row ∷ []),
        ),
      )

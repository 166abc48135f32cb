-- ===== src/Actions/Logged.antt =====
-- The audit log over any sequence of actions.
use mathlib.Core.HLevel.{Discrete}
use criminal_networks_analys.Common.{ℕ, ◌+◌, ◌≡◌, refl, ap, ◌∙◌, subst, [], ◌∷◌, ◌++◌, inr, arith}
use criminal_networks_analys.Audit.Log.{AuditLog, Entry, append, verify, passes, allow, next_row}
use criminal_networks_analys.Audit.Appends.{IsNumbered, append-verify, append-adds}
use criminal_networks_analys.Actions.Ontology.{Ontology}
use criminal_networks_analys.Actions.Store.{Db, Runtime, ActionContext}
use criminal_networks_analys.Actions.Suggestions.{Drafts}
use criminal_networks_analys.Actions.Steps.{Acts, Acts-IsLogged, Reach, here, next, count}

module _ {H : Type 0} (rt : Runtime H) (drafts : Drafts) (ontology : Ontology) where
  appended :
      (c : ActionContext) (db db' : Db H)
      → Acts rt drafts ontology c db db'
      → (e : Entry) × (r : AuditLog H) × (append rt.digest rt.genesis e db.audit
          ≡ inr (r, db'.audit))
        × (e.actor ≡ c.actor)
        × (e.decision ≡ allow)
  appended c db db' a =
      let (e, before, audited, same, actor, allowed) =
        Acts-IsLogged rt drafts ontology c db db' a in
      let (r, wrote, whole) = audited in
      (
        e,
        r,
        subst (λ log. append rt.digest rt.genesis e log ≡ inr (r, db'.audit)) same wrote,
        actor,
        allowed,
      )

  -- An action that succeeds leaves the rows of the audit log as they were and adds one at their end: it
  -- has the next identifier of the sequence, it names the actor of the action, and its decision is to
  -- allow.
  pub Acts-audits_once :
      (c : ActionContext) (db db' : Db H)
      → Acts rt drafts ontology c db db'
      → (r : AuditLog H) × (db'.audit.rows ≡ db.audit.rows ++ r ∷ [])
        × (r.event.id ≡ db.audit.sequence)
        × (r.event.actor ≡ c.actor)
        × (r.event.decision ≡ allow)
  Acts-audits_once c db db' a =
      let (e, r, wrote, actor, allowed) = appended c db db' a in
      (
        next_row rt.digest rt.genesis e db.audit,
        ap (λ log. log.rows) (append-adds rt.digest rt.genesis e db.audit wrote),
        refl,
        actor,
        allowed,
      )

  -- A chain that verifies still does after any sequence of actions, and is longer by one row for each.
  pub Reach-verify :
      (decide : Discrete H) (n : ℕ) (db db' : Db H) (r : Reach rt drafts ontology db db')
      → IsNumbered db.audit
      → verify decide rt.digest rt.genesis db.audit ≡ passes n
      → IsNumbered db'.audit
        × (verify decide rt.digest rt.genesis db'.audit ≡ passes (count rt drafts ontology r + n))
  unfolding count
  Reach-verify decide n db _ here numbered valid = (numbered, valid ∙ ap passes (omega arith))
  Reach-verify decide n db _ (next {d} {e} c r a) numbered valid =
      let (numbered', valid') = Reach-verify decide n db d r numbered valid in
      let (entry, row, wrote, actor, allowed) = appended c d e a in
      let (numbered'', valid'') =
        append-verify decide rt.digest rt.genesis entry d.audit (count rt drafts ontology r + n)
          numbered' valid' wrote in
      (numbered'', valid'' ∙ ap passes (omega arith))

-- ===== src/Actions/Chains.antt =====
-- The chain of custody of each item, over any sequence of actions.
use mathlib.Core.List.{append-nil}
use text.Mathlib.Text.{◌==◌ as str_eq}
use criminal_networks_analys.Common.{
  suc, String, ◌≡◌, ◌≤◌, refl, sym, ◌∙◌, subst, false, Option, none, some, List, [], ◌∷◌, ◌++◌,
  arith, inl, inr, Bool-cases, select, select-append,
}
use criminal_networks_analys.Common.Texts.{str_eq→eq}
use criminal_networks_analys.Actions.Ontology.{Ontology}
use criminal_networks_analys.Actions.Store.{Db, Runtime, ActionContext, CustodyEvent}
use criminal_networks_analys.Actions.Evidence.{current_event, later_event, custody_row, queue_case}
use criminal_networks_analys.Actions.Effects.Members.{assign-Assigned, remove-Removed}
use criminal_networks_analys.Actions.Effects.Evidence.{
  Drawn, transfer-Transferred, register-Registered, open-Opened, release-Released, next_row,
}
use criminal_networks_analys.Actions.Suggestions.{Drafts}
use criminal_networks_analys.Actions.Effects.Claims.{
  IsQuietly, record-IsQuietly, retract-IsQuietly, link-IsQuietly,
}
use criminal_networks_analys.Actions.Effects.Suggestions.{submit-IsQuietly, review-IsQuietly}
use criminal_networks_analys.Actions.Steps.{
  Acts, records, retracts, links, submits, reviews, opens, assigns, removes, registers, transfers,
  releases, Reach, here, next,
}

-- The events of the item, in the order in which they were added.
abbrev pub events_of : String → List CustodyEvent → List CustodyEvent
events_of id es = select (λ e. str_eq e.evidence_id id) es

-- The event is a first one, or it takes the item over from the one before.
abbrev pub TakesOver : Option CustodyEvent → CustodyEvent → Type 0
TakesOver none e = (e.seq ≡ 1) × (e.from_actor ≡ none)
TakesOver (some p) e =
    (e.seq ≡ suc p.seq)
    × (e.from_actor ≡ some p.to_actor)
    × (p.occurred_at ≤ e.occurred_at)
    × (str_eq e.to_actor p.to_actor ≡ false)

-- Each event takes the item over from the one before.
abbrev pub IsChain : Option CustodyEvent → List CustodyEvent → Type 0
IsChain before [] = Unit
IsChain before (e ∷ es) = TakesOver before e × IsChain (some e) es

abbrev final : Option CustodyEvent → List CustodyEvent → Option CustodyEvent
final before [] = before
final before (e ∷ es) = final (some e) es

IsChain-append :
    (before : Option CustodyEvent) (es : List CustodyEvent) (e : CustodyEvent)
    → IsChain before es
    → TakesOver (final before es) e
    → IsChain before (es ++ e ∷ [])
IsChain-append before [] e chain takes = (takes, tt)
IsChain-append before (d ∷ es) e chain takes = (chain.0, IsChain-append (some d) es e chain.1 takes)

abbrev highest : List CustodyEvent → Option CustodyEvent
highest [] = none
highest (e ∷ es) = some (later_event e (highest es))

current_event-highest :
    (id : String) (es : List CustodyEvent) → current_event id es ≡ highest (events_of id es)
current_event-highest id [] = refl
current_event-highest id (e ∷ es) = ground (arith, current_event-highest id es)

later_event-le : (e : CustodyEvent) (o : Option CustodyEvent) → e.seq ≤ (later_event e o).seq
later_event-le e none = omega arith
later_event-le e (some f) = ground arith

-- Along a chain the numbers grow, so that the event with the highest one is the final one.
highest-final :
    (p : CustodyEvent) (es : List CustodyEvent)
    → IsChain (some p) es
    → some (later_event p (highest es)) ≡ final (some p) es
highest-final p [] chain = refl
highest-final p (e ∷ es) chain =
    ground (arith, later_event-le e (highest es), chain.0.0, highest-final e es chain.1)

final-highest : (es : List CustodyEvent) → IsChain none es → highest es ≡ final none es
final-highest [] chain = refl
final-highest (e ∷ es) chain = highest-final e es chain.1

current_event-final :
    (id : String) (es : List CustodyEvent)
    → IsChain none (events_of id es)
    → current_event id es ≡ final none (events_of id es)
current_event-final id es chain =
    current_event-highest id es ∙ final-highest (events_of id es) chain

-- The chain of custody of every item is whole.
abbrev pub AreChains : List CustodyEvent → Type 0
AreChains es = (id : String) → IsChain none (events_of id es)

-- One event more, which takes its item over.
AreChains-append :
    (es : List CustodyEvent) (e : CustodyEvent)
    → AreChains es
    → TakesOver (current_event e.evidence_id es) e
    → AreChains (es ++ e ∷ [])
AreChains-append es e chains takes id =
    subst (IsChain none) (sym (select-append (λ d. str_eq d.evidence_id id) es (e ∷ [])))
      (elim (Bool-cases (str_eq e.evidence_id id)) [
        | inl own ↦ rw own (
            IsChain-append none (events_of id es) e (chains id) (
              subst (λ o. TakesOver o e) (current_event-final id es (chains id))
                (subst (λ x. TakesOver (current_event x es) e) (str_eq→eq e.evidence_id id own)
                  takes)))
        | inr other ↦
            rw other (subst (IsChain none) (sym (append-nil (events_of id es))) (chains id))
      ])

module _ {H : Type 0} (rt : Runtime H) (drafts : Drafts) (ontology : Ontology) where
  Drawn-custody : (db drawn : Db H) → Drawn rt ontology db drawn → drawn.custody ≡ db.custody
  Drawn-custody db drawn (n, e) = λ i. (e i).custody

  queue_case-custody :
      (id : String) (case_id : Option String) (db : Db H)
      → (queue_case rt ontology id case_id db).custody ≡ db.custody
  queue_case-custody id none db = refl
  queue_case-custody id (some case_id) db = refl

  quietly-AreChains :
      (c : ActionContext) (db db' : Db H)
      → IsQuietly rt c db db'
      → AreChains db.custody
      → AreChains db'.custody
  quietly-AreChains c db db' (e, before, (r, wrote, same), quiet_so, actor, allowed) chains =
      subst AreChains (sym ((λ i. (same i).custody) ∙ (λ i. (quiet_so i).custody))) chains

  -- An action that is no transfer leaves the custody events alone.
  pub Acts-AreChains :
      (c : ActionContext) (db db' : Db H)
      → Acts rt drafts ontology c db db'
      → AreChains db.custody
      → AreChains db'.custody
  Acts-AreChains c db db' (opens title purpose code case_id row h) chains =
      let (id, drawn, draws, new, (r, wrote, same)) =
        open-Opened rt ontology c title purpose code case_id db db' row h in
      subst AreChains (sym ((λ i. (same i).custody) ∙ Drawn-custody db drawn draws)) chains
  Acts-AreChains c db db' (assigns case_id user_id role row h) chains =
      elim (assign-Assigned rt ontology c case_id user_id role db db' row h).2 [
        | inl (new, (r, wrote, same)) ↦ subst AreChains (sym (λ i. (same i).custody)) chains
        | inr (old, k, there, other, rel, (r, wrote, same)) ↦
            subst AreChains (sym (λ i. (same i).custody)) chains
      ]
  Acts-AreChains c db db' (removes case_id user_id row h) chains =
      let (old, k, there, rel, (r, wrote, same)) =
        remove-Removed rt ontology c case_id user_id db db' row h in
      subst AreChains (sym (λ i. (same i).custody)) chains
  Acts-AreChains c db db' (registers form row h) chains =
      let (id, drawn, draws, new, (r, wrote, same)) =
        register-Registered rt ontology c form db db' row h in
      subst AreChains
        (sym (
          (λ i. (same i).custody)
          ∙ queue_case-custody id form.case_id _
          ∙ Drawn-custody db drawn draws))
        chains
  Acts-AreChains c db db' (transfers form row h) chains =
      elim (transfer-Transferred rt ontology c form db db' row h).2 [
        | inl (new, (r, wrote, same)) ↦
            subst AreChains (sym (λ i. (same i).custody))
              (AreChains-append db.custody (custody_row form 1 none) chains (rw new (refl, refl)))
        | inr (previous, there, later, other, (r, wrote, same)) ↦
            subst AreChains (sym (λ i. (same i).custody)) (
              AreChains-append db.custody (next_row rt ontology form previous) chains
                (rw there (refl, refl, later, other)))
      ]
  Acts-AreChains c db db' (releases record_id note row h) chains =
      let (found, there, held, (r, wrote, same)) =
        release-Released rt ontology c record_id note db db' row h in
      subst AreChains (sym (λ i. (same i).custody)) chains
  Acts-AreChains c db db' (records d row h) chains =
      quietly-AreChains c db db' (record-IsQuietly rt ontology c d db db' row h) chains
  Acts-AreChains c db db' (retracts claim_id reason row h) chains =
      quietly-AreChains c db db' (retract-IsQuietly rt ontology c claim_id reason db db' row h)
        chains
  Acts-AreChains c db db' (links a b relation row h) chains =
      quietly-AreChains c db db' (link-IsQuietly rt ontology c a b relation db db' row h) chains
  Acts-AreChains c db db' (submits form row h) chains =
      quietly-AreChains c db db' (submit-IsQuietly rt drafts ontology c form db db' row h) chains
  Acts-AreChains c db db' (reviews id decision note edits row h) chains =
      quietly-AreChains c db db'
        (review-IsQuietly rt drafts ontology c id decision note edits db db' row h) chains

  -- Whatever actions are performed, the custody events of every item stay one unbroken chain: they are
  -- numbered 1, 2, 3 and so on, the first has no giver, and each later one is given by the custodian of
  -- the one before, to someone else, and not before it in time.
  pub Reach-AreChains :
      (db db' : Db H)
      → Reach rt drafts ontology db db'
      → AreChains db.custody
      → AreChains db'.custody
  Reach-AreChains db _ here chains = chains
  Reach-AreChains db _ (next {d} {e} c r a) chains =
      Acts-AreChains c d e a (Reach-AreChains db d r chains)

-- ===== src/Actions/Access/Handing.antt =====
-- The actions on evidence keep the store, once it is brought up to date, at what the tables imply.
use text.Mathlib.Text.{◌==◌ as str_eq}
use criminal_networks_analys.Common.{
  String, ◌≡◌, refl, ap, ◌∙◌, Bool, false, ◌&&◌, ◌||◌, not, Option, none, some, List, [], ◌∷◌, ◌++◌,
  arith, inl, inr, map, Bool-cases, Option-cases,
}
use criminal_networks_analys.Common.Texts.{str_eq→eq, str_eq_refl}
use criminal_networks_analys.Authz.Tuples.{Tuple3, same_tuple, latest_events, keep_latest}
use criminal_networks_analys.Authz.Sets.{same_tuple-eq}
use criminal_networks_analys.Authz.Outbox.{Server}
use criminal_networks_analys.Authz.Rebuilt.{IsStore}
use criminal_networks_analys.Actions.Ontology.{Ontology}
use criminal_networks_analys.Actions.Store.{
  Db, Runtime, CustodyEvent, EvidenceItem, ActionContext, tables, evidence_view, custody_view,
}
use criminal_networks_analys.Actions.Evidence.{
  EvidenceForm, CustodyForm, current_event, get_evidence, custody_row, custody_tuple, case_tuple,
  add_evidence, evidence_row, add_event, queue_case,
}
use criminal_networks_analys.Actions.Effects.Evidence as Effects
use criminal_networks_analys.Actions.Effects.Evidence.{handed, next_row, released}
use criminal_networks_analys.Actions.Access.Changed.{wanted}
use criminal_networks_analys.Actions.Access.Custody.{
  held, held-latest_events, latest_events-IsPerItem, latest_events-append,
}
use criminal_networks_analys.Actions.Access.Custodians.{
  kept, kept-none, kept-some, keep_latest-first, keep_latest-next,
}
use criminal_networks_analys.Actions.Access.Wanted.{
  filed, desired-parts, filed-relation, filed-append, filed-none, kept-relation, wanted-case,
  wanted-custody,
}
use criminal_networks_analys.Actions.Access.Queue.{queue-write, queue-delete}
use criminal_networks_analys.Actions.Access.Granting.{desired, IsGranted, LeadsTo-same}

map_append-custody :
    (es : List CustodyEvent) (e : CustodyEvent)
    → map custody_view (es ++ e ∷ []) ≡ map custody_view es ++ custody_view e ∷ []
map_append-custody [] e = refl
map_append-custody (d ∷ es) e = ap (λ l. custody_view d ∷ l) (map_append-custody es e)

latest-add :
    (es : List CustodyEvent) (e : CustodyEvent)
    → latest_events (map custody_view (es ++ e ∷ [])) []
      ≡ keep_latest (custody_view e) (latest_events (map custody_view es) [])
latest-add es e =
    ap (λ l. latest_events l []) (map_append-custody es e)
    ∙ latest_events-append (map custody_view es) [] (custody_view e)

-- A custodian's tuple is wanted as far as the custody events say.
custody-desired :
    {H : Type 0} (id actor : String) (db : Db H)
    → desired db (custody_tuple id actor)
      ≡ kept (custody_tuple id actor) (latest_events (map custody_view db.custody) [])
custody-desired id actor db = ground (
  arith,
  desired-parts (custody_tuple id actor) (tables db),
  wanted-custody id actor db.members,
  filed-relation (custody_tuple id actor) (map evidence_view db.evidence) refl,
)

-- A custodian's tuple is of no other kind.
only-custody :
    {H : Type 0} (u : Tuple3) (id actor : String) (db : Db H)
    → (same_tuple u (custody_tuple id actor)
        && (wanted u db.members || filed u (map evidence_view db.evidence)))
      ≡ false
only-custody u id actor db = elim (Bool-cases (same_tuple u (custody_tuple id actor))) [
  | inl same ↦
      let is = same_tuple-eq u (custody_tuple id actor) same in
      ground (
        arith,
        ap (λ t. wanted t db.members) is ∙ wanted-custody id actor db.members,
        ap (λ t. filed t (map evidence_view db.evidence)) is
            ∙ filed-relation (custody_tuple id actor) (map evidence_view db.evidence) refl,
      )
  | inr other ↦ ground (arith, other)
]

current_event-id :
    (id : String) (es : List CustodyEvent) (e : CustodyEvent)
    → current_event id es ≡ some e
    → e.evidence_id ≡ id
current_event-id id [] e h = ground (arith, h)
current_event-id id (d ∷ es) e h = elim (Bool-cases (str_eq d.evidence_id id)) [
  | inl own ↦ elim (Option-cases (current_event id es)) [
    | inl c ↦ ground (arith, h, own, c, str_eq→eq d.evidence_id id own)
    | inr (g, c) ↦
        ground (arith, h, own, c, str_eq→eq d.evidence_id id own, current_event-id id es g c)
  ]
  | inr other ↦ ground (arith, h, other, current_event-id id es e)
]

module _ {H F : Type 0} (rt : Runtime H) (ontology : Ontology) (server : Server F) (f : F) where
  add_evidence-IsGranted :
      (row : EvidenceItem) (case_id : Option String) (db : Db H)
      → IsStore server
      → row.case_id ≡ case_id
      → get_evidence row.evidence_id db.evidence ≡ none
      → IsGranted server f db
      → IsGranted server f
          (queue_case rt ontology row.evidence_id case_id (add_evidence rt ontology row db))
  add_evidence-IsGranted row none db store e new granted = record {
    keyed = granted.keyed;
    leads =
        LeadsTo-same server f (add_evidence rt ontology row db) _ _
          (λ u. ground (
            arith,
            e,
            desired-parts u (tables db),
            desired-parts u (tables (add_evidence rt ontology row db)),
            filed-append u db.evidence row,
          ))
          granted.leads;
  }
  add_evidence-IsGranted row (some case_id) db store e new granted =
      let t = case_tuple row.evidence_id case_id in
      let absent : desired db t ≡ false = ground (
        arith,
        desired-parts t (tables db),
        wanted-case row.evidence_id case_id db.members,
        filed-none row.evidence_id case_id db.evidence new,
        kept-relation t (latest_events (map custody_view db.custody) []) refl,
      ) in
      record {
        keyed = granted.keyed;
        leads =
            LeadsTo-same server f
              (queue_case rt ontology row.evidence_id (some case_id)
                (add_evidence rt ontology row db))
              _ _
              (λ u. ground (
                arith,
                e,
                desired-parts u (tables db),
                desired-parts u (tables (add_evidence rt ontology row db)),
                filed-append u db.evidence row,
              ))
              (queue-write server store f (desired db) t (add_evidence rt ontology row db) absent
                granted.leads);
      }

  pub filed-IsGranted :
      (c : ActionContext) (form : EvidenceForm) (id : String) (db : Db H)
      → IsStore server
      → get_evidence id db.evidence ≡ none
      → IsGranted server f db
      → IsGranted server f (Effects.filed rt ontology c form id db)
  filed-IsGranted c form id db store new granted =
      add_evidence-IsGranted (evidence_row rt ontology form id c.actor db) form.case_id db store
        refl new granted

  pub first-IsGranted :
      (form : CustodyForm) (db : Db H)
      → IsStore server
      → current_event form.evidence_id db.custody ≡ none
      → IsGranted server f db
      → IsGranted server f (handed rt ontology form (custody_row form 1 none) db)
  first-IsGranted form db store new granted =
      let t = custody_tuple form.evidence_id form.to_actor in
      let row = custody_row form 1 none in
      let cs = latest_events (map custody_view db.custody) [] in
      let nothing : held form.evidence_id cs ≡ none =
        ground (arith, new, held-latest_events form.evidence_id db.custody) in
      record {
        keyed = granted.keyed;
        leads =
            LeadsTo-same server f (handed rt ontology form row db) _ _
              (λ u. ground (
                arith,
                desired-parts u (tables db),
                desired-parts u (tables (handed rt ontology form row db)),
                ap (kept u) (latest-add db.custody row),
                keep_latest-first u (custody_view row) cs nothing,
              ))
              (queue-write server store f (desired db) t (add_event rt ontology row db)
                (custody-desired form.evidence_id form.to_actor db
                  ∙ kept-none form.evidence_id form.to_actor cs nothing)
                granted.leads);
      }

  pub next-IsGranted :
      (form : CustodyForm) (previous : CustodyEvent) (db : Db H)
      → IsStore server
      → current_event form.evidence_id db.custody ≡ some previous
      → str_eq form.to_actor previous.to_actor ≡ false
      → IsGranted server f db
      → IsGranted server f (
          handed rt ontology form
            (next_row rt ontology form previous)
            (released rt ontology form previous db))
  next-IsGranted form previous db store there other granted =
      let row = next_row rt ontology form previous in
      let t_old = custody_tuple form.evidence_id previous.to_actor in
      let before = released rt ontology form previous db in
      let cs = latest_events (map custody_view db.custody) [] in
      let per_item = latest_events-IsPerItem (map custody_view db.custody) [] tt in
      let holds_it : held form.evidence_id cs ≡ some (custody_view previous) =
        ground (arith, there, held-latest_events form.evidence_id db.custody) in
      let without : Tuple3 → Bool = λ u. not (same_tuple u t_old) && desired db u in
      let present =
        custody-desired form.evidence_id previous.to_actor db
        ∙ kept-some form.evidence_id previous.to_actor cs (custody_view previous) per_item holds_it
        ∙ str_eq_refl previous.to_actor in
      let absent =
        custody-desired form.evidence_id form.to_actor db
        ∙ kept-some form.evidence_id form.to_actor cs (custody_view previous) per_item holds_it
        ∙ other in
      record {
        keyed = granted.keyed;
        leads =
            LeadsTo-same server f (handed rt ontology form row before) _ _
              (λ u. ground (
                arith,
                desired-parts u (tables db),
                desired-parts u (tables (handed rt ontology form row before)),
                ap (kept u) (latest-add db.custody row),
                keep_latest-next u (custody_view row) cs (custody_view previous) per_item holds_it
                    (omega arith),
                ap (λ x. same_tuple u (custody_tuple x previous.to_actor))
                    (current_event-id form.evidence_id db.custody previous there),
                only-custody u form.evidence_id previous.to_actor db,
              ))
              (queue-write server store f without (custody_tuple form.evidence_id form.to_actor)
                (add_event rt ontology row before) (ground (arith, absent))
                (queue-delete server store f (desired db) t_old db present granted.leads));
      }
